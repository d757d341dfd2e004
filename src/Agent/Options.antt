-- ===== src/Agent/Options.antt =====
-- cmd/networking-agent/options.go, and how main.go fills the options.
use networking.Prelude.{
  ℕ, Bool, false, Option, none, some, List, [], ◌∷◌, String, Exec, Result, ok, err, fatal, Error,
  wrap, ◌≡◌, arith, ◌⊎◌, inl, inr, Result-cases,
}
use networking.Cni.{contents, missing, unreadable, FileCalls}

pub record IpsecOptions : Type 0 where
  pub authentication : String
  pub encryption : String
  pub encapsulation : String

-- `ResyncPeriod` is in seconds.
pub record Options : Type 0 where
  pub provider : String
  pub target_link_name : String
  pub resync_period : ℕ
  pub node_name : String
  pub machine_id_path : String
  pub system_uuid_path : String
  pub boot_id_path : String
  pub ipsec : IpsecOptions
  pub log_level : Option ℕ
  pub pod_cidr : String
  pub cni_config_path : String

-- `&Options{}`
unfoldable pub zero_options : Options
zero_options = record {
  provider = "";
  target_link_name = "";
  resync_period = 0;
  node_name = "";
  machine_id_path = "";
  system_uuid_path = "";
  boot_id_path = "";
  ipsec = record { authentication = ""; encryption = ""; encapsulation = "" };
  log_level = none;
  pod_cidr = "";
  cni_config_path = "";
}

-- `InitDefaults`
unfoldable pub init_defaults : Options → Options
init_defaults o = record o {
  log_level = some 1;
  resync_period = 30;
  target_link_name = "";
  provider = "vxlan";
  pod_cidr = "100.96.0.0/12";
  system_uuid_path = "/sys/class/dmi/id/product_uuid";
  ipsec = record { authentication = "sha1"; encapsulation = "udp"; encryption = "aes" };
}

-- A flag that has been registered: its name, and what its value does to the options.
pub record Flag : Type 0 where
  pub name : String
  pub put : String → Options → Result Options

abbrev pub string_flag : String → (String → Options → Options) → Flag
string_flag name put = record { name = name; put = λ s o. ok (put s o) }

-- `AddFlags`. `parse_duration` is that of the package `flag`.
unfoldable pub add_flags : (String → Result ℕ) → List Flag
add_flags parse_duration =
    record {
      name = "sync-period";
      put = λ s o. elim (parse_duration s) [
        | ok d ↦ ok (record o { resync_period = d })
        | err x ↦ err x
        | fatal x ↦ fatal x
      ];
    }
    ∷ string_flag "pod-cidr" (λ s o. record o { pod_cidr = s })
    ∷ string_flag "node-name" (λ s o. record o { node_name = s })
    ∷ string_flag "machine-id" (λ s o. record o { machine_id_path = s })
    ∷ string_flag "system-uuid" (λ s o. record o { system_uuid_path = s })
    ∷ string_flag "boot-id" (λ s o. record o { boot_id_path = s })
    ∷ string_flag "provider" (λ s o. record o { provider = s })
    ∷ string_flag "target" (λ s o. record o { target_link_name = s })
    ∷ string_flag "ipsec-encryption"
        (λ s o. record o { ipsec = record (o.ipsec) { encryption = s } })
    ∷ string_flag "ipsec-authentication"
        (λ s o. record o { ipsec = record (o.ipsec) { authentication = s } })
    ∷ string_flag "ipsec-encapsulation"
        (λ s o. record o { ipsec = record (o.ipsec) { encapsulation = s } })
    ∷ string_flag "cni-config" (λ s o. record o { cni_config_path = s })
    ∷ []

-- What `LoadFrom` returns beside the options that it fills: nothing, an error that
-- `os.IsNotExist` knows, or another one.
pub data Loaded : Type 0 where
  loaded : Options → Loaded
  absent : Loaded
  failed : Error → Loaded

-- `parse` is `FlagSet.Parse`, which ends the process on a bad flag, and `unmarshal` that of the
-- package yaml: an error, or the options with the fields of the text.
module _ {W : Type 0} (files : FileCalls W) (unmarshal : String → Options → Error ⊎ Options) where
  -- `LoadFrom`
  unfoldable pub load_from : Options → String → W → Loaded × W
  load_from o path w =
      let (answer, w') = files.read_file path w in
      (
        elim answer [
          | missing ↦ absent
          | unreadable x ↦ failed (wrap "error reading file" x)
          | contents text ↦ elim (unmarshal text o) [
            | inl x ↦ failed (wrap "error parsing file" x)
            | inr o' ↦ loaded o'
          ]
        ],
        w',
      )

  unfoldable pub or_defaults : Options → Loaded → Result Options
  or_defaults o (loaded o') = ok o'
  or_defaults o absent = ok o
  or_defaults o (failed x) = err (wrap "error reading config file" x)

  -- The options of `run`: the defaults, the file, and then the arguments of the process, of which
  -- the first is the name of the program.
  unfoldable pub run_options :
      (List Flag → List String → Options → Result Options)
      → (String → Result ℕ)
      → List String
      → Exec W Options
  run_options parse parse_duration args w =
      let o = init_defaults zero_options in
      let (file, w') = load_from o "/config/config.yaml" w in
      elim (or_defaults o file) [
        | ok o' ↦ (parse (add_flags parse_duration) args o', w')
        | err x ↦ (err x, w')
        | fatal x ↦ (fatal x, w')
      ]

  -- `FlagSet.Parse` stops at the first argument that is no flag. So it stops at the name of the
  -- program, and no argument has an effect: whatever follows the name, the options are those of
  -- the file.
  pub run_options_args :
      (parse : List Flag → List String → Options → Result Options) (is_flag : String → Bool)
      (parse_duration : String → Result ℕ)
      → ((flags : List Flag) (a : String) (rest : List String) (o : Options)
          → is_flag a ≡ false
          → parse flags (a ∷ rest) o ≡ ok o)
      → (program : String) (args args' : List String) (w : W) → is_flag program ≡ false
      → run_options parse parse_duration (program ∷ args) w
        ≡ run_options parse parse_duration (program ∷ args') w
  unfolding run_options
  run_options_args parse is_flag parse_duration stops program args args' w plain =
      let o = init_defaults zero_options in
      let flags = add_flags parse_duration in
      elim (Result-cases (or_defaults o (load_from o "/config/config.yaml" w).0)) [
        | inl (o', e) ↦
            ground (arith, e, stops flags program args o' plain, stops flags program args' o' plain)
        | inr (inl (x, e)) ↦ ground (arith, e)
        | inr (inr (x, e)) ↦ ground (arith, e)
      ]
