-- ===== src/Cni/Tests.antt =====
-- The theorem about pkg/cni/simpleconfigwriter.go on files that are an association list.
use networking.Prelude.{Option, none, some, String, ok, string_eq, ◌≡◌, ◌≢◌, arith, refl, [], ◌∷◌}
use networking.Prelude.Dict.{Dict, lookup, insert, lookup-insert}
use networking.Net.{IpNet}
use networking.Cni.{FileRead, contents, missing, FileCalls, expected_config, write_cni_config}
use networking.Cni.Write.{Disk, held, write_cni_config_lem}

abbrev pub World : Type 0
World = Dict String String

abbrev pub file : World → String → Option String
file w p = lookup p w

abbrev pub read_file : String → World → FileRead × World
read_file p w = (elim (lookup p w) [ none ↦ missing | some s ↦ contents s ], w)

abbrev pub files : FileCalls World
files = record { read_file = read_file; write_file = λ p s w. (ok tt, insert p s w) }

pub disk : Disk files file
disk = record {
  read_some = λ p s w h. ground (arith, h);
  read_none = λ p w h. ground (arith, h);
  store = insert;
  written = λ p s w. refl;
  file-store = λ p q s w. lookup-insert p q s w;
}

-- A stand-in for `strings.ReplaceAll` and for the text of a network.
abbrev pub replace_all : String → String → String → String
replace_all text old new = new

abbrev net_text : IpNet → String
net_text n = "100.96.1.0/24"

abbrev network : Option IpNet
network = some (record { ip = 100 ∷ 96 ∷ 1 ∷ 0 ∷ []; mask = 255 ∷ 255 ∷ 255 ∷ 0 ∷ [] })

abbrev before : World
before = ("/etc/cni/net.d/10-kopeio.conflist", "old") ∷ ("/etc/hosts", "localhost") ∷ []

write_cni_config_lem_example :
    let path : String = "/etc/cni/net.d/10-kopeio.conflist" in
    let r = write_cni_config net_text replace_all files path network before in
    (r.0 ≡ ok tt)
    × (held files path file r.1 ≡ expected_config net_text replace_all network)
    × ((q : String) → path ≢ q → file r.1 q ≡ file before q)
    × (held files path file before ≡ expected_config net_text replace_all network → r.1 ≡ before)
write_cni_config_lem_example =
    write_cni_config_lem files "/etc/cni/net.d/10-kopeio.conflist" file net_text replace_all disk
      network before
