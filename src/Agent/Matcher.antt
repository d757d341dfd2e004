-- ===== src/Agent/Matcher.antt =====
-- How `run` of cmd/networking-agent/main.go tells the local node from the others.
use networking.Prelude.{
  Bool, not, String, Exec, ok, err, errorf, wrap, ◌>>=◌, pure, context, raise, if◌then◌else◌, ◌==◌,
  string_eq, ◌≡◌, ◌≢◌, arith,
}
use networking.Cni.{contents, missing, unreadable, FileCalls}
use networking.Nodes.{Node}
use networking.Agent.Options.{Options}

-- `trim_space` is `strings.TrimSpace`, `node_name` the value of NODE_NAME. A missing file is an
-- error like another.
module _ {W : Type 0} (files : FileCalls W) (trim_space : String → String)
    (hostname : Exec W String) where
  unfoldable pub read_id : String → String → Exec W String
  read_id message path w =
      let (answer, w') = files.read_file path w in
      elim answer [
        | missing ↦ (err (wrap message (errorf "file does not exist")), w')
        | unreadable x ↦ (err (wrap message x), w')
        | contents text ↦ (ok (trim_space text), w')
      ]

  abbrev pub by_name : String → Node → Bool
  by_name name node = node.name == name

  unfoldable pub match_node_name : Options → Exec W (Node → Bool)
  match_node_name o =
      if o.node_name == ""
      then (context "error getting hostname" hostname >>= λ name. pure (by_name name))
      else pure (by_name o.node_name)

  unfoldable pub match_boot_id : Options → Exec W (Node → Bool)
  match_boot_id o = read_id "error reading boot-id file" o.boot_id_path >>= λ id.
      pure (λ node. node.boot_id == id)

  unfoldable pub match_system_uuid : Options → Exec W (Node → Bool)
  match_system_uuid o = read_id "error reading system-uuid file" o.system_uuid_path >>= λ id.
      if id == "03000200-0400-0500-0006-000700080009"
      then raise
          (errorf "detected well-known invalid system-uuid 03000200-0400-0500-0006-000700080009")
      else pure (λ node. node.system_uuid == id)

  unfoldable pub match_machine_id : Options → Exec W (Node → Bool)
  match_machine_id o = read_id "error reading machine-id file" o.machine_id_path >>= λ id.
      pure (λ node. node.machine_id == id)

  -- `matcher`
  unfoldable pub choose_matcher : String → Options → Exec W (Node → Bool)
  choose_matcher node_name o =
      if not (node_name == "")
      then pure (by_name node_name)
      else if not (o.machine_id_path == "")
      then match_machine_id o
      else if not (o.system_uuid_path == "")
      then match_system_uuid o
      else if not (o.boot_id_path == "")
      then match_boot_id o
      else match_node_name o

  -- The name that is passed in NODE_NAME is preferred to all options; without it the path of a
  -- machine id comes first, and then that of the system UUID, which is set by default: while it
  -- is, the path of a boot id and the name of the node have no effect.
  pub choose_matcher_order :
      (node_name : String) (o o' : Options) (w : W)
      → o.machine_id_path ≡ o'.machine_id_path
      → o.system_uuid_path ≡ o'.system_uuid_path
      → o.system_uuid_path ≢ ""
      → (choose_matcher node_name o w ≡ choose_matcher node_name o' w)
        × (node_name ≢ "" → choose_matcher node_name o w ≡ (ok (by_name node_name), w))
  unfolding choose_matcher match_machine_id match_system_uuid
  choose_matcher_order node_name o o' w machine uuid set =
      let is_set = string_eq.same_iff o.system_uuid_path "" in
      (
        ground (arith, machine, uuid, set, is_set),
        λ named. ground (arith, named, string_eq.same_iff node_name ""),
      )
