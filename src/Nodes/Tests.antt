-- ===== src/Nodes/Tests.antt =====
-- The theorems about pkg/routing/nodes.go at a cluster of two nodes, and a run.
use networking.Prelude.{
  ℕ, Bool, true, Option, none, some, [], ◌∷◌, String, if◌then◌else◌, ◌==◌, nat_eq, string_eq, ◌≡◌,
  ◌≢◌, ◌↔◌, refl, arith, length,
}
use networking.Prelude.Dict.{lookup, insert, RangeOrder}
use networking.Net.{Ip, IpNet}
use networking.Nodes.{NodeAddress, internal_ip, network_unavailable, condition_true, Node, Parsers}
use networking.Nodes.Info.{blank, update}
use networking.Nodes.Info.Update.{Reflects, update_changed_iff, update-Reflects}
use networking.Nodes.Info.Choice.{update-perm}
use mathlib.Core.List.Permᴰ
use networking.Nodes.Map.{
  NodeMap, new_node_map, find_or_add, claim_me, write, bump, remove_node, update_node,
  replace_all_nodes,
}
use networking.Nodes.Map.Invariant.{
  IsValid, updates, replaces, call, run, call-IsValid, run-new_node_map-IsValid,
}
use networking.Nodes.Map.View.{view, known, view-update_node}
use networking.Nodes.Map.Replace.{listed, view-replace_all_nodes}
use networking.Nodes.Map.Stale.{me_after_removal}

-- Parsers that know the texts below.
abbrev pub parse_cidr : String → Option IpNet
parse_cidr s =
    if s == "100.96.1.0/24"
    then some (record { ip = 100 ∷ 96 ∷ 1 ∷ 0 ∷ []; mask = 255 ∷ 255 ∷ 255 ∷ 0 ∷ [] })
    else none

abbrev pub parse_ip : String → Option Ip
parse_ip s =
    if s == "10.0.0.2"
    then some (0 ∷ 0 ∷ 0 ∷ 0 ∷ 0 ∷ 0 ∷ 0 ∷ 0 ∷ 0 ∷ 0 ∷ 255 ∷ 255 ∷ 10 ∷ 0 ∷ 0 ∷ 2 ∷ [])
    else none

abbrev pub net : Parsers
net = record { parse_cidr = parse_cidr; parse_ip = parse_ip }

pub parse_ip_long : (s : String) (a : Ip) → net.parse_ip s ≡ some a → length a ≡ 16
parse_ip_long s a h = ground arith

abbrev pub order : RangeOrder String ℕ
order = record { range = λ m. m; lookup-range = λ k m d. refl; range-Distinct = λ m d. d }

abbrev pub node : String → String → Node
node name ip = record {
  name = name;
  pod_cidr = "100.96.1.0/24";
  addresses = (record { type_of = internal_ip; address = ip }) ∷ [];
  conditions = (record { type_of = network_unavailable; status = condition_true }) ∷ [];
  machine_id = "";
  system_uuid = "";
  boot_id = "";
}

abbrev pub is_a : Node → Bool
is_a n = n.name == "a"

abbrev pub start : NodeMap
start = new_node_map is_a

-- One node, known as the local one.
abbrev pub one : NodeMap
one = run net order start (updates (node "a" "10.0.0.2") ∷ [])

pub one-IsValid : IsValid one
one-IsValid = run-new_node_map-IsValid net order is_a (updates (node "a" "10.0.0.2") ∷ [])

one_me : one.me ≡ some 0
unfolding new_node_map run call update_node find_or_add claim_me bump write lookup insert
one_me = refl

one_entry : lookup "a" one.nodes ≡ some 0
unfolding new_node_map run call update_node find_or_add claim_me bump write lookup insert
one_entry = refl

update_changed_iff_example :
    ((update net (blank "a") (node "a" "10.0.0.2")).1 ≡ true)
    ↔ ((update net (blank "a") (node "a" "10.0.0.2")).0 ≢ blank "a")
update_changed_iff_example = update_changed_iff net (node "a" "10.0.0.2") (blank "a")

update-Reflects_example :
    Reflects net (node "a" "10.0.0.2") (update net (blank "a") (node "a" "10.0.0.2")).0
update-Reflects_example = update-Reflects net (node "a" "10.0.0.2") parse_ip_long (blank "a")

abbrev public_ip : NodeAddress
public_ip = record { type_of = internal_ip; address = "10.0.0.3" }

abbrev private_ip : NodeAddress
private_ip = record { type_of = internal_ip; address = "10.0.0.2" }

abbrev two_homed : Node
two_homed = record (node "a" "") { addresses = public_ip ∷ private_ip ∷ [] }

update-perm_example :
    update net (blank "a") two_homed
    ≡ update net (blank "a") (record two_homed { addresses = private_ip ∷ public_ip ∷ [] })
update-perm_example =
    update-perm net (blank "a") two_homed (private_ip ∷ public_ip ∷ []) ∣ Permᴰ.swap refl refl ∣₁

call-IsValid_example : IsValid (call net order one (replaces (node "b" "10.0.0.2" ∷ [])))
call-IsValid_example = call-IsValid net order one (replaces (node "b" "10.0.0.2" ∷ [])) one-IsValid

view-update_node_example :
    view (update_node net one (node "b" "10.0.0.2")).0 "b"
    ≡ some (update net (known (view one "b") "b") (node "b" "10.0.0.2")).0
view-update_node_example = view-update_node net one (node "b" "10.0.0.2") "b" one-IsValid

view-replace_all_nodes_example :
    view (replace_all_nodes net order one (node "b" "10.0.0.2" ∷ [])).0 "a" ≡ none
unfolding listed
view-replace_all_nodes_example =
    view-replace_all_nodes net order one (node "b" "10.0.0.2" ∷ []) "a" one-IsValid

me_after_removal_example :
    ((run net order (remove_node one "a") (updates (node "a" "") ∷ [])).me ≡ some 0)
    × ((run net order (remove_node one "a") (updates (node "a" "") ∷ [])).cells 0 ≡ one.cells 0)
me_after_removal_example =
    me_after_removal net order one "a" 0 (updates (node "a" "") ∷ []) one-IsValid one_me one_entry
