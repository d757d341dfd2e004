-- ===== src/Vxlan/Tests/Made.antt =====
-- The theorem about `EnsureLink` of vxlan2, on a kernel whose world is a table of links and the
-- addresses of the device.
use networking.Prelude.{
  ℕ, true, false, Option, none, some, List, [], String, Result, ok, err, errorf, string_eq, ◌≡◌,
  arith, refl, ap, ◌∙◌,
}
use networking.Net.{to4, byte_at, is_link_local_unicast, bytes_equal}
use networking.Netlink.{Addr, Link, LinkCalls, AddrCalls, found, not_found}
use networking.Netutil.Kernel.{Adds, Dels}
use networking.Netutil.Addresses.Ensure.{key, Lists}
use networking.Netutil.Addresses.{addr_equal}
use networking.Netutil.Links.Compare.{name_of}
use networking.Netutil.Tests.Kernel.{table, set, add-Adds, del-Dels, set-Sets}
use networking.Netutil.Tests.Links.{links_table, table-named, raised}
use networking.Netutil.Tests.Addresses as Addresses
use networking.Vxlan.{map_to_mac}
use networking.Vxlan.Link.{Environment, link_name, wanted_link}
use networking.Vxlan.Current.{ensure_link}
use networking.Vxlan.Device.{Made, with_mac, with_mtu, DeviceLaws, AddrsApart}
use networking.Vxlan.Device.Ensure.{address_for, text_for, Ready, ensure_link-Ready}
use networking.Vxlan.Tests.Devices.{environment, order, network, provider, address}

abbrev pub World : Type 0
World = List Link × List Addr

-- What is done to a link that is there.
abbrev changed : (Link → Link) → Link → World → Result {0} Unit × World
changed f l w = elim (links_table w.0 l.attrs.name) [
  | none ↦ (err (errorf "no such device"), w)
  | some x ↦ (ok tt, ((set name_of (f x) w.0).1, w.1))
]

abbrev pub links : LinkCalls World
links = record {
  link_list = λ w. (ok w.0, w);
  link_by_name = λ name w. elim (links_table w.0 name) [
    | none ↦ (not_found (errorf "Link not found"), w)
    | some x ↦ (found (some x), w)
  ];
  link_add = λ l w. (ok l, ((set name_of l w.0).1, w.1));
  link_del = λ l w. (ok tt, w);
  link_set_up = changed raised;
  link_set_hardware_addr = λ l mac. changed (with_mac mac) l;
  link_set_mtu = λ l mtu. changed (with_mtu mtu) l;
}

abbrev pub addrs : AddrCalls World
addrs = record {
  addr_list = λ l w. (ok w.1, w);
  addr_add = λ l a w. let (r, as') = Addresses.calls.addr_add l a w.1 in (r, (w.0, as'));
  addr_del = λ l a w. let (r, as') = Addresses.calls.addr_del l a w.1 in (r, (w.0, as'));
}

abbrev pub name : String
name = link_name provider

abbrev pub device : World → Option Link
device w = links_table w.0 name

abbrev pub addr_table : World → String → Option Addr
addr_table w = table (key Addresses.text) w.1

abbrev or_empty : Option String → String
or_empty none = ""
or_empty (some s) = s

-- A change of the link that keeps its name.
changed_lem :
    (f : Link → Link) (w : World) (l x : Link)
    → l.attrs.name ≡ name
    → name_of (f x) ≡ name_of x
    → device w ≡ some x
    → (w' : World) × (changed f l w ≡ (ok tt, w'))
      × (device w' ≡ some (f x))
      × ((k : String) → Addresses.local k ≡ false → addr_table w' k ≡ addr_table w k)
changed_lem f w l x known keeps there =
    let named = table-named w.0 name x there in
    let (ls, run, t) = (set-Sets name_of).sets w.0 (f x) name (keeps ∙ named) in
    (
      (ls, w.1),
      rw (ap (links_table w.0) known ∙ there, changed)
          (ap (λ (r : Result {0} Unit × List Link). (ok tt, (r.1, w.1))) run),
      t name ∙ ground (arith, string_eq.same_iff name name),
      λ k h. refl,
    )

pub laws : DeviceLaws device addr_table Addresses.local links name
laws = record {
  named = λ w x h. ap (λ (o : Option String). or_empty o) (table-named w.0 name x h);
  looked_up = λ w x h. ground (arith, h);
  absent = λ w h. (errorf "Link not found", ground (arith, h));
  added = λ w l known free.
      let (ls, run, t) = (set-Sets name_of).sets w.0 l name (ap some known) in
      (
        l,
        l,
        (ls, w.1),
        ap (λ (r : Result {0} Unit × List Link). (ok l, (r.1, w.1))) run,
        t name ∙ ground (arith, string_eq.same_iff name name),
        refl,
        λ k h. refl,
      );
  address_set = λ w l x mac known h. changed_lem (with_mac mac) w l x known refl h;
  mtu_set = λ w l x mtu known h. changed_lem (with_mtu mtu) w l x known refl h;
  brought_up = λ w l x known h.
      let (w', run, now, same) = changed_lem raised w l x known refl h in
      (raised x, w', run, now, refl, refl, refl, refl, same);
}

pub apart : AddrsApart device addr_table Addresses.local addrs
apart = record { listed = λ l w. refl; added = λ l a w. refl; deleted = λ l a w. refl }

pub listing : (l : Link) → Lists Addresses.text addr_table Addresses.local addrs l
listing l = record {
  lists = λ w.
      let (as', run, read) = (Addresses.listing l).lists w.1 in
      (as', ap (λ (r : Result (List Addr) × List Addr). (r.0, (w.0, r.1))) run, read);
}

pub adding : (l : Link) → Adds addr_table (key Addresses.text) (addrs.addr_add l)
adding l = record {
  adds = λ w v k h f.
      let (as', run, t) = (add-Adds (key Addresses.text)).adds w.1 v k h f in
      ((w.0, as'), ap (λ (r : Result {0} Unit × List Addr). (r.0, (w.0, r.1))) run, t);
}

pub deleting : (l : Link) → Dels addr_table (key Addresses.text) (addrs.addr_del l)
deleting l = record {
  dels = λ w v a k h f.
      let (as', run, t) = (del-Dels (key Addresses.text)).dels w.1 v a k h f in
      ((w.0, as'), ap (λ (r : Result {0} Unit × List Addr). (r.0, (w.0, r.1))) run, t);
}

abbrev pub kernel : Environment World
kernel = record {
  routes = record {
    route_list = λ l w. (ok [], w);
    route_add = λ r w. (ok tt, w);
    route_del = λ r w. (ok tt, w);
  };
  neighs = record { neigh_list = λ i w. (ok [], w); neigh_set = λ n w. (ok tt, w) };
  addrs = addrs;
  links = links;
  constants = environment.constants;
  net_text = Addresses.text;
  ip_text = environment.ip_text;
  range_routes = order;
  range_neighs = order;
  range_addrs = order;
  range_nodes = order;
  vxlan_type = "vxlan";
}

pub mac_of : (mac : List ℕ) × (map_to_mac network.ip ≡ ok mac)
unfolding map_to_mac to4 byte_at
mac_of = (_, refl)

pub near : Addresses.local (text_for kernel device addr_table Addresses.local network) ≡ false
unfolding is_link_local_unicast bytes_equal to4 byte_at
near = refl

pub none_held :
    (a : Addr)
    → addr_table ([], []) (text_for kernel device addr_table Addresses.local network) ≡ some a
    → addr_equal a (address_for kernel device addr_table Addresses.local provider network) ≡ true
unfolding table
none_held a h = absurd (ground (arith, h))

ensure_link-Ready_example :
    (l : Link) × (w' : World) × (ensure_link kernel provider address network ([], []) ≡ (ok l, w'))
    × (l.attrs.name ≡ link_name provider)
    × Made (device ([], [])) (wanted_link "vxlan" provider address mac_of.0) l
    × Ready kernel device addr_table Addresses.local provider address network mac_of.0 ([], []) w'
ensure_link-Ready_example =
    ensure_link-Ready kernel device addr_table Addresses.local provider laws apart
      (λ l named. listing l) (λ l named. adding l) (λ l named. deleting l) address network mac_of.0
      ([], []) mac_of.1 near (λ a h. none_held a h)
