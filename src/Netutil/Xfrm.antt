-- ===== src/Netutil/Xfrm.antt =====
-- pkg/routing/netutil/xfrm_policy_table.go and xfrm_state_table.go: the comparisons.
pub mod Policies
pub mod States
pub mod Equality
use networking.Prelude.{
  ℕ, Bool, true, false, not, ◌&&◌, Option, none, some, List, [], ◌∷◌, if◌then◌else◌, is_some, ◌==◌,
  nat_eq, string_eq, length,
}
use networking.Net.{ipnet_equal, bytes_equal, equal_nilable}
use networking.Netlink.{
  XfrmMark, XfrmPolicyTmpl, XfrmPolicy, XfrmStateAlgo, XfrmStateEncap, XfrmStateLimits, XfrmState,
}

unfoldable pub xfrm_mark_equal : Option XfrmMark → Option XfrmMark → Bool
xfrm_mark_equal none r = not (is_some r)
xfrm_mark_equal (some l) none = false
xfrm_mark_equal (some l) (some r) = l.mask == r.mask && l.value == r.value

-- The code takes the addresses of two elements, which are never nil.
unfoldable pub xfrm_policy_tmpl_equal : XfrmPolicyTmpl → XfrmPolicyTmpl → Bool
xfrm_policy_tmpl_equal l r =
    if not (l.proto == r.proto)
    then false
    else if not (l.mode == r.mode)
    then false
    else if not (l.spi == r.spi)
    then false
    else if not (l.reqid == r.reqid)
    then false
    else if not (equal_nilable l.dst r.dst)
    then false
    else if not (equal_nilable l.src r.src)
    then false
    else true

-- `for i := range l.Tmpls`, after the test that the lengths agree.
unfoldable pub tmpls_equal : List XfrmPolicyTmpl → List XfrmPolicyTmpl → Bool
tmpls_equal [] rs = true
tmpls_equal (l ∷ ls) [] = true
tmpls_equal (l ∷ ls) (r ∷ rs) =
    let rest = tmpls_equal ls rs in if not (xfrm_policy_tmpl_equal l r) then false else rest

unfoldable pub xfrm_policy_equal : XfrmPolicy → XfrmPolicy → Bool
xfrm_policy_equal l r =
    if not (l.dir == r.dir)
    then false
    else if not (l.priority == r.priority)
    then false
    else if not (l.index == r.index)
    then false
    else if not (l.src_port == r.src_port)
    then false
    else if not (l.dst_port == r.dst_port)
    then false
    else if not (l.proto == r.proto)
    then false
    else if not (ipnet_equal l.dst r.dst)
    then false
    else if not (ipnet_equal l.src r.src)
    then false
    else if not (xfrm_mark_equal l.mark r.mark)
    then false
    else if not (length l.tmpls == length r.tmpls)
    then false
    else tmpls_equal l.tmpls r.tmpls

unfoldable pub xfrm_policy_matches : XfrmPolicy → XfrmPolicy → Bool
xfrm_policy_matches a e =
    if not (a.dir == e.dir)
    then false
    else if not (a.src_port == e.src_port)
    then false
    else if not (a.dst_port == e.dst_port)
    then false
    else if not (a.proto == e.proto)
    then false
    else if not (ipnet_equal a.dst e.dst)
    then false
    else if not (ipnet_equal a.src e.src)
    then false
    else true

unfoldable pub xfrm_state_algo_equal : Option XfrmStateAlgo → Option XfrmStateAlgo → Bool
xfrm_state_algo_equal none r = not (is_some r)
xfrm_state_algo_equal (some l) none = false
xfrm_state_algo_equal (some l) (some r) =
    if not (l.truncate_len == r.truncate_len)
    then false
    else if not (l.icv_len == r.icv_len)
    then false
    else if not (l.name == r.name)
    then false
    else if not (bytes_equal l.key r.key)
    then false
    else true

unfoldable pub xfrm_state_encap_equal : Option XfrmStateEncap → Option XfrmStateEncap → Bool
xfrm_state_encap_equal none r = not (is_some r)
xfrm_state_encap_equal (some l) none = false
xfrm_state_encap_equal (some l) (some r) =
    if not (l.type_of == r.type_of)
    then false
    else if not (l.src_port == r.src_port)
    then false
    else if not (l.dst_port == r.dst_port)
    then false
    else equal_nilable l.original_address r.original_address

-- `==` of two structs.
unfoldable pub limits_equal : XfrmStateLimits → XfrmStateLimits → Bool
limits_equal l r =
    l.byte_soft == r.byte_soft
    && l.byte_hard == r.byte_hard
    && l.packet_soft == r.packet_soft
    && l.packet_hard == r.packet_hard
    && l.time_soft == r.time_soft
    && l.time_hard == r.time_hard
    && l.time_use_soft == r.time_use_soft
    && l.time_use_hard == r.time_use_hard

unfoldable pub xfrm_state_equal : XfrmState → XfrmState → Bool
xfrm_state_equal l r =
    if not (l.proto == r.proto)
    then false
    else if not (l.mode == r.mode)
    then false
    else if not (l.spi == r.spi)
    then false
    else if not (l.reqid == r.reqid)
    then false
    else if not (l.replay_window == r.replay_window)
    then false
    else if not (equal_nilable l.dst r.dst)
    then false
    else if not (equal_nilable l.src r.src)
    then false
    else if not (limits_equal l.limits r.limits)
    then false
    else if not (xfrm_mark_equal l.mark r.mark)
    then false
    else if not (xfrm_state_algo_equal l.auth r.auth)
    then false
    else if not (xfrm_state_algo_equal l.crypt r.crypt)
    then false
    else if not (xfrm_state_algo_equal l.aead r.aead)
    then false
    else if not (xfrm_state_encap_equal l.encap r.encap)
    then false
    else true
