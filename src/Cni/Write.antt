-- ===== src/Cni/Write.antt =====
-- What `WriteCNIConfig` of pkg/cni/simpleconfigwriter.go leaves on a disk, and in which cases it
-- writes at all.
use networking.Prelude.{
  Option, none, some, String, ok, if◌then◌else◌, ◌==◌, string_eq, ◌≡◌, ◌≢◌, arith, refl,
  Option-cases, Bool-cases, inl, inr,
}
use networking.Net.{IpNet}
use networking.Cni.{contents, missing, FileCalls, expected_config, bring_config, write_cni_config}

-- Files that can be read and written: `file` is what the world holds under a path.
pub record Disk {W : Type 0} (files : FileCalls W) (file : W → String → Option String)
    : Type 0 where
  pub read_some : (p s : String) (w : W) → file w p ≡ some s → files.read_file p w ≡ (contents s, w)
  pub read_none : (p : String) (w : W) → file w p ≡ none → files.read_file p w ≡ (missing, w)
  pub store : String → String → W → W
  pub written : (p s : String) (w : W) → files.write_file p s w ≡ (ok tt, store p s w)
  pub file-store :
      (p q s : String) (w : W) → file (store p s w) q ≡ (if p == q then some s else file w q)

module _ {W : Type 0} (files : FileCalls W) (path : String)
    (file : W → String → Option String) where
  -- The text under the path, where a missing file counts as an empty one.
  unfoldable pub held : W → String
  held w = elim (file w path) [ none ↦ "" | some t ↦ t ]

  bring_config_lem :
      (d : Disk files file) (existing expected : String) (w : W)
      → bring_config files path existing expected w
        ≡ (ok tt, if existing == expected then w else d.store path expected w)
  unfolding bring_config
  bring_config_lem d existing expected w = elim (Bool-cases (existing == expected)) [
    | inl e ↦ rw e refl
    | inr e ↦ rw (e, d.written path expected w) refl
  ]

  pub held-file : (w w' : W) → file w' path ≡ file w path → held w' ≡ held w
  unfolding held
  held-file w w' h = rw (held, h) refl

  held-store : (d : Disk files file) (s : String) (w : W) → held (d.store path s w) ≡ s
  unfolding held
  held-store d s w = ground (arith, d.file-store path path s w, string_eq.same_iff path path)

  module _ (net_text : IpNet → String) (replace_all : String → String → String → String) where
    pub write_cni_config_eq :
        (d : Disk files file) (pod_cidr : Option IpNet) (w : W)
        → let e = expected_config net_text replace_all pod_cidr in
          write_cni_config net_text replace_all files path pod_cidr w
          ≡ (ok tt, if held w == e then w else d.store path e w)
    unfolding write_cni_config held
    write_cni_config_eq d pod_cidr w =
        let e = expected_config net_text replace_all pod_cidr in
        elim (Option-cases (file w path)) [
          | inl h ↦ ground (arith, d.read_none path w h, bring_config_lem d "" e w)
          | inr (s, h) ↦ ground (arith, d.read_some path s w h, bring_config_lem d s e w)
        ]

    -- On files that can be read and written, `WriteCNIConfig` succeeds, and then its file has the
    -- text that the network asks for (or is missing, if that text is empty); no other file is
    -- changed, and a file that has the text already is not written.
    pub write_cni_config_lem :
        Disk files file
        → (pod_cidr : Option IpNet) (w : W)
        → let r = write_cni_config net_text replace_all files path pod_cidr w in
          (r.0 ≡ ok tt)
          × (held r.1 ≡ expected_config net_text replace_all pod_cidr)
          × ((q : String) → path ≢ q → file r.1 q ≡ file w q)
          × (held w ≡ expected_config net_text replace_all pod_cidr → r.1 ≡ w)
    write_cni_config_lem d pod_cidr w =
        let e = expected_config net_text replace_all pod_cidr in
        rw (write_cni_config_eq d pod_cidr w) (elim (Bool-cases (held w == e)) [
          | inl same ↦ rw same (refl, (string_eq.same_iff _ _).0 same, (λ q n. refl), (λ h. refl))
          | inr differs ↦ rw differs (
            refl,
            held-store d e w,
            (λ q n. ground (arith, d.file-store path q e w, string_eq.same_iff path q)),
            (λ h. absurd (ground (arith, string_eq.same_iff (held w) e, h, differs))),
          )
        ])
