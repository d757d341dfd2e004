-- ===== src/Cni.antt =====
-- `SimpleConfigWriter` of pkg/cni/simpleconfigwriter.go. `ioutil.ReadFile`, with `os.IsNotExist` of
-- its error, `ioutil.WriteFile`, `strings.ReplaceAll` and the text of a network come from Go's
-- library.
pub mod Write
pub mod Tests
use networking.Prelude.{
  Bool, Option, none, some, String, Exec, Result, ok, err, fatal, Error, wrap, context, pure,
  if◌then◌else◌, ◌==◌, string_eq,
}
use networking.Net.{IpNet}

-- What reading a file gives.
pub data FileRead : Type 0 where
  contents : String → FileRead
  missing : FileRead
  unreadable : Error → FileRead

pub record FileCalls (W : Type 0) : Type 0 where
  pub read_file : String → W → FileRead × W
  pub write_file : String → String → Exec W Unit

-- `cniConfig`
unfoldable pub cni_config : String
cni_config =
    "\n{\n  \"cniVersion\":      \"0.3.1\",\n  \"name\":            \"k8s-pod-network\",\n  \"type\":            \"bridge\",\n  \"bridge\":          \"kopeio\",\n  \"isDefaultGateway\": true,\n  \"ipMasq\": true,\n  \"ipam\": {\n    \"type\":   \"host-local\",\n    \"name\":   \"kopeio\",\n    \"subnet\": \"{{PodCIDR}}\"\n  }\n}\n"

module _ (net_text : IpNet → String) (replace_all : String → String → String → String) where
  unfoldable pub pod_cidr_string : Option IpNet → String
  pod_cidr_string none = ""
  pod_cidr_string (some n) = net_text n

  -- `expected`
  unfoldable pub expected_config : Option IpNet → String
  expected_config pod_cidr = replace_all cni_config "{{PodCIDR}}" (pod_cidr_string pod_cidr)

-- What follows the read: `existing` against `expected`.
unfoldable pub bring_config : {W : Type 0} → FileCalls W → String → String → String → Exec W Unit
bring_config files path existing expected =
    if existing == expected
    then pure tt
    else context "error writing cni config" (files.write_file path expected)

module _ {W : Type 0} (net_text : IpNet → String) (replace_all : String → String → String → String)
    (files : FileCalls W) (path : String) where
  -- `WriteCNIConfig`. A missing file reads as no bytes.
  unfoldable pub write_cni_config : Option IpNet → Exec W Unit
  write_cni_config pod_cidr w =
      let (answer, w') = files.read_file path w in
      let expected = expected_config net_text replace_all pod_cidr in
      elim answer [
        | unreadable x ↦ (err (wrap "error reading cni config" x), w')
        | missing ↦ bring_config files path "" expected w'
        | contents existing ↦ bring_config files path existing expected w'
      ]
