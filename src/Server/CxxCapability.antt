-- ===== src/Server/CxxCapability.antt =====
-- internal/server/cxx-capability.go: what each compiler's name means on the server.
pub mod Matching
use nocc.Prelude.Dict.{Dict, get, put}
use nocc.Prelude.{
  Bool, true, false, ◌&&◌, not, Option, none, some, List, [], ◌∷◌, Bytes, bytes_beq,
  bytes_comparable, if◌then◌else◌,
}

-- The errors, by where the source makes them.
pub data CxxError : Type 0 where
  not_installed : CxxError
  probe_failed : CxxError

pub record CxxCapability : Type 0 where
  pub target_triplet : Bytes
  pub err : Option CxxError

pub record CoverageCapability : Type 0 where
  pub cxx_version : Bytes
  pub err : Option CxxError

pub record CxxCapabilityCache : Type 0 where
  pub by_name : Dict Bytes CxxCapability
  pub coverage_by_name : Dict Bytes CoverageCapability

unfoldable pub make_cxx_capability_cache : CxxCapabilityCache
make_cxx_capability_cache = record { by_name = []; coverage_by_name = [] }

-- What the compilers on the machine answer: `exec.LookPath`, `-dumpmachine` and
-- `-dumpfullversion`, trimmed, with `none` for an error, and `probeCoverage`.
pub record Compilers : Type 0 where
  pub look_path : Bytes → Bool
  pub dump_machine : Bytes → Option Bytes
  pub dump_full_version : Bytes → Option Bytes
  pub probe_coverage : Bytes → Option CxxError

abbrev unchecked : CxxCapability
unchecked = record { target_triplet = []; err = none }

unfoldable pub detect_cxx_capability : Compilers → Bytes → CxxCapability
detect_cxx_capability m name =
    if m.look_path name
    then elim (m.dump_machine name) [
      | none ↦ unchecked
      | some out ↦ record { target_triplet = out; err = none }
    ]
    else record { target_triplet = []; err = some not_installed }

unfoldable pub detect_coverage_capability : Compilers → Bytes → CoverageCapability
detect_coverage_capability m name =
    if m.look_path name
    then elim (m.dump_full_version name) [
      | none ↦ record { cxx_version = []; err = some probe_failed }
      | some out ↦ record { cxx_version = out; err = m.probe_coverage name }
    ]
    else record { cxx_version = []; err = some not_installed }

unfoldable pub detect : Compilers → CxxCapabilityCache → Bytes → CxxCapabilityCache × CxxCapability
unfolding detect_cxx_capability
detect m c name = elim (get name c.by_name) [
  | some capability ↦ (c, capability)
  | none ↦
      let capability = detect_cxx_capability m name in
      (record c { by_name = put name capability c.by_name }, capability)
]

-- `none` stands for `nil`: no error.
pub data Mismatch : Type 0 where
  broken : CxxError → Mismatch
  other_target : Bytes → Mismatch
  other_version : Bytes → Mismatch

unfoldable pub target_mismatch : CxxCapability → Bytes → Option Mismatch
target_mismatch capability client_triplet = elim capability.err [
  | some e ↦ some (broken e)
  | none ↦
      if not (bytes_beq client_triplet [])
        && (not (bytes_beq capability.target_triplet [])
            && not (bytes_beq capability.target_triplet client_triplet))
      then some (other_target capability.target_triplet)
      else none
]

unfoldable pub check_compiler_matches_client :
    Compilers → CxxCapabilityCache → Bytes → Bytes → CxxCapabilityCache × Option Mismatch
unfolding detect target_mismatch
check_compiler_matches_client m c name client_triplet =
    let r = detect m c name in (r.0, target_mismatch r.1 client_triplet)

unfoldable pub version_mismatch : CoverageCapability → Bytes → Option Mismatch
version_mismatch capability client_version = elim capability.err [
  | some e ↦ some (broken e)
  | none ↦
      if bytes_beq client_version capability.cxx_version
      then none
      else some (other_version capability.cxx_version)
]

unfoldable pub check_coverage_matches_client :
    Compilers → CxxCapabilityCache → Bytes → Bytes → CxxCapabilityCache × Option Mismatch
unfolding detect_coverage_capability version_mismatch
check_coverage_matches_client m c name client_version = elim (get name c.coverage_by_name) [
  | some capability ↦ (c, version_mismatch capability client_version)
  | none ↦
      let capability = detect_coverage_capability m name in
      (
        record c { coverage_by_name = put name capability c.coverage_by_name },
        version_mismatch capability client_version,
      )
]
