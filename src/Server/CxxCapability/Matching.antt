-- ===== src/Server/CxxCapability/Matching.antt =====
-- Which clients internal/server/cxx-capability.go accepts, from its memory or by a probe.
use nocc.Prelude.Dict.{get, get-put}
use nocc.Prelude.{
  true, none, some, [], Bytes, Bool-cases, ◌≡◌, ◌⊎◌, ◌↔◌, arith, Option-cases, inl, inr,
  bytes_beq_iff, bytes_comparable,
}
use nocc.Server.CxxCapability.{
  CxxCapability, CoverageCapability, CxxCapabilityCache, Compilers, detect_cxx_capability,
  detect_coverage_capability, detect, target_mismatch, check_compiler_matches_client,
  version_mismatch, check_coverage_matches_client,
}

-- What is remembered is what the machine answers.
pub record Agrees (m : Compilers) (c : CxxCapabilityCache) : Type 0 where
  pub target :
      (name : Bytes) (k : CxxCapability)
      → get name c.by_name ≡ some k
      → k ≡ detect_cxx_capability m name
  pub coverage :
      (name : Bytes) (k : CoverageCapability)
      → get name c.coverage_by_name ≡ some k
      → k ≡ detect_coverage_capability m name

-- The clients whose objects the compiler makes: it is there, and where both sides know their target,
-- it is the same.
pub record IsTarget (m : Compilers) (name : Bytes) (triplet : Bytes) : Type 0 where
  pub there : m.look_path name ≡ true
  pub same_target :
      (triplet ≡ [])
      ⊎ ((m.dump_machine name ≡ none)
          ⊎ ((m.dump_machine name ≡ some []) ⊎ (m.dump_machine name ≡ some triplet)))

same_target-cases :
    (triplet : Bytes) (out : Bytes)
    → (target_mismatch (record { target_triplet = out; err = none }) triplet ≡ none)
      ↔ ((triplet ≡ []) ⊎ ((out ≡ []) ⊎ (out ≡ triplet)))
unfolding target_mismatch
same_target-cases triplet out =
    ground (arith, bytes_beq_iff triplet [], bytes_beq_iff out [], bytes_beq_iff out triplet)

target_mismatch-IsTarget :
    (m : Compilers) (name triplet : Bytes)
    → (target_mismatch (detect_cxx_capability m name) triplet ≡ none) ↔ IsTarget m name triplet
unfolding target_mismatch detect_cxx_capability
target_mismatch-IsTarget m name triplet = elim (Bool-cases (m.look_path name)) [
  | inl there ↦ elim (Option-cases (m.dump_machine name)) [
    | inl silent ↦ (
      λ e. record { there = there; same_target = inr (inl silent) },
      λ h. rw (there, silent) (ground (arith, bytes_beq_iff [] [])),
    )
    | inr (out, said) ↦
        let cases = same_target-cases triplet out in
        (
          λ e. record {
            there = there;
            same_target = ground (arith, cases.0, rw (there, said, detect_cxx_capability) at e);
          },
          λ h. rw (there, said, detect_cxx_capability) (cases.1 (ground (arith, h.same_target))),
        )
  ]
  | inr missing ↦ (λ e. ground (arith), λ h. cc (h.there))
]

version_mismatch-none :
    (m : Compilers) (name version : Bytes)
    → (version_mismatch (detect_coverage_capability m name) version ≡ none) ↔ (
        (m.look_path name ≡ true)
        × ((m.dump_full_version name ≡ some version) × (m.probe_coverage name ≡ none)))
unfolding version_mismatch detect_coverage_capability
version_mismatch-none m name version = elim (Option-cases (m.dump_full_version name)) [
  | inl silent ↦ ground arith
  | inr (out, said) ↦ ground (arith, bytes_beq_iff version out)
]

-- The compiler check accepts a client exactly when the server has a compiler of that name, and either
-- the client or the compiler names no target or both name the same one. It answers this from its
-- memory and by a probe alike, on a machine whose compilers do not change, and what it remembers
-- stays true.
pub check_compiler_matches_client-Agrees :
    (m : Compilers) (c : CxxCapabilityCache) (name triplet : Bytes)
    → Agrees m c
    → (((check_compiler_matches_client m c name triplet).1 ≡ none) ↔ IsTarget m name triplet)
      × Agrees m (check_compiler_matches_client m c name triplet).0
unfolding check_compiler_matches_client detect
check_compiler_matches_client-Agrees m c name triplet a = elim (Option-cases (get name c.by_name)) [
  | inr (k, found) ↦
      rw (found, check_compiler_matches_client, detect)
        (rw (a.target name k found) (target_mismatch-IsTarget m name triplet), a)
  | inl new ↦
      rw (new, check_compiler_matches_client, detect)
        (
          target_mismatch-IsTarget m name triplet,
          record {
            target = λ n k e. ground (
              arith,
              get-put name n (detect_cxx_capability m name) c.by_name,
              bytes_beq_iff name n,
              a.target n k,
            );
            coverage = a.coverage;
          },
        )
]

-- The coverage check accepts a client exactly when the server's compiler of that name tells its
-- version, passes the coverage probe, and has the client's version. Memory and probe agree, on a
-- machine whose compilers do not change, and what is remembered stays true.
pub check_coverage_matches_client-Agrees :
    (m : Compilers) (c : CxxCapabilityCache) (name version : Bytes)
    → Agrees m c
    → (((check_coverage_matches_client m c name version).1 ≡ none) ↔ (
        (m.look_path name ≡ true)
        × ((m.dump_full_version name ≡ some version) × (m.probe_coverage name ≡ none))))
      × Agrees m (check_coverage_matches_client m c name version).0
unfolding check_coverage_matches_client
check_coverage_matches_client-Agrees m c name version a =
    elim (Option-cases (get name c.coverage_by_name)) [
      | inr (k, found) ↦
          rw (found, check_coverage_matches_client)
            (rw (a.coverage name k found) (version_mismatch-none m name version), a)
      | inl new ↦
          rw (new, check_coverage_matches_client)
            (
              version_mismatch-none m name version,
              record {
                target = a.target;
                coverage = λ n k e. ground (
                  arith,
                  get-put name n (detect_coverage_capability m name) c.coverage_by_name,
                  bytes_beq_iff name n,
                  a.coverage n k,
                );
              },
            )
    ]
