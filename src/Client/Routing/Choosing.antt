-- ===== src/Client/Routing/Choosing.antt =====
-- Which server internal/client/daemon.go chooses.
use nocc.Prelude.{
  ℕ, zero, suc, ◌+◌, ◌%◌, ◌<◌, Bool, true, false, Option, none, some, List, Bytes, ◌≡◌, inl, inr,
  refl, arith, Bool-cases, nat_beq, nat_beq_iff, length, subst,
}
use nocc.Client.Routing.{
  RemoteConnection, can_at, walk_forward, start_index, choose_remote_connection_for_cpp_compilation,
}

-- The index chosen, if any, by the first offset at which a remote can take the file.
abbrev pub IsFirst : (ℕ → Bool) → ℕ → Option ℕ → ℕ → ℕ → Type 0
IsFirst can n none first bound = (k : ℕ) → k < bound → can ((first + k) % n) ≡ false
IsFirst can n (some i) first bound =
    (k : ℕ) × (k < bound)
    × (i ≡ (first + k) % n)
    × (can i ≡ true)
    × ((j : ℕ) → j < k → can ((first + j) % n) ≡ false)

module _ (rs : List RemoteConnection) (cxx_name : Bytes) (coverage : Bool) (first : ℕ) where
  walk_forward-IsFirst :
      (offset left : ℕ)
      → ((k : ℕ) → k < offset → can_at rs cxx_name coverage ((first + k) % length rs) ≡ false)
      → IsFirst
          (can_at rs cxx_name coverage)
          (length rs)
          (walk_forward rs cxx_name coverage first offset left)
          first
          (offset + left)
  unfolding walk_forward
  walk_forward-IsFirst offset zero before = λ k l. before k (omega (arith, l))
  walk_forward-IsFirst offset (suc left) before =
      elim (Bool-cases (can_at rs cxx_name coverage ((first + offset) % length rs))) [
        | inl can ↦ rw can (offset, omega arith, refl, can, before)
        | inr cannot ↦ rw cannot (
            subst
              (λ b.
                IsFirst (can_at rs cxx_name coverage) (length rs)
                  (walk_forward rs cxx_name coverage first (offset + 1) left) first b)
              (omega arith)
              (walk_forward-IsFirst (offset + 1) left (λ k l. elim (Bool-cases (nat_beq offset k)) [
                | inl same ↦
                    subst (λ j. can_at rs cxx_name coverage ((first + j) % length rs) ≡ false)
                      ((nat_beq_iff offset k).0 same) cannot
                | inr other ↦ let below : k < offset = ground arith in before k below
              ])))
      ]

-- The server chosen for a .cpp is the first one that can compile it with this compiler, by steps
-- forward from the one that the name's hash gives, and around the list once; where none is chosen, no
-- step of that round finds one that can.
pub choose_remote-IsFirst :
    (rs : List RemoteConnection) (cpp_in_file cxx_name : Bytes) (coverage : Bool)
    → IsFirst
        (can_at rs cxx_name coverage)
        (length rs)
        (choose_remote_connection_for_cpp_compilation rs cpp_in_file cxx_name coverage)
        (start_index cpp_in_file (length rs))
        (length rs)
unfolding choose_remote_connection_for_cpp_compilation
choose_remote-IsFirst rs cpp_in_file cxx_name coverage =
    subst
      (λ b.
        IsFirst (can_at rs cxx_name coverage) (length rs)
          (choose_remote_connection_for_cpp_compilation rs cpp_in_file cxx_name coverage)
          (start_index cpp_in_file (length rs)) b)
      (let e : 0 + length rs ≡ length rs = omega arith in e)
      (walk_forward-IsFirst rs cxx_name coverage (start_index cpp_in_file (length rs)) 0 (length rs)
        (λ k l. absurd (omega (arith, l))))
