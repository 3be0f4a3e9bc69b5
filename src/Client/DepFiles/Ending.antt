-- ===== src/Client/DepFiles/Ending.antt =====
-- That the loops of internal/client/dep-files.go end.
use nocc.Client.DepFiles.{
  Result, ok, err, out_of_fuel, colon_expected, panics, ◌>>=◌, DepFile, parse_skip_spaces,
  parse_target_name, add_to_target_name, skip_dep_spaces, read_dep_item, parse_next_dep_item,
  dep_item_at, is_at_end, parse_dep_items, parse_target, parse_targets, parse_dep_file_contents,
}
use nocc.Prelude.{
  ℕ, zero, suc, ◌+◌, ◌<◌, ◌≤◌, Bool, true, false, List, [], ◌∷◌, ◌++◌, Bytes, ◌≡◌, ◌≢◌, subst,
  arith, nat_beq, length, if◌then◌else◌, bytes_beq, length-append, either_branch, ◌||◌, Bool-cases,
  inl, inr,
}

-- What holds of a result. None is out of fuel.
abbrev Yields : {A : Type 0} → (A → Type 0) → Result A → Type 0
Yields P (ok a) = P a
Yields P (err colon_expected) = Unit
Yields P (err panics) = Unit
Yields P (err out_of_fuel) = ⊥

-- The rest is shorter than a text; the rest and what is read are no longer than it.
abbrev Shorter : {A : Type 0} → ℕ → A × Bytes → Type 0
Shorter n (a, rest) = length rest < n

abbrev NoLonger : ℕ → Bytes × Bytes → Type 0
NoLonger n (a, rest) = length rest + length a ≤ n

length-parse_skip_spaces : (s : Bytes) → length (parse_skip_spaces s) ≤ length s
unfolding parse_skip_spaces
length-parse_skip_spaces [] = omega arith
length-parse_skip_spaces (c ∷ s) = ground (arith, length-parse_skip_spaces s)

length-skip_dep_spaces : (b : Bool) (s : Bytes) → length (skip_dep_spaces b s) ≤ length s
unfolding skip_dep_spaces
length-skip_dep_spaces b [] = omega arith
length-skip_dep_spaces true (c ∷ s) = omega (arith, length-skip_dep_spaces false s)
length-skip_dep_spaces false (c ∷ s) = ground (arith, length-skip_dep_spaces (nat_beq c b'\\') s)

Shorter-le :
    {A : Type 0} (m n : ℕ) (r : Result (A × Bytes))
    → m ≤ n
    → Yields (Shorter m) r
    → Yields (Shorter n) r
Shorter-le m n (ok (a, rest)) l h = omega (arith, l, h)
Shorter-le m n (err colon_expected) l h = tt
Shorter-le m n (err panics) l h = tt
Shorter-le m n (err out_of_fuel) l h = h

NoLonger-le :
    (m n : ℕ) (r : Result (Bytes × Bytes)) → m ≤ n → Yields (NoLonger m) r → Yields (NoLonger n) r
NoLonger-le m n (ok (a, rest)) l h = omega (arith, l, h)
NoLonger-le m n (err colon_expected) l h = tt
NoLonger-le m n (err panics) l h = tt
NoLonger-le m n (err out_of_fuel) l h = h

parse_target_name-Yields :
    (name : Bytes) (b : Bool) (s : Bytes) → Yields (Shorter (length s)) (parse_target_name name b s)
unfolding parse_target_name
parse_target_name-Yields name true [] = tt
parse_target_name-Yields name true (c ∷ s) =
    Shorter-le (length s) (suc (length s)) _ (omega arith)
      (parse_target_name-Yields (if nat_beq c b'\n' then name else name ++ (c ∷ [])) false s)
parse_target_name-Yields name false [] = tt
parse_target_name-Yields name false (c ∷ s) =
    either_branch (Yields (Shorter (suc (length s)))) (nat_beq c b':') _ _ (omega arith) (
      either_branch (Yields (Shorter (suc (length s)))) (nat_beq c b'\n') _ _ tt (
        Shorter-le (length s) (suc (length s)) _ (omega arith)
          (parse_target_name-Yields (add_to_target_name name c) (nat_beq c b'\\') s)))

read_dep_item-Yields :
    (name : Bytes) (b : Bool) (s : Bytes)
    → Yields (NoLonger (length name + length s)) (read_dep_item name b s)
unfolding read_dep_item
read_dep_item-Yields name true [] = tt
read_dep_item-Yields name true (c ∷ s) =
    NoLonger-le (length (name ++ (c ∷ [])) + length s) (length name + suc (length s)) _
      (omega (arith, length-append name (c ∷ []))) (read_dep_item-Yields (name ++ (c ∷ [])) false s)
read_dep_item-Yields name false [] = omega arith
read_dep_item-Yields name false (c ∷ s) =
    let longer = if nat_beq c b'\\' then name else name ++ (c ∷ []) in
    either_branch (Yields (NoLonger (length name + suc (length s))))
      (nat_beq c b' ' || nat_beq c b'\n') _ _ (omega arith)
      (NoLonger-le (length longer + length s) (length name + suc (length s)) _
        (ground (arith, length-append name (c ∷ [])))
        (read_dep_item-Yields longer (nat_beq c b'\\') s))

dep_item_at-Yields : (s : Bytes) → Yields (NoLonger (length s)) (dep_item_at s)
dep_item_at-Yields [] = omega arith
dep_item_at-Yields (c ∷ s) =
    either_branch (Yields (NoLonger (suc (length s)))) (nat_beq c b'\n') _ _ (omega arith) (
      NoLonger-le (0 + suc (length s)) (suc (length s)) _ (omega arith)
        (read_dep_item-Yields [] false (c ∷ s)))

parse_next_dep_item-Yields : (s : Bytes) → Yields (NoLonger (length s)) (parse_next_dep_item s)
unfolding parse_next_dep_item
parse_next_dep_item-Yields s =
    NoLonger-le (length (skip_dep_spaces false s)) (length s) _ (length-skip_dep_spaces false s)
      (dep_item_at-Yields (skip_dep_spaces false s))

-- A rule for a chain of two steps.
Yields-bind :
    {A B : Type 0} (P : A → Type 0) (Q : B → Type 0) (r : Result A) (f : A → Result B)
    → Yields P r
    → ((a : A) → P a → Yields Q (f a))
    → Yields Q (r >>= f)
Yields-bind P Q (ok a) f h k = k a h
Yields-bind P Q (err colon_expected) f h k = tt
Yields-bind P Q (err panics) f h k = tt
Yields-bind P Q (err out_of_fuel) f h k = absurd h

not_empty : (b : Bytes) → bytes_beq b [] ≡ false → 0 < length b
not_empty [] h = cc
not_empty (c ∷ b) h = omega arith

parse_dep_items-Yields :
    (fuel : ℕ) (items : List Bytes) (s : Bytes)
    → length s < fuel
    → Yields (Shorter (suc (length s))) (parse_dep_items fuel items s)
unfolding parse_dep_items
parse_dep_items-Yields zero items s l = absurd (omega (arith, l))
parse_dep_items-Yields (suc fuel) items s l =
    Yields-bind (NoLonger (length s)) (Shorter (suc (length s))) (parse_next_dep_item s) _
      (parse_next_dep_item-Yields s)
      (λ a h. elim (Bool-cases (bytes_beq a.0 [])) [
        | inl done ↦ rw done (omega (arith, h))
        | inr more ↦ rw more (
            Shorter-le (suc (length a.1)) (suc (length s)) _ (omega (arith, h)) (
              parse_dep_items-Yields fuel (items ++ (a.0 ∷ [])) a.1
                (omega (arith, h, l, not_empty a.0 more))))
      ])

parse_target-Yields : (s : Bytes) → Yields (Shorter (length s)) (parse_target s)
unfolding parse_target
parse_target-Yields s =
    Yields-bind (Shorter (length s)) (Shorter (length s)) (parse_target_name [] false s) _
      (parse_target_name-Yields [] false s)
      (λ a h.
        Yields-bind (Shorter (suc (length a.1))) (Shorter (length s))
          (parse_dep_items (suc (length a.1)) [] a.1) _
          (parse_dep_items-Yields (suc (length a.1)) [] a.1 (omega arith))
          (λ i k. omega (arith, h, k)))

parse_targets-Yields :
    (fuel : ℕ) (targets : DepFile) (s : Bytes)
    → length s < fuel
    → Yields (λ _. Unit) (parse_targets fuel targets s)
unfolding parse_targets
parse_targets-Yields zero targets s l = absurd (omega (arith, l))
parse_targets-Yields (suc fuel) targets s l =
    let t = parse_skip_spaces s in
    either_branch (Yields (λ _. Unit)) (is_at_end t) _ _ tt (
      Yields-bind (Shorter (length t)) (λ _. Unit) (parse_target t) _ (parse_target-Yields t)
        (λ a h.
          parse_targets-Yields fuel (targets ++ (a.0 ∷ [])) a.1
            (omega (arith, h, l, length-parse_skip_spaces s))))

-- The parsing of any text ends: with targets, with the error that a colon is expected, or with a panic
-- at a backslash that ends the text.
pub parse-ends : (s : Bytes) → parse_dep_file_contents s ≢ err out_of_fuel
unfolding parse_dep_file_contents
parse-ends s e =
    subst (Yields (λ _. Unit)) e (parse_targets-Yields (suc (length s)) [] s (omega arith))
