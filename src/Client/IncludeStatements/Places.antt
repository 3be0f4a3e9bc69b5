-- ===== src/Client/IncludeStatements/Places.antt =====
-- Places in a file of internal/client/own-includes-parser.go, by what stands behind them.
use nocc.Client.IncludeStatements.Indices.{From, str_chr-Within}
use nocc.Client.IncludeStatements.{index_from, str_chr, renew}
use nocc.Prelude.{
  ℕ, zero, suc, ◌+◌, ◌<◌, ◌≤◌, true, false, Option, none, some, [], ◌∷◌, ◌++◌, Bytes, nat_beq, ltb,
  length, take, drop, get_elem?, ◌≡◌, ◌⊎◌, inl, inr, refl, sym, ◌∙◌, subst, ap, arith, Bool-cases,
  Option-cases,
}

pub next_drop : (o x : ℕ) (s t : Bytes) → drop o s ≡ x ∷ t → drop (suc o) s ≡ t
next_drop zero x [] t e = ground arith
next_drop zero x (y ∷ s) t e = ground arith
next_drop (suc o) x [] t e = ground arith
next_drop (suc o) x (y ∷ s) t e = next_drop o x s t e

pub drop-inside : (o x : ℕ) (s t : Bytes) → drop o s ≡ x ∷ t → o < length s
drop-inside zero x [] t e = ground arith
drop-inside zero x (y ∷ s) t e = omega arith
drop-inside (suc o) x [] t e = ground arith
drop-inside (suc o) x (y ∷ s) t e = omega (arith, drop-inside o x s t e)

pub drop-append :
    (o x : ℕ) (s t rest : Bytes) → drop o s ≡ x ∷ t → drop o (s ++ rest) ≡ x ∷ (t ++ rest)
drop-append zero x [] t rest e = ground arith
drop-append zero x (y ∷ s) t rest e = ap (λ l. l ++ rest) e
drop-append (suc o) x [] t rest e = ground arith
drop-append (suc o) x (y ∷ s) t rest e = drop-append o x s t rest e

pub drop-before : (o : ℕ) (s rest : Bytes) → o ≤ length s → drop o (s ++ rest) ≡ drop o s ++ rest
drop-before zero s rest h = refl
drop-before (suc o) [] rest h = absurd (omega (arith, h))
drop-before (suc o) (x ∷ s) rest h = drop-before o s rest (omega (arith, h))

pub get_elem-at : (o x : ℕ) (s t : Bytes) → drop o s ≡ x ∷ t → get_elem? s o ≡ some x
get_elem-at zero x [] t e = ground arith
get_elem-at zero x (y ∷ s) t e = ground arith
get_elem-at (suc o) x [] t e = ground arith
get_elem-at (suc o) x (y ∷ s) t e = get_elem-at o x s t e

pub move_drop : (w : Bytes) (o : ℕ) (s t : Bytes) → drop o s ≡ w ++ t → drop (o + length w) s ≡ t
move_drop [] o s t e = subst (λ i. drop i s ≡ t) {x = o} {y = o + 0} (omega arith) e
move_drop (x ∷ w) o s t e =
    subst (λ i. drop i s ≡ t) {x = suc o + length w} {y = o + suc (length w)} (omega arith)
      (move_drop w (suc o) s t (next_drop o x s (w ++ t) e))

pub take-append : (s rest : Bytes) → take (length s) (s ++ rest) ≡ s
take-append [] rest = refl
take-append (x ∷ s) rest = ap (λ l. x ∷ l) (take-append s rest)

-- A text without a byte.
abbrev pub Lacks : ℕ → Bytes → Type 0
Lacks chr [] = Unit
Lacks chr (x ∷ s) = (nat_beq x chr ≡ false) × Lacks chr s

pub index_from-over :
    (chr i : ℕ) (w t : Bytes)
    → Lacks chr w
    → index_from chr i (w ++ t) ≡ index_from chr (i + length w) t
unfolding index_from
index_from-over chr i [] t h = ap (λ j. index_from chr j t) {x = i} {y = i + 0} (omega arith)
index_from-over chr i (x ∷ w) t (e, h) = rw e (
    index_from-over chr (i + 1) w t h
    ∙ ap (λ j. index_from chr j t) {x = (i + 1) + length w} {y = i + suc (length w)} (omega arith))

-- A search that finds nothing finds nothing behind either.
pub index_from-behind :
    (chr i : ℕ) (w t : Bytes)
    → index_from chr i (w ++ t) ≡ none
    → (j : ℕ) × (index_from chr j t ≡ none)
unfolding index_from
index_from-behind chr i [] t e = (i, e)
index_from-behind chr i (x ∷ w) t e = elim (Bool-cases (nat_beq x chr)) [
  | inl here ↦ ground arith
  | inr other ↦ index_from-behind chr (i + 1) w t (ground arith)
]

-- What a search finds stands before the text moved over, or is found from behind it too.
index_from-moves :
    (chr i : ℕ) (w t : Bytes)
    → ((index_from chr i (w ++ t) ≡ none) × (index_from chr (i + length w) t ≡ none))
      ⊎ ((k : ℕ) × ((index_from chr i (w ++ t) ≡ some k)
            × ((k < i + length w) ⊎ (index_from chr (i + length w) t ≡ some k))))
unfolding index_from
index_from-moves chr i [] t =
    let e : index_from chr (i + 0) t ≡ index_from chr i t =
      ap (λ j. index_from chr j t) {x = i + 0} {y = i} (omega arith) in
    elim (Option-cases (index_from chr i t)) [
      | inl nowhere ↦ inl (nowhere, e ∙ nowhere)
      | inr (k, found) ↦ inr (k, (found, inr (e ∙ found)))
    ]
index_from-moves chr i (x ∷ w) t = elim (Bool-cases (nat_beq x chr)) [
  | inl here ↦ inr (i, (rw here refl, inl (omega arith)))
  | inr other ↦
      let e : index_from chr (i + suc (length w)) t ≡ index_from chr ((i + 1) + length w) t =
        ap (λ j. index_from chr j t) {x = i + suc (length w)} {y = (i + 1) + length w}
          (omega arith) in
      elim (index_from-moves chr (i + 1) w t) [
        | inl (nowhere, behind) ↦ inl (rw other nowhere, e ∙ behind)
        | inr (k, (found, inl before)) ↦ inr (k, (rw other found, inl (omega (arith, before))))
        | inr (k, (found, inr behind)) ↦ inr (k, (rw other found, inr (e ∙ behind)))
      ]
]

module _ (visible rest : Bytes) where
  pub str_chr-at :
      (chr o : ℕ) (w : Bytes)
      → drop o visible ≡ w
      → str_chr (visible ++ rest) chr (length visible) o ≡ index_from chr o w
  unfolding str_chr
  str_chr-at chr o w e = rw (take-append visible rest, e) refl

  -- A remembered place is up to date: to renew it is to search.
  abbrev pub IsFresh : ℕ → ℕ → Option ℕ → Type 0
  IsFresh chr o h =
      renew (visible ++ rest) chr (length visible) o h
      ≡ str_chr (visible ++ rest) chr (length visible) o

  pub moved-IsFresh :
      (chr o : ℕ) (w t : Bytes)
      → drop o visible ≡ w ++ t
      → IsFresh chr (o + length w) (str_chr (visible ++ rest) chr (length visible) o)
  unfolding renew
  moved-IsFresh chr o w t e =
      let here = str_chr-at chr o (w ++ t) e in
      let there = str_chr-at chr (o + length w) t (move_drop w o visible t e) in
      elim (index_from-moves chr o w t) [
        | inl (nowhere, behind) ↦ rw (here, nowhere) (sym (there ∙ behind))
        | inr (k, (found, inl before)) ↦
            let less : ltb k (o + length w) ≡ true = ground arith in rw (here, found, less) refl
        | inr (k, (found, inr behind)) ↦
            let from = (str_chr-Within (visible ++ rest) chr (length visible) (o + length w)).1 in
            let late : o + length w ≤ k = subst (From (o + length w)) (there ∙ behind) from in
            let less : ltb k (o + length w) ≡ false = ground arith in
            rw (here, found, less) (sym (there ∙ behind))
      ]
