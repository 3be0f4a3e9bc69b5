-- ===== src/Prelude/Dict.antt =====
-- A Go map as an association list over keys with an equality test. A missing key reads as `none`,
-- an assignment replaces the entry or adds one, and `len` counts the entries.
use Prim.Native.Nat.{ℕ, ◌+◌}
use mathlib.Core.Path.{◌≡◌, refl}
use mathlib.Core.Logic.{◌≢◌, ◌⊎◌, inl, inr}
use mathlib.Core.Bool.{Bool, true, false}
use mathlib.Core.List.{List, [], ◌∷◌}
use mathlib.Core.Option.{Option, none, some}
use native.Mathlib.Omega.{arith}
use nocc.Prelude.Equality.{Comparable, ◌==◌, same_self}
use nocc.Prelude.Lists.{length}
use nocc.Prelude.Tests.{if◌then◌else◌, Bool-cases}

abbrev pub Dict : Type 0 → Type 0 → Type 0
Dict K V = List (K × V)

module _ {K V : Type 0} ⦃e : Comparable K⦄ where
  unfoldable pub get : K → Dict K V → Option V
  get k [] = none
  get k ((j, v) ∷ m) = if j == k then some v else get k m

  unfoldable pub put : K → V → Dict K V → Dict K V
  put k v [] = (k, v) ∷ []
  put k v ((j, w) ∷ m) = if j == k then (k, v) ∷ m else (j, w) ∷ put k v m

  unfoldable pub delete : K → Dict K V → Dict K V
  delete k [] = []
  delete k ((j, w) ∷ m) = if j == k then m else (j, w) ∷ delete k m

  -- `_, exists := m[k]`
  unfoldable pub has : K → Dict K V → Bool
  unfolding get
  has k m = elim (get k m) [ none ↦ false | some _ ↦ true ]

  -- Every key stands once, as in a map.
  abbrev pub Absent : K → Dict K V → Type 0
  Absent k m = get k m ≡ none

  abbrev pub IsMap : Dict K V → Type 0
  IsMap [] = Unit
  IsMap ((k, v) ∷ m) = Absent k m × IsMap m

module _ {K V : Type 0} where
  -- A sum over the values, as a map's total size.
  abbrev pub sum_of : (V → ℕ) → Dict K V → ℕ
  sum_of f [] = 0
  sum_of f ((k, v) ∷ m) = f v + sum_of f m

module _ {K V : Type 0} ⦃e : Comparable K⦄ where
  pub get-put :
      (k j : K) (v : V) (m : Dict K V) → get j (put k v m) ≡ (if k == j then some v else get j m)
  unfolding get put
  get-put k j v [] = refl
  get-put k j v ((i, w) ∷ m) =
      ground (arith, get-put k j v m, e.same_iff i j, e.same_iff i k, e.same_iff k j)

  pub get-put_self : (k : K) (v : V) (m : Dict K V) → get k (put k v m) ≡ some v
  get-put_self k v m = rw (get-put, same_self)

  pub get-put_ne : (k j : K) (v : V) (m : Dict K V) → k ≢ j → get j (put k v m) ≡ get j m
  get-put_ne k j v m h = ground (arith, get-put k j v m, e.same_iff k j)

  -- A read behind an assignment.
  pub get-put_split :
      (k j : K) (v : V) (m : Dict K V) (r : Option V)
      → get j (put k v m) ≡ r
      → ((k ≡ j) × (some v ≡ r)) ⊎ ((k ≢ j) × (get j m ≡ r))
  get-put_split k j v m r h = elim (Bool-cases (k == j)) [
    | inl same ↦ inl ((e.same_iff k j).0 same, ground (arith, get-put k j v m))
    | inr other ↦ inr (ground (arith, e.same_iff k j), ground (arith, get-put k j v m))
  ]

  pub get-delete_ne : (k j : K) (m : Dict K V) → k ≢ j → get j (delete k m) ≡ get j m
  unfolding get delete
  get-delete_ne k j [] h = refl
  get-delete_ne k j ((i, w) ∷ m) h =
      ground (arith, e.same_iff i k, e.same_iff i j, get-delete_ne k j m h)

  pub get-delete_self : (k : K) (m : Dict K V) → IsMap m → get k (delete k m) ≡ none
  unfolding get delete
  get-delete_self k [] h = refl
  get-delete_self k ((i, w) ∷ m) h = ground (arith, e.same_iff i k, get-delete_self k m h.1, h.0)

  pub delete-Absent : (k : K) (m : Dict K V) → Absent k m → delete k m ≡ m
  unfolding get delete
  delete-Absent k [] h = refl
  delete-Absent k ((i, w) ∷ m) h = ground (arith, delete-Absent k m)

  pub put-IsMap : (k : K) (v : V) (m : Dict K V) → IsMap m → IsMap (put k v m)
  unfolding get put
  put-IsMap k v [] h = (refl, tt)
  put-IsMap k v ((i, w) ∷ m) h = elim (Bool-cases (i == k)) [
    | inl same ↦ rw same (let p : i ≡ k = (e.same_iff i k).0 same in rw (← p) h)
    | inr other ↦
        rw other
          (ground (arith, get-put k i v m, e.same_iff k i, e.same_iff i k), put-IsMap k v m h.1)
  ]

  pub delete-IsMap : (k : K) (m : Dict K V) → IsMap m → IsMap (delete k m)
  unfolding get delete
  delete-IsMap k [] h = tt
  delete-IsMap k ((i, w) ∷ m) h = elim (Bool-cases (i == k)) [
    | inl same ↦ rw same h.1
    | inr other ↦
        rw other (ground (arith, get-delete_ne k i m, e.same_iff i k, h.0), delete-IsMap k m h.1)
  ]

  pub sum_of-put-Absent :
      (f : V → ℕ) (k : K) (v : V) (m : Dict K V)
      → Absent k m
      → sum_of f (put k v m) ≡ sum_of f m + f v
  unfolding get put
  sum_of-put-Absent f k v [] h = omega arith
  sum_of-put-Absent f k v ((i, w) ∷ m) h = ground (arith, sum_of-put-Absent f k v m)

  pub sum_of-delete :
      (f : V → ℕ) (k : K) {v : V} (m : Dict K V)
      → get k m ≡ some v
      → sum_of f (delete k m) + f v ≡ sum_of f m
  unfolding get delete
  sum_of-delete f k [] h = cc
  sum_of-delete f k {v} ((i, w) ∷ m) h = ground (arith, sum_of-delete f k {v = v} m)

  pub length-delete :
      (k : K) {v : V} (m : Dict K V) → get k m ≡ some v → length (delete k m) + 1 ≡ length m
  unfolding get delete
  length-delete k [] h = cc
  length-delete k {v} ((i, w) ∷ m) h = ground (arith, length-delete k {v = v} m)
