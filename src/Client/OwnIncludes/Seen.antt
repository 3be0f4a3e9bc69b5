-- ===== src/Client/OwnIncludes/Seen.antt =====
-- internal/client/own-includes-parser.go: what is known of the paths that were attempted (`uniqSeen`).
use nocc.Client.IncludeStatements.{IncludedArg}
use nocc.Client.IncludeDirs.{IncludeDirs}
use nocc.Client.OwnIncludes.Paths.{candidates}
use nocc.Prelude.Dict.{Dict, get, put, get-put_ne}
use nocc.Prelude.{
  ℕ, ◌+◌, ◌≤◌, ◌<◌, true, false, Option, none, some, List, [], ◌∷◌, Bytes, IsIn, ◌≡◌, ◌⊎◌, inl, inr,
  sym, subst, ◌∙◌, Option-cases, arith, bytes_comparable,
}

abbrev pub Seen : Type 0
Seen = Dict Bytes (Option ℕ)

-- What is known of a path stays.
abbrev pub Grows : Seen → Seen → Type 0
Grows s t = (k : Bytes) (v : Option ℕ) → get k s ≡ some v → get k t ≡ some v

pub Grows-put : (k : Bytes) (v : Option ℕ) (s : Seen) → get k s ≡ none → Grows s (put k v s)
Grows-put k v s new j w e =
    get-put_ne k j v s (λ same.
      let e' : get k s ≡ some w = subst (λ x. get x s ≡ some w) (sym same) e in ground arith)
    ∙ e

-- An include is found at the first of its paths that exists.
abbrev pub Searched : Seen → List Bytes → Type 0
Searched s [] = Unit
Searched s (c ∷ cs) =
    ((i : ℕ) × (get c s ≡ some (some i))) ⊎ ((get c s ≡ some none) × Searched s cs)

pub Grows-Searched : (s t : Seen) (cs : List Bytes) → Grows s t → Searched s cs → Searched t cs
Grows-Searched s t [] g h = tt
Grows-Searched s t (c ∷ cs) g (inl (i, e)) = inl (i, g c (some i) e)
Grows-Searched s t (c ∷ cs) g (inr (e, h)) = inr (g c none e, Grows-Searched s t cs g h)

-- The includes in quotes: those in angles may be answered from the cache.
abbrev pub ArgSearched : IncludeDirs → Bytes → Seen → IncludedArg → Type 0
ArgSearched dirs current s arg =
    arg.is_quote ≡ true → arg.is_include_next ≡ false → Searched s (candidates current dirs arg)

abbrev pub AllSearched : IncludeDirs → Bytes → Seen → List IncludedArg → Type 0
AllSearched dirs current s [] = Unit
AllSearched dirs current s (arg ∷ args) =
    ArgSearched dirs current s arg × AllSearched dirs current s args

pub Grows-AllSearched :
    (dirs : IncludeDirs) (current : Bytes) (s t : Seen) (args : List IncludedArg)
    → Grows s t
    → AllSearched dirs current s args
    → AllSearched dirs current t args
Grows-AllSearched dirs current s t [] g h = tt
Grows-AllSearched dirs current s t (arg ∷ args) g (h, hs) = (
  (λ q n. Grows-Searched s t (candidates current dirs arg) g (h q n)),
  Grows-AllSearched dirs current s t args g hs,
)

-- How many of some names were not attempted.
abbrev pub as_unseen : Option (Option ℕ) → ℕ
as_unseen none = 1
as_unseen (some v) = 0

abbrev pub unseen : List Bytes → Seen → ℕ
unseen [] s = 0
unseen (n ∷ ns) s = as_unseen (get n s) + unseen ns s

as_unseen-Grows : (n : Bytes) (s t : Seen) → Grows s t → as_unseen (get n t) ≤ as_unseen (get n s)
as_unseen-Grows n s t g = elim (Option-cases (get n s)) [
  | inl e ↦ rw e (elim (Option-cases (get n t)) [
    | inl d ↦ rw d (omega arith)
    | inr (v, d) ↦ rw d (omega arith)
  ])
  | inr (v, e) ↦ rw (e, g n v e) (omega arith)
]

pub unseen-Grows : (ns : List Bytes) (s t : Seen) → Grows s t → unseen ns t ≤ unseen ns s
unseen-Grows [] s t g = omega arith
unseen-Grows (n ∷ ns) s t g = omega (arith, as_unseen-Grows n s t g, unseen-Grows ns s t g)

pub unseen_less :
    (f : Bytes) (v : Option ℕ) (ns : List Bytes) (s t : Seen)
    → Grows s t
    → IsIn f ns
    → get f s ≡ none
    → get f t ≡ some v
    → unseen ns t < unseen ns s
unseen_less f v [] s t g i new seen = absurd i
unseen_less f v (n ∷ ns) s t g (inl same) new seen =
    rw (same, new, seen) (omega (arith, unseen-Grows ns s t g))
unseen_less f v (n ∷ ns) s t g (inr i) new seen =
    omega (arith, as_unseen-Grows n s t g, unseen_less f v ns s t g i new seen)
