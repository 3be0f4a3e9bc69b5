-- ===== src/Client/IncludeStatements/Indices.antt =====
-- Where the searches of internal/client/own-includes-parser.go find a byte.
use nocc.Client.IncludeStatements.{index_from, str_chr, comment_end, renew}
use mathlib.Core.Option.{some-injective}
use nocc.Prelude.{
  ℕ, zero, suc, ◌+◌, ◌-◌, ◌≤◌, ◌<◌, ◌&&◌, Option, none, some, [], ◌∷◌, Bytes, ◌≡◌, refl, ◌∙◌, ap,
  arith, nat_beq, ltb, nat_beq_iff, get_elem?, length, take, drop, either_branch, Bool-cases, inl,
  inr,
}

-- An index, if there is one.
abbrev pub Below : ℕ → Option ℕ → Type 0
Below size none = Unit
Below size (some k) = k < size

abbrev pub From : ℕ → Option ℕ → Type 0
From offset none = Unit
From offset (some k) = offset ≤ k

abbrev Within : ℕ → ℕ → Option ℕ → Type 0
Within i n none = Unit
Within i n (some k) = (i ≤ k) × (k < i + n)

later-Within : (i n : ℕ) (o : Option ℕ) → Within (i + 1) n o → Within i (suc n) o
later-Within i n none h = tt
later-Within i n (some k) h = omega (arith, h)

split-Within :
    (size offset n : ℕ) (o : Option ℕ)
    → n ≤ size - offset
    → Within offset n o
    → Below size o × From offset o
split-Within size offset n none l h = (tt, tt)
split-Within size offset n (some k) l h = (omega (arith, l, h), h.0)

index_from-Within : (chr i : ℕ) (s : Bytes) → Within i (length s) (index_from chr i s)
unfolding index_from
index_from-Within chr i [] = tt
index_from-Within chr i (x ∷ s) =
    either_branch (Within i (suc (length s))) (nat_beq x chr) (some i) (index_from chr (i + 1) s)
      (omega arith)
      (later-Within i (length s) (index_from chr (i + 1) s) (index_from-Within chr (i + 1) s))

length-take_le : (n : ℕ) (s : Bytes) → length (take n s) ≤ n
length-take_le zero s = omega arith
length-take_le (suc n) [] = omega arith
length-take_le (suc n) (x ∷ s) = omega (arith, length-take_le n s)

length-drop : (n : ℕ) (s : Bytes) → length (drop n s) ≡ length s - n
length-drop zero s = omega arith
length-drop (suc n) [] = omega arith
length-drop (suc n) (x ∷ s) = omega (arith, length-drop n s)

pub str_chr-Within :
    (buffer : Bytes) (chr size offset : ℕ)
    → Below size (str_chr buffer chr size offset) × From offset (str_chr buffer chr size offset)
unfolding str_chr
str_chr-Within buffer chr size offset =
    split-Within size offset (length (drop offset (take size buffer))) _
      (omega (arith, length-drop offset (take size buffer), length-take_le size buffer))
      (index_from-Within chr offset (drop offset (take size buffer)))

pub renew-Within :
    (buffer : Bytes) (chr size offset : ℕ) (o : Option ℕ)
    → Below size o
    → Below size (renew buffer chr size offset o) × From offset (renew buffer chr size offset o)
unfolding renew
renew-Within buffer chr size offset none h = (tt, tt)
renew-Within buffer chr size offset (some k) h = elim (Bool-cases (ltb k offset)) [
  | inl before ↦ rw before (str_chr-Within buffer chr size offset)
  | inr after ↦ rw after (h, ground arith)
]

relax-From : (i j : ℕ) (o : Option ℕ) → i ≤ j → From j o → From i o
relax-From i j none l h = tt
relax-From i j (some k) l h = omega (arith, l, h)

pub renew-From :
    (buffer : Bytes) (chr size offset : ℕ) (o : Option ℕ)
    → From offset (renew buffer chr size offset o)
unfolding renew
renew-From buffer chr size offset none = tt
renew-From buffer chr size offset (some k) = elim (Bool-cases (ltb k offset)) [
  | inl before ↦ rw before (str_chr-Within buffer chr size offset).1
  | inr after ↦ rw after (ground arith)
]

-- The end of a comment stands behind its start.
pub comment_end-From : (before i : ℕ) (s : Bytes) → From i (comment_end before i s)
unfolding comment_end
comment_end-From before i [] = tt
comment_end-From before i (x ∷ s) =
    either_branch (From i) (nat_beq x b'/' && nat_beq before b'*') (some i)
      (comment_end x (i + 1) s) (omega arith)
      (relax-From i (i + 1) (comment_end x (i + 1) s) (omega arith) (comment_end-From x (i + 1) s))

-- A byte that stands in a text is found.
pub index_from-finds :
    (chr n i : ℕ) (s : Bytes) → get_elem? s i ≡ some chr → (j : ℕ) × (index_from chr n s ≡ some j)
unfolding index_from
index_from-finds chr n i [] e = ground arith
index_from-finds chr n zero (x ∷ s) e =
    rw (some-injective x chr e) (rw ((nat_beq_iff chr chr).1 refl) (n, refl))
index_from-finds chr n (suc i) (x ∷ s) e = elim (Bool-cases (nat_beq x chr)) [
  | inl same ↦ rw same (n, refl)
  | inr other ↦ rw other (index_from-finds chr (n + 1) i s e)
]

-- What is found is there.
abbrev pub Stands : ℕ → ℕ → Bytes → Option ℕ → Type 0
Stands chr i s none = Unit
Stands chr i s (some j) = (m : ℕ) × (j ≡ i + m) × (get_elem? s m ≡ some chr)

later-Stands :
    (chr i x : ℕ) (s : Bytes) (o : Option ℕ) → Stands chr (i + 1) s o → Stands chr i (x ∷ s) o
later-Stands chr i x s none h = tt
later-Stands chr i x s (some j) (m, e, g) = (suc m, omega (arith, e), g)

pub index_from-Stands : (chr i : ℕ) (s : Bytes) → Stands chr i s (index_from chr i s)
unfolding index_from
index_from-Stands chr i [] = tt
index_from-Stands chr i (x ∷ s) = elim (Bool-cases (nat_beq x chr)) [
  | inl same ↦ rw same (zero, omega arith, ap some ((nat_beq_iff x chr).0 same))
  | inr other ↦ rw other (later-Stands chr i x s _ (index_from-Stands chr (i + 1) s))
]

pub get_elem-drop : (k i : ℕ) (s : Bytes) → get_elem? (drop k s) i ≡ get_elem? s (k + i)
get_elem-drop zero i s = ap (get_elem? s) (omega arith)
get_elem-drop (suc k) i [] = refl
get_elem-drop (suc k) i (x ∷ s) =
    get_elem-drop k i s ∙ ap (get_elem? (x ∷ s)) {x = suc (k + i)} {y = suc k + i} (omega arith)

pub get_elem-take : (k i : ℕ) (s : Bytes) → i < k → get_elem? (take k s) i ≡ get_elem? s i
get_elem-take zero i s l = absurd (omega (arith, l))
get_elem-take (suc k) i [] l = refl
get_elem-take (suc k) zero (x ∷ s) l = refl
get_elem-take (suc k) (suc i) (x ∷ s) l = get_elem-take k i s (omega (arith, l))
