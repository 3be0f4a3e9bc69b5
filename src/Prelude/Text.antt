-- ===== src/Prelude/Text.antt =====
-- The functions of Go's `strings` and `bytes` that the program uses, byte by byte.
use Prim.Native.Nat.{ℕ, zero, suc, ◌+◌, ◌-◌, ◌/◌, ◌%◌}
use mathlib.Core.Path.{◌≡◌, refl}
use mathlib.Core.Bool.{Bool, true, false, ◌&&◌, ◌||◌}
use mathlib.Core.List.{List, [], ◌∷◌, ◌++◌, reverse}
use mathlib.Core.Option.{Option, none, some}
use native.Mathlib.Omega.{arith}
use Prim.Native.String.{String}
use Prim.Native.Char.{code}
use nocc.Prelude.Equality.{Bytes, bytes_beq}
use nocc.Prelude.Lists.{length, drop}
use nocc.Prelude.Tests.{if◌then◌else◌, nat_beq, ltb}

-- A constant of the source, ASCII only.
abbrev pub ascii : String → Bytes
ascii String.[] = []
ascii (String.◌∷◌ c s) = code c ∷ ascii s

-- `strings.HasPrefix(s, prefix)`
unfoldable pub has_prefix : Bytes → Bytes → Bool
has_prefix s [] = true
has_prefix [] (p ∷ ps) = false
has_prefix (x ∷ s) (p ∷ ps) = nat_beq x p && has_prefix s ps

-- `strings.HasSuffix(s, suffix)`
unfoldable pub has_suffix : Bytes → Bytes → Bool
has_suffix [] t = bytes_beq [] t
has_suffix (x ∷ s) t = bytes_beq (x ∷ s) t || has_suffix s t

-- `strings.Contains(s, t)`
unfoldable pub contains : Bytes → Bytes → Bool
unfolding has_prefix
contains [] t = bytes_beq [] t
contains (x ∷ s) t = has_prefix (x ∷ s) t || contains s t

-- `strings.TrimPrefix(s, prefix)`
unfoldable pub trim_prefix : Bytes → Bytes → Bytes
unfolding has_prefix
trim_prefix s p = if has_prefix s p then drop (length p) s else s

-- `strings.TrimSuffix(s, suffix)`
unfoldable pub trim_suffix : Bytes → Bytes → Bytes
trim_suffix [] t = []
trim_suffix (x ∷ s) t = if bytes_beq (x ∷ s) t then [] else x ∷ trim_suffix s t

-- `strings.Split(s, sep)` at a separator of one byte: always one part at least.
unfoldable pub split_onto : Bytes → ℕ → Bytes → List Bytes
split_onto part c [] = reverse part ∷ []
split_onto part c (x ∷ s) =
    let cut = split_onto [] c s in
    let on = split_onto (x ∷ part) c s in if nat_beq x c then reverse part ∷ cut else on

unfoldable pub split : Bytes → ℕ → List Bytes
unfolding split_onto
split s c = split_onto [] c s

-- `strings.Join(parts, sep)`
unfoldable pub join : List Bytes → Bytes → Bytes
join [] sep = []
join (p ∷ []) sep = p
join (p ∷ q ∷ ps) sep = p ++ (sep ++ join (q ∷ ps) sep)

-- `strings.ReplaceAll(s, old, new)` for an `old` of one byte.
unfoldable pub replace_byte : Bytes → ℕ → Bytes → Bytes
replace_byte [] c t = []
replace_byte (x ∷ s) c t = if nat_beq x c then t ++ replace_byte s c t else x ∷ replace_byte s c t

-- A prefix that is there is what stands in front of the rest.
pub has_prefix-append : (p s : Bytes) → has_prefix (p ++ s) p ≡ true
unfolding has_prefix
has_prefix-append [] [] = refl
has_prefix-append [] (x ∷ s) = refl
has_prefix-append (x ∷ p) s = ground (arith, has_prefix-append p s)

pub drop-append : (p s : Bytes) → drop (length p) (p ++ s) ≡ s
drop-append [] s = refl
drop-append (x ∷ p) s = drop-append p s

pub trim_prefix-append : (p s : Bytes) → trim_prefix (p ++ s) p ≡ s
unfolding trim_prefix
trim_prefix-append p s = ground (arith, has_prefix-append p s, drop-append p s)

pub has_prefix_split : (s p : Bytes) → has_prefix s p ≡ true → (r : Bytes) × (s ≡ p ++ r)
unfolding has_prefix
has_prefix_split s [] h = (s, refl)
has_prefix_split [] (p ∷ ps) h = cc
has_prefix_split (x ∷ s) (p ∷ ps) h =
    let (r, e) = has_prefix_split s ps (ground arith) in (r, ground arith)

-- The decimal digits of a number, the last one put first; a number of `fuel` digits at most.
unfoldable pub digits_onto : Bytes → ℕ → ℕ → Bytes
digits_onto out zero n = out
digits_onto out (suc fuel) n =
    let rest = digits_onto ((b'0' + n % 10) ∷ out) fuel (n / 10) in
    if nat_beq (n / 10) 0 then (b'0' + n % 10) ∷ out else rest

-- `%d` of a number without a sign: of at most `n + 1` digits.
unfoldable pub decimal : ℕ → Bytes
unfolding digits_onto
decimal n = digits_onto [] (suc n) n

-- `bytes.ReplaceAll(s, old, [])`: the occurrences from the left on, for an `old` that is not empty.
-- `skip` bytes still belong to the occurrence found last.
unfoldable pub remove_all_from : ℕ → Bytes → Bytes → Bytes
unfolding has_prefix
remove_all_from skip [] t = []
remove_all_from (suc skip) (x ∷ s) t = remove_all_from skip s t
remove_all_from zero (x ∷ s) t =
    let rest = remove_all_from (length t - 1) s t in
    let on = remove_all_from zero s t in if has_prefix (x ∷ s) t then rest else x ∷ on

-- Up to the last occurrence of a byte, without it; `none` if there is none.
unfoldable pub before_last : Bytes → ℕ → Option Bytes
before_last [] c = none
before_last (x ∷ s) c = elim (before_last s c) [
  | some front ↦ some (x ∷ front)
  | none ↦ if nat_beq x c then some [] else none
]

-- `%X` of a number without a sign.
abbrev pub upper_digit : ℕ → ℕ
upper_digit d = if ltb d 10 then b'0' + d else b'A' + (d - 10)

unfoldable pub hex_onto : Bytes → ℕ → ℕ → Bytes
hex_onto out zero n = out
hex_onto out (suc fuel) n =
    let rest = hex_onto (upper_digit (n % 16) ∷ out) fuel (n / 16) in
    if nat_beq (n / 16) 0 then upper_digit (n % 16) ∷ out else rest

unfoldable pub upper_hex : ℕ → Bytes
unfolding hex_onto
upper_hex n = hex_onto [] (suc n) n
