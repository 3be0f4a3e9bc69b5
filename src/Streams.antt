-- ===== src/Streams.antt =====
-- The two ends of a stream: internal/client/files-uploading.go with internal/server/
-- files-stream-server.go, and that one with internal/client/files-receiving.go.
pub mod Uploads
pub mod Pieces
pub mod Objects
mod Tests
use mathlib.Core.List.{append_assoc}
use nocc.Prelude.{
  ℕ, zero, suc, ◌+◌, ◌-◌, ◌<◌, ◌≤◌, List, [], ◌∷◌, ◌++◌, Bytes, length, take, drop, ◌≡◌, refl,
  arith, ap, length-append,
}

abbrev pub all_bytes : List Bytes → Bytes
all_bytes [] = []
all_bytes (b ∷ bs) = b ++ all_bytes bs

-- A read of a file gives a byte at least, before its end.
abbrev pub NoEmpty : List Bytes → Type 0
NoEmpty [] = Unit
NoEmpty (b ∷ bs) = (0 < length b) × NoEmpty bs

pub NoEmpty-append : (bs cs : List Bytes) → NoEmpty bs → NoEmpty cs → NoEmpty (bs ++ cs)
NoEmpty-append [] cs h k = k
NoEmpty-append (b ∷ bs) cs h k = (h.0, NoEmpty-append bs cs h.1 k)

pub take-drop : (n : ℕ) (s : Bytes) → take n s ++ drop n s ≡ s
take-drop zero s = refl
take-drop (suc n) [] = refl
take-drop (suc n) (x ∷ s) = ap (λ t. x ∷ t) (take-drop n s)

pub take-append : (n : ℕ) (s t : Bytes) → take n (s ++ t) ≡ take n s ++ take (n - length s) t
take-append zero s t = ground arith
take-append (suc n) [] t = ground arith
take-append (suc n) (x ∷ s) t = ground (arith, take-append n s t)

pub drop-append : (n : ℕ) (s t : Bytes) → drop n (s ++ t) ≡ drop n s ++ drop (n - length s) t
drop-append zero s t = let none_left : 0 - length s ≡ 0 = omega arith in rw none_left
drop-append (suc n) [] t = ground arith
drop-append (suc n) (x ∷ s) t = ground (arith, drop-append n s t)

pub take_all {ℓ} : {A : Type ℓ} (n : ℕ) (s : List A) → length s ≤ n → take n s ≡ s
take_all zero [] l = refl
take_all zero (x ∷ s) l = absurd (omega (arith, l))
take_all (suc n) [] l = refl
take_all (suc n) (x ∷ s) l = ap (λ t. x ∷ t) (take_all n s (omega (arith, l)))

pub take_own : (s t : Bytes) → take (length s) (s ++ t) ≡ s
take_own [] t = refl
take_own (x ∷ s) t = ap (λ u. x ∷ u) (take_own s t)

pub drop_own : (s t : Bytes) → drop (length s) (s ++ t) ≡ t
drop_own [] t = refl
drop_own (x ∷ s) t = drop_own s t

pub all_bytes-append : (bs cs : List Bytes) → all_bytes (bs ++ cs) ≡ all_bytes bs ++ all_bytes cs
all_bytes-append [] cs = refl
all_bytes-append (b ∷ bs) cs = rw (all_bytes-append bs cs, append_assoc)

pub length-drop_lt : (n c : ℕ) (s : Bytes) → 0 < n → length (drop n (c ∷ s)) ≤ length s
length-drop_lt zero c s l = absurd (omega (arith, l))
length-drop_lt (suc zero) c s l = omega arith
length-drop_lt (suc (suc n)) c [] l = omega arith
length-drop_lt (suc (suc n)) c (d ∷ s) l = omega (arith, length-drop_lt (suc n) d s (omega arith))
