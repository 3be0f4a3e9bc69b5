-- ===== src/Common/Sha256.antt =====
-- internal/common/sha256-struct.go: a hash as four 64-bit words.
use Prim.Native.Nat.{bit_xor}
use nocc.Prelude.{ℕ, Bool, true, ◌&&◌, ◌≡◌, ◌↔◌, arith, Comparable, nat_beq}

-- Each word is a `uint64`, so below 2 ^ 64.
pub record Sha256 : Type 0 where
  pub b0_7 : ℕ
  pub b8_15 : ℕ
  pub b16_23 : ℕ
  pub b24_31 : ℕ

abbrev pub sha256_beq : Sha256 → Sha256 → Bool
sha256_beq a b =
    nat_beq a.b0_7 b.b0_7
    && (nat_beq a.b8_15 b.b8_15 && (nat_beq a.b16_23 b.b16_23 && nat_beq a.b24_31 b.b24_31))

pub sha256_beq_iff : (a b : Sha256) → (sha256_beq a b ≡ true) ↔ (a ≡ b)
sha256_beq_iff a b = ground arith

instance abbrev pub sha256_comparable : Comparable Sha256
sha256_comparable = record { same = sha256_beq; same_iff = sha256_beq_iff }

unfoldable pub is_empty : Sha256 → Bool
is_empty h = nat_beq h.b0_7 0 && (nat_beq h.b8_15 0 && (nat_beq h.b16_23 0 && nat_beq h.b24_31 0))

unfoldable pub xor_with : Sha256 → Sha256 → Sha256
xor_with h other = record {
  b0_7 = bit_xor h.b0_7 other.b0_7;
  b8_15 = bit_xor h.b8_15 other.b8_15;
  b16_23 = bit_xor h.b16_23 other.b16_23;
  b24_31 = bit_xor h.b24_31 other.b24_31;
}
