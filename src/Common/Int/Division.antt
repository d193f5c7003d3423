-- ===== src/Common/Int/Division.antt =====
-- The quotient and the remainder of C, and the integers of 32 bits.
use chungusppc.Common.{ℕ, zero, suc, ◌+◌, ◌*◌, ◌/◌, ◌%◌, ◌^◌, ◌<◌, ◌≡◌, ◌≢◌, refl, arith}
use native.Mathlib.Nat.{div-add-mod', mod-lt, div-le_self, div-lt_self}
use chungusppc.Common.Int.{
  ℤ, pos, negsuc, pos_part, neg_part, sub_ℕ, ◌+ℤ◌, ◌*ℤ◌, quot_ℤ, rem_ℤ, signed32, wrap_ℤ, FitsInt32,
}

pub signed32-wrap_ℤ : (z : ℤ) → FitsInt32 z → signed32 (wrap_ℤ 32 z) ≡ z
signed32-wrap_ℤ (pos n) (h, g) = ground arith
signed32-wrap_ℤ (negsuc n) (h, g) = ground arith

-- A product and a sum of signed numbers, from the absolute values.
module _ (q b r a : ℕ) where
  pos_pos : q * b + r ≡ a → pos q *ℤ pos b +ℤ pos r ≡ pos a
  unfolding ◌*ℤ◌ ◌+ℤ◌
  pos_pos e = ground (arith, e)

  neg_neg : q * suc b + r ≡ a → sub_ℕ 0 q *ℤ negsuc b +ℤ pos r ≡ pos a
  unfolding ◌*ℤ◌ ◌+ℤ◌
  neg_neg e = ground (arith, e)

  neg_pos : q * b + r ≡ suc a → sub_ℕ 0 q *ℤ pos b +ℤ sub_ℕ 0 r ≡ negsuc a
  unfolding ◌*ℤ◌ ◌+ℤ◌
  neg_pos e = ground (arith, e)

  pos_neg : q * suc b + r ≡ suc a → pos q *ℤ negsuc b +ℤ sub_ℕ 0 r ≡ negsuc a
  unfolding ◌*ℤ◌ ◌+ℤ◌
  pos_neg e = ground (arith, e)

pub quot-rem : (a b : ℤ) → 0 < pos_part b + neg_part b → quot_ℤ a b *ℤ b +ℤ rem_ℤ a b ≡ a
unfolding quot_ℤ rem_ℤ
quot-rem (pos a) (pos b) h = pos_pos (a / b) b (a % b) a (div-add-mod' a b)
quot-rem (pos a) (negsuc b) h = neg_neg (a / suc b) b (a % suc b) a (div-add-mod' a (suc b))
quot-rem (negsuc a) (pos b) h = neg_pos (suc a / b) b (suc a % b) a (div-add-mod' (suc a) b)
quot-rem (negsuc a) (negsuc b) h =
    pos_neg (suc a / suc b) b (suc a % suc b) a (div-add-mod' (suc a) (suc b))

abbrev pub magnitude : ℤ → ℕ
magnitude z = pos_part z + neg_part z

-- The remainder is smaller than the divisor and has the sign of the dividend.
abbrev pub IsRemainder : ℤ → ℤ → ℤ → Type 0
IsRemainder a b r =
    (magnitude r < magnitude b)
    × (0 < pos_part a → neg_part r ≡ 0)
    × (0 < neg_part a → pos_part r ≡ 0)

pub rem_ℤ-IsRemainder : (a b : ℤ) → 0 < magnitude b → IsRemainder a b (rem_ℤ a b)
unfolding rem_ℤ
rem_ℤ-IsRemainder (pos a) (pos b) h =
    (omega (arith, mod-lt a h), λ p. refl, λ p. absurd (omega arith))
rem_ℤ-IsRemainder (pos a) (negsuc b) h =
    (ground (arith, mod-lt a {m = suc b} (omega arith)), λ p. refl, λ p. absurd (omega arith))
rem_ℤ-IsRemainder (negsuc a) (pos b) h = (
  ground (arith, mod-lt (suc a) {m = b} (omega arith)),
  λ p. absurd (omega arith),
  λ p. ground arith,
)
rem_ℤ-IsRemainder (negsuc a) (negsuc b) h = (
  ground (arith, mod-lt (suc a) {m = suc b} (omega arith)),
  λ p. absurd (omega arith),
  λ p. ground arith,
)

-- Only the quotient of the least number by -1 is no `int32_t`.
pub quot_ℤ-FitsInt32 :
    (a b : ℤ)
    → FitsInt32 a
    → 0 < magnitude b
    → (neg_part a ≡ 2 ^ 31 → neg_part b ≢ 1)
    → FitsInt32 (quot_ℤ a b)
unfolding quot_ℤ
quot_ℤ-FitsInt32 (pos a) (pos b) h g ne = omega (arith, div-le_self a b)
quot_ℤ-FitsInt32 (pos a) (negsuc b) h g ne = ground (arith, div-le_self a (suc b))
quot_ℤ-FitsInt32 (negsuc a) (pos b) h g ne = ground (arith, div-le_self (suc a) b)
quot_ℤ-FitsInt32 (negsuc a) (negsuc zero) h g ne = ground (arith)
quot_ℤ-FitsInt32 (negsuc a) (negsuc (suc b)) h g ne =
    let smaller : suc a / suc (suc b) < suc a = div-lt_self (omega arith) (omega arith) in
    ground arith
