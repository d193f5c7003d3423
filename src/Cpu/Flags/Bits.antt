-- ===== src/Cpu/Flags/Bits.antt =====
-- What the flag helpers do to each bit of the condition register and of XER.
use chungusppc.Common.{ℕ, ◌+◌, ◌-◌, ◌/◌, ◌%◌, ◌^◌, ◌<◌, ◌≡◌, arith}
use chungusppc.Common.{
  bit, bit_and, bit_or, bit_xor, ◌==◌, if◌then◌else◌, is_neg, not32, to_nat, min, max, ◌&&◌, not,
  ap, ◌∙◌, ltb, Bool, Bool-cases, ==_iff, inl, inr,
}
use chungusppc.Common.Bits.{bit-bit_and, bit-bit_or, bit-bit_xor}
use chungusppc.Common.Bits.Bounds.{bit_and-lt, bit_xor-lt}
use mathlib.Core.Path.{ap₂}
use chungusppc.Common.Bits.Shifts.{bit-shr, bit-pow, bit-mask}
use chungusppc.Common.Bits.Merge.{bit_merge, bit_clear}
use chungusppc.Cpu.State.{State}
use chungusppc.Cpu.Flags.{changecrf0, carry, setsoov}
use chungusppc.Cpu.Spr

abbrev pub xer_bit : State → ℕ → ℕ
xer_bit s i = bit (s.spr Spr.xer) i

-- `ppc_carry` moves bit 32 of the wide sum to XER[CA] and keeps every other bit of XER.
pub carry-xer_bit :
    (s : State) (l i : ℕ)
    → i < 32
    → xer_bit (carry s l) i ≡ (if i == 29 then bit l 32 else xer_bit s i)
unfolding carry
carry-xer_bit s l i h =
    ground (
      arith,
      bit_merge (s.spr 1) (l / 2 ^ 3) (2 ^ 29) i (omega arith) h,
      bit-pow 29 i,
      bit-shr l 3 i,
    )

pub is_neg-bit : (x : ℕ) → x < 2 ^ 32 → is_neg x ≡ (bit x 31 == 1)
is_neg-bit x h = ground arith

-- The sign of `(a ^ b) & (a ^ d)`, from the three signs.
pub overflow_sign :
    (a b d : ℕ)
    → a < 2 ^ 32
    → b < 2 ^ 32
    → is_neg (bit_and (bit_xor a b) (bit_xor a d))
      ≡ (min ((bit a 31 + bit b 31) % 2) ((bit a 31 + bit d 31) % 2) == 1)
overflow_sign a b d ha hb =
    is_neg-bit _ (bit_and-lt 32 _ _ (bit_xor-lt 32 a b ha hb))
    ∙ ap (λ t. t == 1)
        (bit-bit_and 31 (bit_xor a b) (bit_xor a d)
          ∙ ap₂ min (bit-bit_xor 31 a b) (bit-bit_xor 31 a d))

-- The bits of XER after an operation that reports `overflow`.
abbrev pub ov_bit : State → Bool → ℕ → ℕ
ov_bit s overflow i =
    if i == 30
    then to_nat overflow
    else if i == 31
    then max (xer_bit s 31) (to_nat overflow)
    else xer_bit s i

-- `ppc_setsoov` sets OV when `a` and `b` differ in sign and so do `a` and `d`, and then SO too;
-- otherwise it clears OV and keeps SO. It keeps every other bit of XER.
pub setsoov-xer_bit :
    (s : State) (a b d i : ℕ)
    → i < 32
    → xer_bit (setsoov s a b d) i ≡ ov_bit s (is_neg (bit_and (bit_xor a b) (bit_xor a d))) i
unfolding setsoov
setsoov-xer_bit s a b d i h = ground (
  arith,
  bit-bit_or i (bit_and (s.spr 1) (not32 (2 ^ 30))) (bit_or (2 ^ 31) (2 ^ 30)),
  bit-bit_or i (bit_and (s.spr 1) (not32 (2 ^ 30))) 0,
  bit-bit_or i (2 ^ 31) (2 ^ 30),
  bit_clear (s.spr 1) (2 ^ 30) i (omega arith) h,
  bit-pow 30 i,
  bit-pow 31 i,
)

-- The condition register once CR0 describes the result `d` and holds `so`, from the old one.
abbrev pub cr0_bit : ℕ → ℕ → ℕ → ℕ → ℕ
cr0_bit cr so d i =
    if i == 31
    then to_nat (is_neg d)
    else if i == 30
    then to_nat (not (is_neg d) && not (d == 0))
    else if i == 29
    then to_nat (d == 0)
    else if i == 28
    then so
    else bit cr i

so_into_cr : (x i : ℕ) → bit (bit_and x (2 ^ 31) / 2 ^ 3) i ≡ (if i == 28 then bit x 31 else 0)
so_into_cr x i = elim (Bool-cases (i == 28)) [
  | inl e ↦
      rw (e, (==_iff i 28).0 e)
        (omega (arith, bit-shr (bit_and x (2 ^ 31)) 3 28, bit-bit_and 31 x (2 ^ 31)))
  | inr e ↦
      ground (
        arith,
        bit-shr (bit_and x (2 ^ 31)) 3 i,
        bit-bit_and (3 + i) x (2 ^ 31),
        bit-pow 31 (3 + i),
      )
]

flags_word-bit :
    (cr flag x i : ℕ)
    → bit (bit_or (bit_or (bit_and cr (2 ^ 28 - 1)) flag) (bit_and x (2 ^ 31) / 2 ^ 3)) i
      ≡ max (max (if ltb i 28 then bit cr i else 0) (bit flag i)) (if i == 28 then bit x 31 else 0)
flags_word-bit cr flag x i = ground (
  arith,
  bit-bit_or i (bit_or (bit_and cr (2 ^ 28 - 1)) flag) (bit_and x (2 ^ 31) / 2 ^ 3),
  bit-bit_or i (bit_and cr (2 ^ 28 - 1)) flag,
  bit-bit_and i cr (2 ^ 28 - 1),
  bit-mask 28 i,
  so_into_cr x i,
)

abbrev cr_flag : ℕ → ℕ
cr_flag d = if d == 0 then 2 ^ 29 else if is_neg d then 2 ^ 31 else 2 ^ 30

abbrev sign_bit : ℕ → ℕ → ℕ
sign_bit d i =
    if i == 31
    then to_nat (is_neg d)
    else if i == 30
    then to_nat (not (is_neg d) && not (d == 0))
    else if i == 29
    then to_nat (d == 0)
    else 0

cr_flag-bit : (d i : ℕ) → bit (cr_flag d) i ≡ sign_bit d i
cr_flag-bit d i = ground (arith, bit-pow 29 i, bit-pow 30 i, bit-pow 31 i)

-- `ppc_changecrf0` records the sign of the result and XER[SO] in CR0, and keeps the other fields.
pub changecrf0-cr0_bit :
    (s : State) (d i : ℕ) → i < 32 → bit (changecrf0 s d).cr i ≡ cr0_bit s.cr (xer_bit s 31) d i
unfolding changecrf0
changecrf0-cr0_bit s d i h = flags_word-bit s.cr (cr_flag d) (s.spr 1) i ∙ combine (cr_flag-bit d i)
  where
    combine :
        bit (cr_flag d) i ≡ sign_bit d i
        → max
            (max (if ltb i 28 then bit s.cr i else 0) (bit (cr_flag d) i))
            (if i == 28 then bit (s.spr 1) 31 else 0)
          ≡ cr0_bit s.cr (xer_bit s 31) d i
    combine e = rw e (ground arith)
