-- ===== src/Cpu/Power/Masks.antt =====
-- The POWER instructions that insert under a mask.
use chungusppc.Common.{
  ℕ, ◌+◌, ◌-◌, ◌/◌, ◌%◌, ◌^◌, ◌<◌, ◌≡◌, refl, ap, ◌∙◌, arith, Bool, ◌==◌, if◌then◌else◌, bit,
  to_nat, ltb, is_neg,
}
use chungusppc.Common.{bit_and, bit_or, not32, inl, inr, Bool-cases}
use native.Mathlib.Nat.{div-le_self}
use chungusppc.Common.Bits.{bit-bit_or}
use chungusppc.Common.Bits.Bounds.{bit_and-lt_right}
use chungusppc.Common.Bits.Shifts.{bit-mask, bit-pow, bit-complement}
use chungusppc.Common.Bits.Merge.{bit_clear, bit_and-mask, bit_merge}
use chungusppc.Cpu.State.{State, IsWord}
use chungusppc.Cpu.Decode.{reg_a, reg_b, reg_d, rot_mb, rot_me}
use chungusppc.Cpu.Write.{IsWrite, IsWrite-end}
use chungusppc.Cpu.Condition.Single.{top_shift}
use chungusppc.Cpu.Shift.{rotl32, rot_mask}
use chungusppc.Cpu.Shift.Rotate.{rotl32-bit, rot_mask-bit, rot_mask-lt, in_mask, rotated_bit}
use chungusppc.Cpu.Power.{maskg, maskir, rlmi, rrib}
use chungusppc.Cpu.Power.Merge.{mask_over-bit}

-- Register rA gets the word with the bits `f`.
abbrev pub IsBits : Bool → ℕ → (ℕ → ℕ) → State → State → Type 0
IsBits rec op f s s' = (v : ℕ) × ((i : ℕ) → i < 32 → bit v i ≡ f i) × IsWrite rec (reg_a op) v s s'

field-lt : (x : ℕ) → bit_and x 0x1f < 32
field-lt x = bit_and-lt_right 5 x 0x1f (omega arith)

abbrev mask_between : ℕ → ℕ → ℕ
mask_between b e =
    if ltb b (e + 1)
    then rot_mask b e
    else if b == e + 1
    then 0xffff_ffff
    else not32 (rot_mask (e + 1) (b - 1))

-- A mask that wraps is the complement of the mask of the other bits.
mask_between-bit :
    (b e i : ℕ) → b < 32 → e < 32 → i < 32 → bit (mask_between b e) i ≡ to_nat (in_mask b e i)
mask_between-bit b e i p q h = elim (Bool-cases (ltb b (e + 1))) [
  | inl t ↦ rw t (rot_mask-bit b e i p q h)
  | inr t ↦ elim (Bool-cases (b == e + 1)) [
    | inl u ↦ rw (t, u) (ground (arith, bit-mask 32 i))
    | inr u ↦
        let first : e + 1 < 32 = ground arith in
        let last : b - 1 < 32 = omega arith in
        let inner = rot_mask-bit (e + 1) (b - 1) i first last h in
        rw (t, u)
          (ground (
            arith,
            bit-complement 32 (rot_mask (e + 1) (b - 1)) i (rot_mask-lt (e + 1) (b - 1)) h,
            inner,
          ))
  ]
]

rrib_bit :
    (a d n i : ℕ)
    → n < 32
    → i < 32
    → bit
        (if is_neg d
          then bit_or a (0x8000_0000 / 2 ^ n)
          else bit_and a (not32 (0x8000_0000 / 2 ^ n)))
        i
      ≡ (if i == 31 - n then to_nat (is_neg d) else bit a i)
rrib_bit a d n i p h =
    let small : 2 ^ (31 - n) < 2 ^ 32 =
      omega (arith, ap (λ (t : ℕ). t) (top_shift n p), div-le_self 0x8000_0000 (2 ^ n)) in
    rw (top_shift n p) (
      ground (
        arith,
        bit-bit_or i a (2 ^ (31 - n)),
        bit_clear a (2 ^ (31 - n)) i small h,
        bit-pow (31 - n) i,
      ))

-- On a state of machine words, `maskg` makes the mask from bit rS through bit rB (modulo 32, in
-- PowerPC's numbering, around the end of the word if rB is smaller), `maskir` inserts rS under the mask
-- rB into rA, `rlmi` inserts rS rotated by rB under the mask of the opcode, and `rrib` inserts the
-- first bit of rS at bit rB modulo 32; CR0 describes rA where Rc is set, and nothing else changes.
pub masks-IsBits :
    (rec : Bool) (s : State) (op : ℕ)
    → IsWord s
    → let a = s.gpr (reg_a op) in
      let b = s.gpr (reg_b op) in
      let d = s.gpr (reg_d op) in
      IsBits rec op (λ i. to_nat (in_mask (d % 32) (b % 32) i)) s (maskg rec s op)
      × IsBits rec op (λ i. if bit b i == 1 then bit d i else bit a i) s (maskir rec s op)
      × IsBits (bit_and op 1 == 1) op (rotated_bit op d b (bit a)) s (rlmi s op)
      × IsBits rec op
          (λ i. if i == 31 - b % 32 then to_nat (is_neg d) else bit a i)
          s
          (rrib rec s op)
unfolding maskg maskir rlmi rrib
masks-IsBits rec s op w =
    let a = s.gpr (reg_a op) in
    let b = s.gpr (reg_b op) in
    let d = s.gpr (reg_d op) in
    let mask = rot_mask (rot_mb op) (rot_me op) in
    (
      (
        mask_between (bit_and d 0x1f) (bit_and b 0x1f),
        (λ i h.
            mask_between-bit (bit_and d 0x1f) (bit_and b 0x1f) i (field-lt d) (field-lt b) h
            ∙ rw (bit_and-mask 5 d, bit_and-mask 5 b) refl),
        IsWrite-end rec (reg_a op) _ s,
      ),
      (
        bit_or (bit_and a (not32 b)) (bit_and d b),
        (λ i h. bit_merge a d b i (w.gpr_lt (reg_b op)) h),
        IsWrite-end rec (reg_a op) _ s,
      ),
      (
        bit_or (bit_and (rotl32 d b) mask) (bit_and a (not32 mask)),
        (λ i h. ground (
          arith,
          mask_over-bit (rotl32 d b) a mask i (rot_mask-lt (rot_mb op) (rot_me op)) h,
          rot_mask-bit (rot_mb op) (rot_me op) i (field-lt _) (field-lt _) h,
          rotl32-bit d b i (w.gpr_lt (reg_d op)) h,
        )),
        IsWrite-end (bit_and op 1 == 1) (reg_a op) _ s,
      ),
      (
        (if is_neg d
            then bit_or a (0x8000_0000 / 2 ^ bit_and b 0x1f)
            else bit_and a (not32 (0x8000_0000 / 2 ^ bit_and b 0x1f))),
        (λ i h. rrib_bit a d (bit_and b 0x1f) i (field-lt b) h ∙ rw (bit_and-mask 5 b) refl),
        IsWrite-end rec (reg_a op) _ s,
      ),
    )
