-- ===== src/Cpu/Power/Merge.antt =====
-- The POWER instructions that merge words under a mask: the shifts that take the bits they bring in
-- from MQ, and the rotate, mask and insert instructions.
use chungusppc.Common.{
  ℕ, ◌+◌, ◌-◌, ◌*◌, ◌/◌, ◌%◌, ◌^◌, ◌<◌, ◌≡◌, refl, ap, ◌∙◌, arith, Bool, ◌==◌, if◌then◌else◌, bit,
  ltb,
}
use chungusppc.Common.{bit_and, bit_or, u32, not32, inl, inr, Bool-cases}
use native.Mathlib.Nat.{div-le_self}
use chungusppc.Common.Bits.{bit-bit_and, bit-bit_or}
use chungusppc.Common.Bits.Bounds.{bit_and-lt_right}
use chungusppc.Common.Bits.Shifts.{bit-mask, bit-shr, bit-shl, bit-mod}
use chungusppc.Common.Bits.Merge.{bit_clear}
use chungusppc.Cpu.State.{State, IsWord, set_spr, set_gpr}
use chungusppc.Cpu.Decode.{reg_a, reg_b, reg_d}
use chungusppc.Cpu.Flags.{changecrf0}
use chungusppc.Cpu.Effect.{IsEffect, keep_bits, keep_end}
use chungusppc.Cpu.Shift.{rotl32, rotr32, rot_mask}
use chungusppc.Cpu.Shift.Rotate.{rotl32-bit, rotr32-bit, rot_mask-bit, rot_mask-lt, high_clear}
use chungusppc.Cpu.Power.Mq.{amount, long_amount, sleq, slliq, sllq, sreq, srliq, srlq}
use chungusppc.Cpu.Power.Shifts.{IsRotl, IsRotr, rotated_left, rotated_right, mq_first}

-- Bit `i` of the word `x` shifted by `n`, with the bits of `m` where the shift leaves none.
abbrev pub shl_over : ℕ → ℕ → ℕ → ℕ → ℕ
shl_over x m n i = if ltb i n then bit m i else bit x (i - n)

abbrev pub shr_over : ℕ → ℕ → ℕ → ℕ → ℕ
shr_over x m n i = if ltb (i + n) 32 then bit x (i + n) else bit m i

-- `a` where the mask has a one, else `b`.
pub mask_over-bit :
    (a b m i : ℕ)
    → m < 2 ^ 32
    → i < 32
    → bit (bit_or (bit_and a m) (bit_and b (not32 m))) i
      ≡ (if bit m i == 1 then bit a i else bit b i)
mask_over-bit a b m i w h = ground (
  arith,
  bit-bit_or i (bit_and a m) (bit_and b (not32 m)),
  bit-bit_and i a m,
  bit_clear b m i w h,
)

module _ (x m n i : ℕ) (hx : x < 2 ^ 32) (p : n < 32) (h : i < 32) where
  left_merge :
      bit
        (bit_or
          (bit_and (rotl32 x n) (rot_mask 0 (31 - n)))
          (bit_and m (not32 (rot_mask 0 (31 - n)))))
        i
      ≡ shl_over x m n i
  left_merge =
      let mask = rot_mask-bit 0 (31 - n) i (omega arith) (omega arith) h in
      let rotated = rotl32-bit x n i hx h in
      mask_over-bit (rotl32 x n) m (rot_mask 0 (31 - n)) i (rot_mask-lt 0 (31 - n)) h
      ∙ rw (mask, rotated)
          (elim (Bool-cases (ltb i n)) [
            | inl t ↦ ground arith
            | inr t ↦
                let index : (i + 32 - n % 32) % 32 ≡ i - n = ground arith in rw index (ground arith)
          ])

  right_merge :
      bit (bit_or (bit_and (rotr32 x n) (rot_mask n 31)) (bit_and m (not32 (rot_mask n 31)))) i
      ≡ shr_over x m n i
  right_merge =
      let mask = rot_mask-bit n 31 i p (omega arith) h in
      let rotated = rotr32-bit x n i hx h in
      mask_over-bit (rotr32 x n) m (rot_mask n 31) i (rot_mask-lt n 31) h
      ∙ rw (mask, rotated)
          (elim (Bool-cases (ltb (i + n) 32)) [
            | inl t ↦
                let index : (i + n % 32) % 32 ≡ i + n = ground arith in rw index (ground arith)
            | inr t ↦ ground arith
          ])

  shifted_merge :
      bit (bit_or (x / 2 ^ n) (bit_and m (not32 (0xffff_ffff / 2 ^ n)))) i ≡ shr_over x m n i
  shifted_merge =
      let mask_lt : 0xffff_ffff / 2 ^ n < 2 ^ 32 = omega (arith, div-le_self 0xffff_ffff (2 ^ n)) in
      let index : n + i ≡ i + n = omega arith in
      elim (Bool-cases (ltb (i + n) 32)) [
        | inl t ↦ ground (
          arith,
          bit-bit_or i (x / 2 ^ n) (bit_and m (not32 (0xffff_ffff / 2 ^ n))),
          bit_clear m (0xffff_ffff / 2 ^ n) i mask_lt h,
          bit-shr 0xffff_ffff n i,
          bit-mask 32 (n + i),
          bit-shr x n i,
          ap (λ (t : ℕ). bit x t) index,
        )
        | inr t ↦ ground (
          arith,
          bit-bit_or i (x / 2 ^ n) (bit_and m (not32 (0xffff_ffff / 2 ^ n))),
          bit_clear m (0xffff_ffff / 2 ^ n) i mask_lt h,
          bit-shr 0xffff_ffff n i,
          bit-mask 32 (n + i),
          bit-shr x n i,
          high_clear x (n + i) hx (ground arith),
        )
      ]

  low_merge : bit (bit_or (u32 (x * 2 ^ n)) (bit_and m (2 ^ n - 1))) i ≡ shl_over x m n i
  low_merge = ground (
    arith,
    bit-bit_or i (u32 (x * 2 ^ n)) (bit_and m (2 ^ n - 1)),
    bit-bit_and i m (2 ^ n - 1),
    bit-mask n i,
    bit-mod 32 (x * 2 ^ n) i,
    bit-shl x n i,
  )

-- Register rA gets the word with the bits `f`, and MQ the word `q`.
abbrev pub IsMerge : Bool → ℕ → (ℕ → ℕ) → ℕ → State → State → Type 0
IsMerge rec op f q s s' =
    (v : ℕ) × ((i : ℕ) → i < 32 → bit v i ≡ f i) × IsEffect rec (reg_a op) v v q (keep_bits s) s s'

field-lt : (x : ℕ) → bit_and x 0x1f < 32
field-lt x = bit_and-lt_right 5 x 0x1f (omega arith)

module _ (rec : Bool) (s : State) (op : ℕ) (w : IsWord s) where
  abbrev pub rS : ℕ
  rS = s.gpr (reg_d op)

  abbrev pub rB : ℕ
  rB = s.gpr (reg_b op)

  abbrev pub mq : ℕ
  mq = s.spr 0

  -- The instructions that leave MQ alone.
  mq_kept :
      (v : ℕ)
      → IsEffect rec
          (reg_a op)
          v
          v
          mq
          (keep_bits s)
          s
          (set_gpr (if rec then changecrf0 s v else s) (reg_a op) v)
  mq_kept v = keep_end (reg_a op) v v mq s s.spr refl refl (λ j p n. refl) rec

  left_lem :
      (n : ℕ)
      → n < 32
      → let mask = rot_mask 0 (31 - n) in
        let v = bit_or (bit_and (rotl32 rS n) mask) (bit_and mq (not32 mask)) in
        let s1 = set_spr s 0 (rotl32 rS n) in
        (q : ℕ) × IsRotl rS n q
        × IsMerge rec op
            (shl_over rS mq n)
            q
            s
            (set_gpr (if rec then changecrf0 s1 v else s1) (reg_a op) v)
  left_lem n p = (
    rotl32 rS n,
    rotated_left rec s op w n,
    (
      _,
      (λ i h. left_merge rS mq n i (w.gpr_lt (reg_d op)) p h),
      mq_first rec s op w _ (rotl32 rS n),
    ),
  )

  right_lem :
      (v n : ℕ)
      → ((i : ℕ) → i < 32 → bit v i ≡ shr_over rS mq n i)
      → let s1 = set_spr s 0 (rotr32 rS n) in
        (q : ℕ) × IsRotr rS n q
        × IsMerge rec op
            (shr_over rS mq n)
            q
            s
            (set_gpr (if rec then changecrf0 s1 v else s1) (reg_a op) v)
  right_lem v n e =
      (rotr32 rS n, rotated_right rec s op w n, (v, e, mq_first rec s op w v (rotr32 rS n)))

  -- The bits of `sllq` and of `srlq`, whose amount may be 32 or more.
  abbrev pub sllq_bit : ℕ → ℕ
  sllq_bit i =
      if long_amount s op
      then if ltb i (amount s op) then 0 else bit mq i
      else shl_over rS mq (amount s op) i

  abbrev pub srlq_bit : ℕ → ℕ
  srlq_bit i =
      if long_amount s op
      then if ltb (i + amount s op) 32 then bit mq i else 0
      else shr_over rS mq (amount s op) i

  sllq_bits :
      (i : ℕ)
      → i < 32
      → bit
          (if long_amount s op
            then bit_and mq (u32 (0xffff_ffff * 2 ^ amount s op))
            else bit_or (u32 (rS * 2 ^ amount s op)) (bit_and mq (2 ^ amount s op - 1)))
          i
        ≡ sllq_bit i
  sllq_bits i h = elim (Bool-cases (long_amount s op)) [
    | inl t ↦ rw t (
        ground (
          arith,
          bit-bit_and i mq (u32 (0xffff_ffff * 2 ^ amount s op)),
          bit-mod 32 (0xffff_ffff * 2 ^ amount s op) i,
          bit-shl 0xffff_ffff (amount s op) i,
          bit-mask 32 (i - amount s op),
        ))
    | inr t ↦ rw t (low_merge rS mq (amount s op) i (w.gpr_lt (reg_d op)) (field-lt rB) h)
  ]

  srlq_bits :
      (i : ℕ)
      → i < 32
      → let n = amount s op in
        let mask = rot_mask n 31 in
        bit
          (if long_amount s op
            then bit_and mq mask
            else bit_or (bit_and (rotr32 rS n) mask) (bit_and mq (not32 mask)))
          i
        ≡ srlq_bit i
  srlq_bits i h = elim (Bool-cases (long_amount s op)) [
    | inl t ↦ rw t (
        ground (
          arith,
          bit-bit_and i mq (rot_mask (amount s op) 31),
          rot_mask-bit (amount s op) 31 i (field-lt rB) (omega arith) h,
          field-lt rB,
        ))
    | inr t ↦ rw t (right_merge rS mq (amount s op) i (w.gpr_lt (reg_d op)) (field-lt rB) h)
  ]

  sllq_lem : IsMerge rec op sllq_bit mq s (sllq rec s op)
  unfolding sllq
  sllq_lem = (
    (if long_amount s op
        then bit_and mq (u32 (0xffff_ffff * 2 ^ amount s op))
        else bit_or (u32 (rS * 2 ^ amount s op)) (bit_and mq (2 ^ amount s op - 1))),
    sllq_bits,
    mq_kept _,
  )

  srlq_lem : IsMerge rec op srlq_bit mq s (srlq rec s op)
  unfolding srlq
  srlq_lem =
      let n = amount s op in
      let mask = rot_mask n 31 in
      (
        (if long_amount s op
            then bit_and mq mask
            else bit_or (bit_and (rotr32 rS n) mask) (bit_and mq (not32 mask))),
        srlq_bits,
        mq_kept _,
      )

-- On a state of machine words, `sleq` and `slliq` shift rS to the left and bring in the low bits of MQ,
-- `sreq` and `srliq` to the right and bring in its high bits; MQ gets rS, rotated. `sllq` and `srlq`
-- do so too but keep MQ, and with the bit 0x20 of rB they give MQ without the bits shifted over.
-- CR0 describes rA where Rc is set, and nothing else changes.
pub mq_shifts-IsMerge :
    (rec : Bool) (s : State) (op : ℕ)
    → IsWord s
    → let x = s.gpr (reg_d op) in
      let m = s.spr 0 in
      let n = amount s op in
      let k = reg_b op in
      ((q : ℕ) × IsRotl x n q × IsMerge rec op (shl_over x m n) q s (sleq rec s op))
      × ((q : ℕ) × IsRotl x k q × IsMerge rec op (shl_over x m k) q s (slliq rec s op))
      × ((q : ℕ) × IsRotr x n q × IsMerge rec op (shr_over x m n) q s (sreq rec s op))
      × ((q : ℕ) × IsRotr x k q × IsMerge rec op (shr_over x m k) q s (srliq rec s op))
      × IsMerge rec op
          (λ i. if long_amount s op then (if ltb i n then 0 else bit m i) else shl_over x m n i)
          m
          s
          (sllq rec s op)
      × IsMerge rec op
          (λ i.
            if long_amount s op then (if ltb (i + n) 32 then bit m i else 0) else shr_over x m n i)
          m
          s
          (srlq rec s op)
unfolding sleq slliq sreq srliq
mq_shifts-IsMerge rec s op w =
    let x = s.gpr (reg_d op) in
    let hx = w.gpr_lt (reg_d op) in
    let n = amount s op in
    (
      left_lem rec s op w n (field-lt (s.gpr (reg_b op))),
      left_lem rec s op w (reg_b op) (field-lt (op / 2 ^ 11)),
      right_lem rec s op w _ n
          (λ i h. shifted_merge x (s.spr 0) n i hx (field-lt (s.gpr (reg_b op))) h),
      right_lem rec s op w _ (reg_b op)
          (λ i h. right_merge x (s.spr 0) (reg_b op) i hx (field-lt (op / 2 ^ 11)) h),
      sllq_lem rec s op w,
      srlq_lem rec s op w,
    )
