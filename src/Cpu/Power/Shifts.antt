-- ===== src/Cpu/Power/Shifts.antt =====
-- What the POWER shifts leave in the register and in MQ.
use chungusppc.Common.{
  ℕ, ◌+◌, ◌-◌, ◌*◌, ◌/◌, ◌%◌, ◌^◌, ◌<◌, ◌≡◌, refl, arith, Bool, true, false, if◌then◌else◌, bit,
  truth,
}
use chungusppc.Common.{bit_and, u32}
use mathlib.Core.Path.{subst}
use chungusppc.Common.Bits.Bounds.{bit_and-lt_right}
use chungusppc.Common.Bits.Merge.{bit_and-mask}
use chungusppc.Cpu.State.{State, IsWord, update, set_spr, set_gpr}
use chungusppc.Cpu.Decode.{reg_a, reg_b, reg_d}
use chungusppc.Cpu.Flags.{changecrf0}
use chungusppc.Cpu.Effect.{IsEffect, keep_bits, keep_end}
use chungusppc.Cpu.Shift.{rotl32, rotr32}
use chungusppc.Cpu.Shift.Rotate.{rotl32-bit, rotr32-bit}
use chungusppc.Cpu.Shift.Amount.{shifted-eq}
use chungusppc.Cpu.Power.Mq.{amount, sle, sliq, slq, sre, sriq, srq}

-- `q` is `x`, rotated by `n` to the left or to the right.
abbrev pub IsRotl : ℕ → ℕ → ℕ → Type 0
IsRotl x n q = (i : ℕ) → i < 32 → bit q i ≡ bit x ((i + 32 - n % 32) % 32)

abbrev pub IsRotr : ℕ → ℕ → ℕ → Type 0
IsRotr x n q = (i : ℕ) → i < 32 → bit q i ≡ bit x ((i + n % 32) % 32)

field-lt : (x : ℕ) → bit_and x 0x1f < 32
field-lt x = bit_and-lt_right 5 x 0x1f (omega arith)

-- After `rec`, register rA holds `v`, and MQ the word rS, rotated by `n`.
abbrev pub IsLeftShift : Bool → ℕ → ℕ → ℕ → (ℕ → ℕ) → State → State → Type 0
IsLeftShift rec op n v x s s' =
    (q : ℕ) × IsRotl (s.gpr (reg_d op)) n q × IsEffect rec (reg_a op) v v q x s s'

abbrev pub IsRightShift : Bool → ℕ → ℕ → ℕ → (ℕ → ℕ) → State → State → Type 0
IsRightShift rec op n v x s s' =
    (q : ℕ) × IsRotr (s.gpr (reg_d op)) n q × IsEffect rec (reg_a op) v v q x s s'

mod32_field : (x : ℕ) → bit_and x 0x1f ≡ x % 32
mod32_field x = bit_and-mask 5 x

module _ (rec : Bool) (s : State) (op : ℕ) (w : IsWord s) where
  abbrev rS : ℕ
  rS = s.gpr (reg_d op)

  abbrev rB : ℕ
  rB = s.gpr (reg_b op)

  pub rotated_left : (n : ℕ) → IsRotl rS n (rotl32 rS n)
  rotated_left n i h = rotl32-bit rS n i (w.gpr_lt (reg_d op)) h

  pub rotated_right : (n : ℕ) → IsRotr rS n (rotr32 rS n)
  rotated_right n i h = rotr32-bit rS n i (w.gpr_lt (reg_d op)) h

  -- MQ is set before the register and the flags.
  pub mq_first :
      (v q : ℕ)
      → let s1 = set_spr s 0 q in
        IsEffect rec
          (reg_a op)
          v
          v
          q
          (keep_bits s)
          s
          (set_gpr (if rec then changecrf0 s1 v else s1) (reg_a op) v)
  mq_first v q =
      keep_end (reg_a op) v v q s (update s.spr 0 q) refl refl (λ j p n. ground arith) rec

  sliq_lem :
      IsLeftShift rec op (reg_b op) (rS * 2 ^ reg_b op % 2 ^ 32) (keep_bits s) s (sliq rec s op)
  unfolding sliq
  sliq_lem = (rotl32 rS (reg_b op), rotated_left (reg_b op), mq_first _ (rotl32 rS (reg_b op)))

  sriq_lem : IsRightShift rec op (reg_b op) (rS / 2 ^ reg_b op) (keep_bits s) s (sriq rec s op)
  unfolding sriq
  sriq_lem = (rotr32 rS (reg_b op), rotated_right (reg_b op), mq_first _ (rotr32 rS (reg_b op)))

  sre_lem : IsRightShift rec op (amount s op) (rS / 2 ^ amount s op) (keep_bits s) s (sre rec s op)
  unfolding sre
  sre_lem =
      (rotr32 rS (amount s op), rotated_right (amount s op), mq_first _ (rotr32 rS (amount s op)))

-- `sle` stores rA before the flags and again after them.
sle_end :
    (rec : Bool) (s : State) (op : ℕ)
    → let q = rotl32 (s.gpr (reg_d op)) (amount s op) in
      let v = u32 (s.gpr (reg_d op) * 2 ^ amount s op) in
      IsEffect rec
        (reg_a op)
        v
        v
        q
        (keep_bits s)
        s
        (set_gpr (if rec then changecrf0 (set_spr s 0 q) v else set_spr s 0 q) (reg_a op) v)
      → IsEffect rec (reg_a op) v v q (keep_bits s) s (sle rec s op)
unfolding sle changecrf0
sle_end true s op h = record {
  result = ground arith;
  other_gpr = λ j ne. ground arith;
  xer = h.xer;
  mq = h.mq;
  other_spr = h.other_spr;
  cr = h.cr;
  keeps = h.keeps;
}
sle_end false s op h = record {
  result = ground arith;
  other_gpr = λ j ne. ground arith;
  xer = h.xer;
  mq = h.mq;
  other_spr = h.other_spr;
  cr = h.cr;
  keeps = h.keeps;
}

-- MQ is set between the flags and the register.
mq_between :
    (rec : Bool) (s : State) (r v q : ℕ)
    → IsEffect rec r v v q
        (keep_bits s)
        s
        (set_gpr (if rec then changecrf0 (set_spr s 0 q) v else set_spr s 0 q) r v)
    → IsEffect rec r v v q
        (keep_bits s)
        s
        (set_gpr (set_spr (if rec then changecrf0 s v else s) 0 q) r v)
unfolding changecrf0
mq_between true s r v q h = h
mq_between false s r v q h = h

module _ (rec : Bool) (s : State) (op : ℕ) (w : IsWord s) where
  sle_lem :
      IsLeftShift rec op
        (amount s op)
        (s.gpr (reg_d op) * 2 ^ amount s op % 2 ^ 32)
        (keep_bits s)
        s
        (sle rec s op)
  sle_lem = (
    rotl32 (s.gpr (reg_d op)) (amount s op),
    rotated_left rec s op w (amount s op),
    sle_end rec s op (mq_first rec s op w _ _),
  )

  long_shift : (is_left : Bool) → ℕ
  long_shift is_left =
      let d = s.gpr (reg_d op) in
      let b = s.gpr (reg_b op) in
      if truth (bit_and b 0x20)
      then 0
      else if is_left
      then u32 (d * 2 ^ bit_and b 0x1f)
      else d / 2 ^ bit_and b 0x1f

  slq_lem :
      IsLeftShift rec op
        (amount s op)
        (s.gpr (reg_d op) * 2 ^ (s.gpr (reg_b op) % 64) % 2 ^ 32)
        (keep_bits s)
        s
        (slq rec s op)
  unfolding slq long_shift
  slq_lem = (
    rotl32 (s.gpr (reg_d op)) (amount s op),
    rotated_left rec s op w (amount s op),
    subst
        (λ v.
          IsEffect rec (reg_a op) v v (rotl32 (s.gpr (reg_d op)) (amount s op)) (keep_bits s) s
            (slq rec s op))
        (shifted-eq true (s.gpr (reg_d op)) (s.gpr (reg_b op)) (w.gpr_lt (reg_d op)))
        (mq_between rec s (reg_a op) (long_shift true) (rotl32 (s.gpr (reg_d op)) (amount s op))
          (mq_first rec s op w (long_shift true) (rotl32 (s.gpr (reg_d op)) (amount s op)))),
  )

  srq_lem :
      IsRightShift rec op
        (amount s op)
        (s.gpr (reg_d op) / 2 ^ (s.gpr (reg_b op) % 64))
        (keep_bits s)
        s
        (srq rec s op)
  unfolding srq long_shift
  srq_lem = (
    rotr32 (s.gpr (reg_d op)) (amount s op),
    rotated_right rec s op w (amount s op),
    subst
        (λ v.
          IsEffect rec (reg_a op) v v (rotr32 (s.gpr (reg_d op)) (amount s op)) (keep_bits s) s
            (srq rec s op))
        (shifted-eq false (s.gpr (reg_d op)) (s.gpr (reg_b op)) (w.gpr_lt (reg_d op)))
        (mq_between rec s (reg_a op) (long_shift false) (rotr32 (s.gpr (reg_d op)) (amount s op))
          (mq_first rec s op w (long_shift false) (rotr32 (s.gpr (reg_d op)) (amount s op)))),
  )

-- On a state of machine words, `sliq` and `sle` put rS times a power of two into rA, `sriq` and `sre`
-- the quotient, by an amount below 32, and `slq` and `srq` do so with rB modulo 64; MQ gets rS,
-- rotated by the amount modulo 32, CR0 describes rA where Rc is set, and nothing else changes.
pub logical_shifts-IsEffect :
    (rec : Bool) (s : State) (op : ℕ)
    → IsWord s
    → let x = s.gpr (reg_d op) in
      let b = s.gpr (reg_b op) in
      let n = amount s op in
      let keep = keep_bits s in
      IsLeftShift rec op (reg_b op) (x * 2 ^ reg_b op % 2 ^ 32) keep s (sliq rec s op)
      × IsLeftShift rec op n (x * 2 ^ n % 2 ^ 32) keep s (sle rec s op)
      × IsLeftShift rec op n (x * 2 ^ (b % 64) % 2 ^ 32) keep s (slq rec s op)
      × IsRightShift rec op (reg_b op) (x / 2 ^ reg_b op) keep s (sriq rec s op)
      × IsRightShift rec op n (x / 2 ^ n) keep s (sre rec s op)
      × IsRightShift rec op n (x / 2 ^ (b % 64)) keep s (srq rec s op)
logical_shifts-IsEffect rec s op w = (
  sliq_lem rec s op w,
  sle_lem rec s op w,
  slq_lem rec s op w,
  sriq_lem rec s op w,
  sre_lem rec s op w,
  srq_lem rec s op w,
)
