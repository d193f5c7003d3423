-- ===== src/Cpu/Power/Arithmetic.antt =====
-- The arithmetic POWER shifts: a floor division of the signed number, with the carry and MQ.
use chungusppc.Common.{
  ℕ, zero, suc, ◌+◌, ◌-◌, ◌*◌, ◌/◌, ◌%◌, ◌^◌, ◌<◌, ◌≡◌, refl, ap, sym, ◌∙◌, arith, Bool, true,
  false, if◌then◌else◌, truth, ◌&&◌, min, is_neg,
}
use chungusppc.Common.{bit_and, not32, inl, inr, Bool-cases}
use mathlib.Core.Path.{subst}
use native.Mathlib.Nat.{mod-eq_of_lt, mod-lt, div-le_self, mul-lt-mul_of_pos_right}
use chungusppc.Common.Int.{signed32, shr_ℤ}
use chungusppc.Common.Bits.Bounds.{bit_and-lt_right, bit_ext}
use chungusppc.Common.Bits.Shifts.{
  bit_and-pow, bit-mask, bit-shr, bit-shl, bit-mod, pow-add, two-pow-pos,
}
use chungusppc.Common.Bits.Merge.{bit_and-mask, bit_clear}
use chungusppc.Cpu.State.{State, IsWord, update, set_spr, set_gpr}
use chungusppc.Cpu.Decode.{reg_a, reg_b, reg_d}
use chungusppc.Cpu.Flags.{changecrf0}
use chungusppc.Cpu.Effect.{IsEffect, ca_bits, ca_end, IsEffect-end, set_ca-bit, clear_ca-bit}
use chungusppc.Cpu.Shift.{set_ca, clear_ca, rotl32, rotr32, sar32}
use chungusppc.Cpu.Shift.Rotate.{rotr32-bit}
use chungusppc.Cpu.Shift.Amount.{signed32-sar32}
use chungusppc.Cpu.Power.Mq.{amount, long_amount, sraiq, sraq, srea}
use chungusppc.Cpu.Power.Shifts.{IsRightShift, rotated_right}

-- The arithmetic shifts set MQ, test the carry and record in turn.
module _ (rec : Bool) (s : State) (op : ℕ) (w : IsWord s) where
  abbrev xS : ℕ
  xS = s.gpr (reg_d op)

  mq_carry :
      (v q : ℕ) (ca : Bool)
      → let s1 = set_spr s 0 q in
        let s2 = if ca then set_ca s1 else clear_ca s1 in
        IsEffect rec
          (reg_a op)
          v
          v
          q
          (ca_bits ca s)
          s
          (set_gpr (if rec then changecrf0 s2 v else s2) (reg_a op) v)
  mq_carry v q ca =
      ca_end (reg_a op) v v q s (update s.spr 0 q) refl refl (λ j p n. ground arith) rec ca

  sraiq_lem :
      IsRightShift rec op
        (reg_b op)
        (sar32 xS (reg_b op))
        (ca_bits (is_neg xS && truth (xS % 2 ^ reg_b op)) s)
        s
        (sraiq rec s op)
  unfolding sraiq
  sraiq_lem = (
    rotr32 xS (reg_b op),
    rotated_right rec s op w (reg_b op),
    subst
        (λ t.
          IsEffect rec (reg_a op) (sar32 xS (reg_b op)) (sar32 xS (reg_b op)) (rotr32 xS (reg_b op))
            (ca_bits (is_neg xS && truth t) s) s (sraiq rec s op))
        (bit_and-mask (reg_b op) xS)
        (mq_carry _ _ (is_neg xS && truth (bit_and xS (2 ^ reg_b op - 1)))),
  )

  -- `sraq` sets MQ again after the carry.
  mq_twice :
      (v q0 q : ℕ) (ca : Bool)
      → let s1 = set_spr s 0 q0 in
        let s2 = set_spr (if ca then set_ca s1 else clear_ca s1) 0 q in
        IsEffect rec
          (reg_a op)
          v
          v
          q
          (ca_bits ca s)
          s
          (set_gpr (if rec then changecrf0 s2 v else s2) (reg_a op) v)
  mq_twice v q0 q true =
      IsEffect-end (reg_a op) v v q s (ca_bits true s) (set_spr (set_ca (set_spr s 0 q0)) 0 q).spr
        refl (set_ca-bit (reg_a op) v v q0 s (update s.spr 0 q0) refl refl (λ j p n. ground arith))
        (λ j p n. ground arith) rec
  mq_twice v q0 q false =
      IsEffect-end (reg_a op) v v q s (ca_bits false s)
        (set_spr (clear_ca (set_spr s 0 q0)) 0 q).spr refl
        (clear_ca-bit (reg_a op) v v q0 s (update s.spr 0 q0) refl refl (λ j p n. ground arith))
        (λ j p n. ground arith) rec

sraq_carry :
    (x b : ℕ)
    → x < 2 ^ 32
    → (is_neg x
        && truth
            (bit_and x (if truth (bit_and b 0x20) then 2 ^ 32 - 1 else 2 ^ bit_and b 0x1f - 1)))
      ≡ (is_neg x && truth (x % 2 ^ (b % 64)))
sraq_carry x b h = rw (bit_and-mask 5 b) (elim (Bool-cases (truth (bit_and b 0x20))) [
  | inl t ↦
      let high : b % 64 ≡ 32 + b % 32 = ground (arith, bit_and-pow 5 b) in
      let whole : x % 2 ^ (32 + b % 32) ≡ x =
        mod-eq_of_lt (omega (arith, pow-add 32 (b % 32), two-pow-pos (b % 32))) in
      rw (t, high, whole) (ground (arith, bit_and-mask 32 x))
  | inr t ↦
      let low : b % 64 ≡ b % 32 = ground (arith, bit_and-pow 5 b) in
      rw (t, low, bit_and-mask (b % 32) x)
])

sraq_value :
    (x b : ℕ)
    → x < 2 ^ 32
    → signed32 (sar32 x (if truth (bit_and b 0x20) then 31 else bit_and b 0x1f))
      ≡ shr_ℤ (signed32 x) (min (b % 64) 31)
sraq_value x b h =
    signed32-sar32 x (if truth (bit_and b 0x20) then 31 else bit_and b 0x1f) h
    ∙ ap (shr_ℤ (signed32 x)) (ground (arith, bit_and-pow 5 b, bit_and-mask 5 b))

the_sum : (n : ℕ) → n < 32 → n + (32 - n) ≡ 32
the_sum n p = omega arith

truth_mul : (x y : ℕ) → 0 < y → truth (x * y) ≡ truth x
truth_mul zero y h = ground arith
truth_mul (suc x) y h =
    let positive : 0 * y < suc x * y = mul-lt-mul_of_pos_right (omega arith) h in ground arith

-- The bits that a rotation to the right brings to the top.
wrapped_bits :
    (x n : ℕ)
    → x < 2 ^ 32
    → n < 32
    → bit_and (rotr32 x n) (not32 (0xffff_ffff / 2 ^ n)) ≡ x % 2 ^ n * 2 ^ (32 - n)
wrapped_bits x n hx p =
    let mask_lt : 0xffff_ffff / 2 ^ n < 2 ^ 32 = omega (arith, div-le_self 0xffff_ffff (2 ^ n)) in
    let power : 2 ^ 32 ≡ 2 ^ n * 2 ^ (32 - n) =
      ap (λ (t : ℕ). 2 ^ t) (sym (the_sum n p)) ∙ pow-add n (32 - n) in
    let low : x % 2 ^ n < 2 ^ n = mod-lt x (two-pow-pos n) in
    bit_ext 32 _ _ (bit_and-lt_right 32 (rotr32 x n) (not32 (0xffff_ffff / 2 ^ n)) (omega arith))
      (rw power (mul-lt-mul_of_pos_right low (two-pow-pos (32 - n))))
      λ i h.
        let index : i - (32 - n) ≡ i + n - 32 = omega arith in
        ground (
          arith,
          bit_clear (rotr32 x n) (0xffff_ffff / 2 ^ n) i mask_lt h,
          bit-shr 0xffff_ffff n i,
          bit-mask 32 (n + i),
          rotr32-bit x n i hx h,
          bit-shl (x % 2 ^ n) (32 - n) i,
          bit-mod n x (i - (32 - n)),
        )

srea_carry :
    (x n : ℕ)
    → x < 2 ^ 32
    → n < 32
    → truth (bit_and (rotr32 x n) (not32 (0xffff_ffff / 2 ^ n))) ≡ truth (x % 2 ^ n)
srea_carry x n hx p =
    ap truth (wrapped_bits x n hx p) ∙ truth_mul (x % 2 ^ n) (2 ^ (32 - n)) (two-pow-pos (32 - n))

module _ (rec : Bool) (s : State) (op : ℕ) (w : IsWord s) where
  sraq_lem :
      (v : ℕ) × (signed32 v ≡ shr_ℤ (signed32 (s.gpr (reg_d op))) (min (s.gpr (reg_b op) % 64) 31))
      × IsRightShift rec op
          (amount s op)
          v
          (ca_bits
            (is_neg (s.gpr (reg_d op)) && truth (s.gpr (reg_d op) % 2 ^ (s.gpr (reg_b op) % 64)))
            s)
          s
          (sraq rec s op)
  unfolding sraq
  sraq_lem =
      let x = s.gpr (reg_d op) in
      let b = s.gpr (reg_b op) in
      let v = sar32 x (if long_amount s op then 31 else amount s op) in
      let ca =
        is_neg x
        && truth (bit_and x (if long_amount s op then 2 ^ 32 - 1 else 2 ^ amount s op - 1)) in
      let q = rotr32 x (amount s op) in
      (
        v,
        sraq_value x b (w.gpr_lt (reg_d op)),
        (
          q,
          rotated_right rec s op w (amount s op),
          subst (λ t. IsEffect rec (reg_a op) v v q (ca_bits t s) s (sraq rec s op))
              (sraq_carry x b (w.gpr_lt (reg_d op)))
              (mq_twice rec s op w v (rotl32 x (amount s op)) q ca),
        ),
      )

-- `srea` sets MQ last.
mq_last :
    (rec ca : Bool) (s : State) (r v q : ℕ)
    → let s1 = set_spr s 0 q in
      let s2 = if ca then set_ca s1 else clear_ca s1 in
      IsEffect rec r v v q (ca_bits ca s) s (set_gpr (if rec then changecrf0 s2 v else s2) r v)
      → IsEffect rec r v v q (ca_bits ca s) s (
          set_spr
            (set_gpr
              (if rec
                then changecrf0 (if ca then set_ca s else clear_ca s) v
                else if ca
                then set_ca s
                else clear_ca s)
              r
              v)
            0
            q)
unfolding changecrf0
mq_last true true s r v q h = record {
  result = h.result;
  other_gpr = h.other_gpr;
  xer = h.xer;
  mq = refl;
  other_spr = λ j p n. ground (arith, h.other_spr j p n);
  cr = h.cr;
  keeps = h.keeps;
}
mq_last true false s r v q h = record {
  result = h.result;
  other_gpr = h.other_gpr;
  xer = h.xer;
  mq = refl;
  other_spr = λ j p n. ground (arith, h.other_spr j p n);
  cr = h.cr;
  keeps = h.keeps;
}
mq_last false true s r v q h = record {
  result = h.result;
  other_gpr = h.other_gpr;
  xer = h.xer;
  mq = refl;
  other_spr = λ j p n. ground (arith, h.other_spr j p n);
  cr = h.cr;
  keeps = h.keeps;
}
mq_last false false s r v q h = record {
  result = h.result;
  other_gpr = h.other_gpr;
  xer = h.xer;
  mq = refl;
  other_spr = λ j p n. ground (arith, h.other_spr j p n);
  cr = h.cr;
  keeps = h.keeps;
}

srea_lem :
    (rec : Bool) (s : State) (op : ℕ)
    → IsWord s
    → let x = s.gpr (reg_d op) in
      let n = amount s op in
      IsRightShift rec op n
        (sar32 x n)
        (ca_bits (is_neg x && truth (x % 2 ^ n)) s)
        s
        (srea rec s op)
unfolding srea
srea_lem rec s op w =
    let x = s.gpr (reg_d op) in
    let n = amount s op in
    let q = rotr32 x n in
    let v = sar32 x n in
    let ca = is_neg x && truth (bit_and q (not32 (0xffff_ffff / 2 ^ n))) in
    (
      q,
      rotated_right rec s op w n,
      subst (λ t. IsEffect rec (reg_a op) v v q (ca_bits (is_neg x && t) s) s (srea rec s op))
          (srea_carry x n (w.gpr_lt (reg_d op))
            (bit_and-lt_right 5 (s.gpr (reg_b op)) 0x1f (omega arith)))
          (mq_last rec ca s (reg_a op) v q (mq_carry rec s op w v q ca)),
    )

-- On a state of machine words, `sraiq`, `srea` and `sraq` put into rA the signed rS divided by a power
-- of two and rounded down, the amount being the field SH, rB modulo 32, and rB modulo 64 but at most
-- 31; XER[CA] tells that rS is negative and that bits were lost, MQ gets rS rotated to the right, CR0
-- describes rA where Rc is set, and nothing else changes.
pub arithmetic_shifts-IsEffect :
    (rec : Bool) (s : State) (op : ℕ)
    → IsWord s
    → let x = s.gpr (reg_d op) in
      let b = s.gpr (reg_b op) in
      let n = amount s op in
      let lost = λ (k : ℕ). ca_bits (is_neg x && truth (x % 2 ^ k)) s in
      ((v : ℕ) × (signed32 v ≡ shr_ℤ (signed32 x) (reg_b op))
        × IsRightShift rec op (reg_b op) v (lost (reg_b op)) s (sraiq rec s op))
      × ((v : ℕ) × (signed32 v ≡ shr_ℤ (signed32 x) n)
          × IsRightShift rec op n v (lost n) s (srea rec s op))
      × ((v : ℕ) × (signed32 v ≡ shr_ℤ (signed32 x) (min (b % 64) 31))
          × IsRightShift rec op n v (lost (b % 64)) s (sraq rec s op))
arithmetic_shifts-IsEffect rec s op w = (
  (sar32 _ (reg_b op), signed32-sar32 _ (reg_b op) (w.gpr_lt (reg_d op)), sraiq_lem rec s op w),
  (
    sar32 _ (amount s op),
    signed32-sar32 _ (amount s op) (w.gpr_lt (reg_d op)),
    srea_lem rec s op w,
  ),
  sraq_lem rec s op w,
)
