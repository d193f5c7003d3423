-- ===== src/Cpu/Multiply/Division.antt =====
-- The dividing instructions, and the overflow of `mullwo`.
use chungusppc.Common.{
  ℕ, ◌/◌, ◌^◌, ◌<◌, ◌≡◌, refl, ap, ◌∙◌, arith, Bool, true, false, ◌==◌, if◌then◌else◌, ◌&&◌, ◌||◌,
  bit_or, is_neg, inl, inr, Bool-cases,
}
use mathlib.Core.Path.{subst}
use chungusppc.Common.Int.{ℤ, signed32, wrap_ℤ, ◌+ℤ◌, ◌*ℤ◌, quot_ℤ, rem_ℤ, FitsInt32}
use chungusppc.Common.Int.Division.{
  signed32-wrap_ℤ, quot-rem, IsRemainder, rem_ℤ-IsRemainder, quot_ℤ-FitsInt32, magnitude,
}
use chungusppc.Common.Bits.{bit-bit_or}
use chungusppc.Common.Bits.Shifts.{bit-pow}
use chungusppc.Cpu.State.{State, IsWord, set_gpr}
use chungusppc.Cpu.Decode.{reg_a, reg_b, reg_d}
use chungusppc.Cpu.Flags.{changecrf0, set_so_ov, clear_ov}
use chungusppc.Cpu.Effect.{IsEffect, ov_bits, ov_end}
use chungusppc.Cpu.Arith.Spec.{overflows}
use chungusppc.Cpu.Multiply.{divw, divwu, mullw, differs_from_int32}
use chungusppc.Cpu.Multiply.Laws.{overflow_test}

-- Register rD gets `v`; XER[OV] tells `t` and XER[SO] gathers it, where OE is set.
abbrev pub IsOvWrite : Bool → Bool → ℕ → ℕ → Bool → State → State → Type 0
IsOvWrite rec ov r v t s s' = IsEffect rec r v v (s.spr 0) (ov_bits ov t s) s s'

pub IsOvWrite-end :
    (rec ov t : Bool) (r v : ℕ) (s : State)
    → let s1 = if ov then if t then set_so_ov s else clear_ov s else s in
      IsOvWrite rec ov r v t s (set_gpr (if rec then changecrf0 s1 v else s1) r v)
IsOvWrite-end rec ov t r v s = ov_end r v v (s.spr 0) s s.spr refl refl (λ j p n. refl) rec ov t

-- `mullwo` reports whether the signed product is no `int32_t`, and gives its low word; CR0 describes
-- it where Rc is set, and nothing else changes.
mullw-IsOvWrite :
    (rec ov : Bool) (s : State) (op : ℕ)
    → let product = signed32 (s.gpr (reg_a op)) *ℤ signed32 (s.gpr (reg_b op)) in
      IsOvWrite rec ov (reg_d op) (wrap_ℤ 32 product) (overflows product) s (mullw rec ov s op)
unfolding mullw
mullw-IsOvWrite rec ov s op =
    let product = signed32 (s.gpr (reg_a op)) *ℤ signed32 (s.gpr (reg_b op)) in
    subst (λ t. IsOvWrite rec ov (reg_d op) (wrap_ℤ 32 product) t s (mullw rec ov s op))
      (overflow_test product) (IsOvWrite-end rec ov (differs_from_int32 product) (reg_d op) _ s)

-- The quotient that the architecture leaves undefined.
abbrev pub no_quotient : ℕ → ℕ → Bool
no_quotient a b = b == 0 || (a == 0x8000_0000 && b == 0xffff_ffff)

-- The signed quotient of two words and its remainder, where there is one.
abbrev pub IsQuotient : ℕ → ℕ → ℕ → Type 0
IsQuotient a b v =
    (r : ℤ) × (signed32 v *ℤ signed32 b +ℤ r ≡ signed32 a) × IsRemainder (signed32 a) (signed32 b) r

pub quotient_lem :
    (a b : ℕ)
    → a < 2 ^ 32
    → b < 2 ^ 32
    → no_quotient a b ≡ false
    → IsQuotient a b (wrap_ℤ 32 (quot_ℤ (signed32 a) (signed32 b)))
quotient_lem a b ha hb e =
    let some_divisor : 0 < magnitude (signed32 b) = ground arith in
    let small : FitsInt32 (quot_ℤ (signed32 a) (signed32 b)) =
      quot_ℤ-FitsInt32 (signed32 a) (signed32 b) (ground arith) some_divisor
        (λ p q. ground arith) in
    (
      rem_ℤ (signed32 a) (signed32 b),
      ap (λ z. z *ℤ signed32 b +ℤ rem_ℤ (signed32 a) (signed32 b))
            (signed32-wrap_ℤ (quot_ℤ (signed32 a) (signed32 b)) small)
          ∙ quot-rem (signed32 a) (signed32 b) some_divisor,
      rem_ℤ-IsRemainder (signed32 a) (signed32 b) some_divisor,
    )

module _ (rec ov : Bool) (s : State) (op : ℕ) where
  abbrev rA : ℕ
  rA = s.gpr (reg_a op)

  abbrev rB : ℕ
  rB = s.gpr (reg_b op)

  -- What `divw` gives where there is no quotient.
  abbrev pub divw_special : ℕ
  divw_special =
      if rB == 0
      then if s.is_601 then if is_neg rA then 1 else 0xffff_ffff else 0
      else if s.is_601
      then 0x8000_0000
      else 0

  divw_cases :
      IsOvWrite rec ov
        (reg_d op)
        (if no_quotient rA rB then divw_special else wrap_ℤ 32 (quot_ℤ (signed32 rA) (signed32 rB)))
        (no_quotient rA rB)
        s
        (divw rec ov s op)
  unfolding divw
  divw_cases = elim (Bool-cases (rB == 0)) [
    | inl z ↦ rw z (IsOvWrite-end rec ov true (reg_d op) _ s)
    | inr z ↦ rw z (elim (Bool-cases (rA == 0x8000_0000 && rB == 0xffff_ffff)) [
      | inl t ↦ rw t (IsOvWrite-end rec ov true (reg_d op) _ s)
      | inr t ↦ rw t (IsOvWrite-end rec ov false (reg_d op) _ s)
    ])
  ]

-- On a state of machine words and where rB is not 0 and rA by rB not the least number by -1, `divw`
-- gives the signed quotient that leaves a remainder smaller than rB and of the sign of rA; XER[OV] is
-- cleared where OE is set, CR0 describes the quotient where Rc is set, and nothing else changes.
pub divw-IsQuotient :
    (rec ov : Bool) (s : State) (op : ℕ)
    → IsWord s
    → no_quotient (s.gpr (reg_a op)) (s.gpr (reg_b op)) ≡ false
    → (v : ℕ) × IsQuotient (s.gpr (reg_a op)) (s.gpr (reg_b op)) v
      × IsOvWrite rec ov (reg_d op) v false s (divw rec ov s op)
divw-IsQuotient rec ov s op w e =
    let a = s.gpr (reg_a op) in
    let b = s.gpr (reg_b op) in
    let v = wrap_ℤ 32 (quot_ℤ (signed32 a) (signed32 b)) in
    (
      v,
      quotient_lem a b (w.gpr_lt (reg_a op)) (w.gpr_lt (reg_b op)) e,
      subst
          (λ t.
            IsOvWrite rec ov (reg_d op) (if t then divw_special rec ov s op else v) t s
              (divw rec ov s op))
          e (divw_cases rec ov s op),
    )

-- Where rB is 0 or rA by rB is the least number by -1, `divw` reports the overflow where OE is set, and
-- gives 0, or on a 601 the least number for the overflow, and for rB 0 the value 1 or -1 whose sign is
-- not that of rA; CR0 describes the result where Rc is set, and nothing else changes.
pub divw-undefined :
    (rec ov : Bool) (s : State) (op : ℕ)
    → no_quotient (s.gpr (reg_a op)) (s.gpr (reg_b op)) ≡ true
    → IsOvWrite rec ov (reg_d op) (divw_special rec ov s op) true s (divw rec ov s op)
divw-undefined rec ov s op e =
    let v = wrap_ℤ 32 (quot_ℤ (signed32 (s.gpr (reg_a op))) (signed32 (s.gpr (reg_b op)))) in
    subst
      (λ t.
        IsOvWrite rec ov (reg_d op) (if t then divw_special rec ov s op else v) t s
          (divw rec ov s op))
      e (divw_cases rec ov s op)

-- `divwu` by 0 sets the bit of CR0 for zero before it records the result there.
cr_overwritten :
    (ov : Bool) (r v : ℕ) (s : State)
    → IsOvWrite true ov r v true
        (record s { cr = bit_or s.cr 0x2000_0000 })
        (set_gpr
          (changecrf0 (record (if ov then set_so_ov s else s) { cr = bit_or s.cr 0x2000_0000 }) v)
          r
          v)
    → IsOvWrite true ov r v true s (
        set_gpr
          (changecrf0 (record (if ov then set_so_ov s else s) { cr = bit_or s.cr 0x2000_0000 }) v)
          r
          v)
cr_overwritten ov r v s h = record {
  result = h.result;
  other_gpr = h.other_gpr;
  xer = h.xer;
  mq = h.mq;
  other_spr = h.other_spr;
  cr = λ i g. h.cr i g ∙ ground (arith, bit-bit_or i s.cr (2 ^ 29), bit-pow 29 i);
  keeps = h.keeps;
}

divwu_zero :
    (rec ov : Bool) (r v : ℕ) (s : State)
    → let s1 = if ov then set_so_ov s else s in
      let s2 = if rec then record s1 { cr = bit_or s1.cr 0x2000_0000 } else s1 in
      IsOvWrite rec ov r v true s (set_gpr (if rec then changecrf0 s2 v else s2) r v)
divwu_zero true true r v s =
    cr_overwritten true r v s
      (IsOvWrite-end true true true r v (record s { cr = bit_or s.cr 0x2000_0000 }))
divwu_zero true false r v s =
    cr_overwritten false r v s
      (IsOvWrite-end true false true r v (record s { cr = bit_or s.cr 0x2000_0000 }))
divwu_zero false ov r v s = IsOvWrite-end false ov true r v s

-- `divwu` gives the unsigned quotient, and for rB 0 all ones on a 601 and 0 on the others; XER[OV]
-- tells that rB is 0 where OE is set, CR0 describes the result where Rc is set, and nothing else
-- changes.
divwu-IsOvWrite :
    (rec ov : Bool) (s : State) (op : ℕ)
    → let a = s.gpr (reg_a op) in
      let b = s.gpr (reg_b op) in
      IsOvWrite rec ov
        (reg_d op)
        (if b == 0 then (if s.is_601 then 0xffff_ffff else 0) else a / b)
        (b == 0)
        s
        (divwu rec ov s op)
unfolding divwu
divwu-IsOvWrite rec ov s op = elim (Bool-cases (s.gpr (reg_b op) == 0)) [
  | inl z ↦ rw z (divwu_zero rec ov (reg_d op) (if s.is_601 then 0xffff_ffff else 0) s)
  | inr z ↦ rw z (keep rec)
]
  where
    v : ℕ
    v = s.gpr (reg_a op) / s.gpr (reg_b op)

    keep :
        (rec : Bool)
        → let s1 = if ov then clear_ov s else s in
          let s2 = if rec then s1 else s1 in
          IsOvWrite rec ov
            (reg_d op)
            v
            false
            s
            (set_gpr (if rec then changecrf0 s2 v else s2) (reg_d op) v)
    keep true = IsOvWrite-end true ov false (reg_d op) v s
    keep false = IsOvWrite-end false ov false (reg_d op) v s

-- `mullwo` reports whether the signed product is no `int32_t`, and gives its low word. `divwu` gives the
-- unsigned quotient, and for rB 0 all ones on a 601 and 0 on the others, and reports that rB is 0 where OE is
-- set. CR0 describes the result where Rc is set, and nothing else changes.
pub mullw-divwu-IsOvWrite :
    (rec ov : Bool) (s : State) (op : ℕ)
    → let a = s.gpr (reg_a op) in
      let b = s.gpr (reg_b op) in
      let product = signed32 a *ℤ signed32 b in
      IsOvWrite rec ov (reg_d op) (wrap_ℤ 32 product) (overflows product) s (mullw rec ov s op)
      × IsOvWrite rec ov
          (reg_d op)
          (if b == 0 then (if s.is_601 then 0xffff_ffff else 0) else a / b)
          (b == 0)
          s
          (divwu rec ov s op)
mullw-divwu-IsOvWrite rec ov s op = (mullw-IsOvWrite rec ov s op, divwu-IsOvWrite rec ov s op)

-- On a state of machine words, `divw` gives the signed quotient that leaves a remainder smaller than rB
-- and of the sign of rA, and clears XER[OV] where OE is set. But where rB is 0 or rA by rB is the least
-- number by -1, it reports the overflow where OE is set, and gives 0, or on a 601 the least number for
-- the overflow, and for rB 0 the value 1 or -1 whose sign is not that of rA. CR0 describes the result
-- where Rc is set, and nothing else changes.
pub divw_lem :
    (rec ov : Bool) (s : State) (op : ℕ)
    → IsWord s
    → let a = s.gpr (reg_a op) in
      let b = s.gpr (reg_b op) in
      (v : ℕ) × (if no_quotient a b then v ≡ divw_special rec ov s op else IsQuotient a b v)
      × IsOvWrite rec ov (reg_d op) v (no_quotient a b) s (divw rec ov s op)
divw_lem rec ov s op w =
    let a = s.gpr (reg_a op) in
    let b = s.gpr (reg_b op) in
    elim (Bool-cases (no_quotient a b)) [
      | inl none' ↦ rw none' (divw_special rec ov s op, refl, divw-undefined rec ov s op none')
      | inr some' ↦ rw some' (divw-IsQuotient rec ov s op w some')
    ]
