-- ===== src/Cpu/Power/Overflow.antt =====
-- The POWER instructions on signed numbers: absolute values, differences, products and quotients.
use chungusppc.Common.{
  ℕ, ◌+◌, ◌-◌, ◌*◌, ◌/◌, ◌%◌, ◌^◌, ◌≤◌, ◌<◌, ◌≡◌, refl, arith, Bool, true, false, ◌==◌,
  if◌then◌else◌, truth, ◌&&◌, bit_and, is_neg, neg32, sub32, inl, inr, Bool-cases,
}
use mathlib.Core.Path.{subst, subst₂, subst₃}
use chungusppc.Common.Int.{
  ℤ, pos, negsuc, signed32, wrap_ℤ, shr_ℤ, ◌+ℤ◌, ◌*ℤ◌, ◌-ℤ◌, quot_ℤ, rem_ℤ, ltb_ℤ, pos_part,
  neg_part, FitsInt32,
}
use chungusppc.Common.Int.Division.{
  magnitude, quot-rem, signed32-wrap_ℤ, IsRemainder, rem_ℤ-IsRemainder, quot_ℤ-FitsInt32,
}
use chungusppc.Common.Bits.Step.{bit_and_step}
use chungusppc.Common.Bits.Merge.{bit_and-mask}
use chungusppc.Cpu.State.{State, IsWord, update, set_spr, set_gpr}
use chungusppc.Cpu.Decode.{reg_a, reg_b, reg_d, simm}
use chungusppc.Cpu.Flags.{changecrf0, set_so_ov, clear_ov}
use chungusppc.Cpu.Effect.{IsEffect, ov_bits, ov_end}
use chungusppc.Cpu.Write.{IsWrite, IsWrite-end}
use chungusppc.Cpu.Arith.Spec.{overflows}
use chungusppc.Cpu.Multiply.Division.{IsOvWrite, IsOvWrite-end, no_quotient}
use chungusppc.Cpu.Multiply.Laws.{double_word, words_lem, product_bound, signed32-IsSmall}
use chungusppc.Cpu.Power.{abs, nabs, doz, dozi, mul, divs}

-- The number is put into rD, and XER[OV] tells whether it is no `int32_t`.
abbrev pub IsNumber : Bool → Bool → ℕ → ℤ → State → State → Type 0
IsNumber rec ov r z s s' = IsOvWrite rec ov r (wrap_ℤ 32 z) (overflows z) s s'

IsNumber-end :
    (rec ov t : Bool) (r v : ℕ) (z : ℤ) (s : State)
    → v ≡ wrap_ℤ 32 z
    → t ≡ overflows z
    → let s1 = if ov then if t then set_so_ov s else clear_ov s else s in
      IsNumber rec ov r z s (set_gpr (if rec then changecrf0 s1 v else s1) r v)
IsNumber-end rec ov t r v z s p q =
    let s1 = if ov then if t then set_so_ov s else clear_ov s else s in
    subst₂ (λ x y. IsOvWrite rec ov r x y s (set_gpr (if rec then changecrf0 s1 v else s1) r v)) p q
      (IsOvWrite-end rec ov t r v s)

abbrev pub abs_ℤ : ℤ → ℤ
abs_ℤ z = pos (magnitude z)

-- The difference, or zero if it is negative.
abbrev pub monus_ℤ : ℤ → ℤ → ℤ
monus_ℤ a b = if ltb_ℤ b a then a -ℤ b else pos 0

module _ (a b : ℕ) (ha : a < 2 ^ 32) (hb : b < 2 ^ 32) where
  abs_value :
      (if a == 0x8000_0000 then a else if is_neg a then neg32 a else a)
      ≡ wrap_ℤ 32 (abs_ℤ (signed32 a))
  abs_value = ground arith

  abs_test : (a == 0x8000_0000) ≡ overflows (abs_ℤ (signed32 a))
  abs_test = ground arith

  nabs_value : (if is_neg a then a else neg32 a) ≡ wrap_ℤ 32 (pos 0 -ℤ abs_ℤ (signed32 a))
  unfolding ◌-ℤ◌
  nabs_value = ground arith

  nabs_test : false ≡ overflows (pos 0 -ℤ abs_ℤ (signed32 a))
  unfolding ◌-ℤ◌
  nabs_test = ground arith

  doz_value :
      (if ltb_ℤ (signed32 a) (signed32 b) then sub32 b a else 0)
      ≡ wrap_ℤ 32 (monus_ℤ (signed32 b) (signed32 a))
  unfolding ◌-ℤ◌
  doz_value = ground arith

  doz_test :
      is_neg (if ltb_ℤ (signed32 a) (signed32 b) then sub32 b a else 0)
      ≡ overflows (monus_ℤ (signed32 b) (signed32 a))
  unfolding ◌-ℤ◌
  doz_test = ground arith

  dozi_value :
      (if ltb_ℤ (signed32 b) (signed32 a) then 0 else sub32 b a)
      ≡ wrap_ℤ 32 (monus_ℤ (signed32 b) (signed32 a))
  unfolding ◌-ℤ◌
  dozi_value = ground arith

-- On a state of machine words, `abs` gives the absolute value of the signed rA, `nabs` its negative,
-- `doz` the difference rB - rA or zero if that is negative, and `dozi` that of the immediate, as words;
-- where OE is set, XER[OV] tells whether the number is no `int32_t`; CR0 describes the result where Rc
-- is set, and nothing else changes.
pub differences-IsNumber :
    (rec ov : Bool) (s : State) (op : ℕ)
    → IsWord s
    → let a = signed32 (s.gpr (reg_a op)) in
      let b = signed32 (s.gpr (reg_b op)) in
      IsNumber rec ov (reg_d op) (abs_ℤ a) s (abs rec ov s op)
      × IsNumber rec ov (reg_d op) (pos 0 -ℤ abs_ℤ a) s (nabs rec ov s op)
      × IsNumber rec ov (reg_d op) (monus_ℤ b a) s (doz rec ov s op)
      × IsWrite false (reg_d op) (wrap_ℤ 32 (monus_ℤ (signed32 (simm op)) a)) s (dozi s op)
unfolding abs nabs doz dozi
differences-IsNumber rec ov s op w =
    let a = s.gpr (reg_a op) in
    let b = s.gpr (reg_b op) in
    let ha = w.gpr_lt (reg_a op) in
    let hb = w.gpr_lt (reg_b op) in
    let hi : simm op < 2 ^ 32 = ground arith in
    (
      IsNumber-end rec ov _ (reg_d op) _ (abs_ℤ (signed32 a)) s (abs_value a b ha hb)
          (abs_test a b ha hb),
      IsNumber-end rec ov false (reg_d op) _ _ s (nabs_value a b ha hb) (nabs_test a b ha hb),
      IsNumber-end rec ov _ (reg_d op) _ _ s (doz_value a b ha hb) (doz_test a b ha hb),
      subst (λ v. IsWrite false (reg_d op) v s (dozi s op)) (dozi_value a (simm op) ha hi)
          (IsWrite-end false (reg_d op) _ s),
    )

even_mask : (y : ℕ) → bit_and y (2 ^ 64 - 2) ≡ y / 2 % 2 ^ 63 * 2
even_mask y = omega (arith, bit_and_step y (2 ^ 64 - 2), bit_and-mask 63 (y / 2))

-- The sign word and bit 31 are not all the same.
mul_test :
    (z : ℤ)
    → pos_part z ≤ 2 ^ 63 - 1
    → neg_part z ≤ 2 ^ 63
    → truth (bit_and ((wrap_ℤ 64 (shr_ℤ z 31) + 1) % 2 ^ 64) (2 ^ 64 - 2)) ≡ overflows z
mul_test (pos n) h g = rw (even_mask ((wrap_ℤ 64 (shr_ℤ (pos n) 31) + 1) % 2 ^ 64)) (ground arith)
mul_test (negsuc n) h g =
    rw (even_mask ((wrap_ℤ 64 (shr_ℤ (negsuc n) 31) + 1) % 2 ^ 64)) (ground arith)

mul-IsEffect :
    (rec ov : Bool) (s : State) (op : ℕ)
    → IsWord s
    → let z = signed32 (s.gpr (reg_a op)) *ℤ signed32 (s.gpr (reg_b op)) in
      (hi lo : ℕ) × (double_word hi lo ≡ z)
      × IsEffect rec (reg_d op) hi lo lo (ov_bits ov (overflows z) s) s (mul rec ov s op)
unfolding mul
mul-IsEffect rec ov s op w =
    let a = signed32 (s.gpr (reg_a op)) in
    let b = signed32 (s.gpr (reg_b op)) in
    let z = a *ℤ b in
    let bounds =
      product_bound a b (signed32-IsSmall _ (w.gpr_lt (reg_a op)))
        (signed32-IsSmall _ (w.gpr_lt (reg_b op))) in
    let hi = wrap_ℤ 32 (shr_ℤ z 32) in
    let lo = wrap_ℤ 32 z in
    let test = truth (bit_and ((wrap_ℤ 64 (shr_ℤ z 31) + 1) % 2 ^ 64) (2 ^ 64 - 2)) in
    (
      hi,
      lo,
      words_lem z bounds.0 bounds.1,
      subst (λ t. IsEffect rec (reg_d op) hi lo lo (ov_bits ov t s) s (mul rec ov s op))
          (mul_test z bounds.0 bounds.1)
          (ov_end (reg_d op) hi lo lo s (update s.spr 0 lo) refl refl (λ j p n. ground arith) rec ov
            test),
    )

-- `divs` sets MQ after the register.
mq_after :
    (rec ov t : Bool) (s : State) (r v q : ℕ)
    → let s1 = if ov then if t then set_so_ov s else clear_ov s else s in
      IsEffect rec r v q q
        (ov_bits ov t s)
        s
        (set_spr (set_gpr (if rec then changecrf0 s1 q else s1) r v) 0 q)
mq_after rec ov t s r v q =
    let h = ov_end r v q (s.spr 0) s s.spr refl refl (λ j p n. refl) rec ov t in
    record {
      result = h.result;
      other_gpr = h.other_gpr;
      xer = h.xer;
      mq = refl;
      other_spr = λ j p n. ground (arith, h.other_spr j p n);
      cr = h.cr;
      keeps = h.keeps;
    }

rem_lem :
    (a b : ℕ)
    → a < 2 ^ 32
    → b < 2 ^ 32
    → no_quotient a b ≡ false
    → let q = wrap_ℤ 32 (quot_ℤ (signed32 a) (signed32 b)) in
      let r = wrap_ℤ 32 (rem_ℤ (signed32 a) (signed32 b)) in
      (signed32 q *ℤ signed32 b +ℤ signed32 r ≡ signed32 a)
      × IsRemainder (signed32 a) (signed32 b) (signed32 r)
rem_lem a b ha hb e =
    let x = signed32 a in
    let y = signed32 b in
    let some_divisor : 0 < magnitude y = ground arith in
    let small : FitsInt32 (quot_ℤ x y) =
      quot_ℤ-FitsInt32 x y (ground arith) some_divisor (λ p q. ground arith) in
    let is_rem = rem_ℤ-IsRemainder x y some_divisor in
    let bounded : magnitude y ≤ 2 ^ 31 = ground arith in
    let same : signed32 (wrap_ℤ 32 (rem_ℤ x y)) ≡ rem_ℤ x y =
      signed32-wrap_ℤ (rem_ℤ x y) (omega (arith, is_rem.0), omega (arith, is_rem.0)) in
    rw (signed32-wrap_ℤ (quot_ℤ x y) small, same) (quot-rem x y some_divisor, is_rem)

module _ (rec ov : Bool) (s : State) (op : ℕ) where
  abbrev rA : ℕ
  rA = s.gpr (reg_a op)

  abbrev rB : ℕ
  rB = s.gpr (reg_b op)

  abbrev divs_quotient : ℕ
  divs_quotient =
      if rB == 0
      then 0xffff_ffff
      else if rA == 0x8000_0000 && rB == 0xffff_ffff
      then 0x8000_0000
      else wrap_ℤ 32 (quot_ℤ (signed32 rA) (signed32 rB))

  abbrev divs_remainder : ℕ
  divs_remainder =
      if rB == 0
      then rA
      else if rA == 0x8000_0000 && rB == 0xffff_ffff
      then 0
      else wrap_ℤ 32 (rem_ℤ (signed32 rA) (signed32 rB))

  divs_lem :
      IsEffect rec
        (reg_d op)
        divs_quotient
        divs_remainder
        divs_remainder
        (ov_bits ov (no_quotient rA rB) s)
        s
        (divs rec ov s op)
  unfolding divs
  divs_lem = elim (Bool-cases (rB == 0)) [
    | inl z ↦ rw z (mq_after rec ov true s (reg_d op) 0xffff_ffff rA)
    | inr z ↦ rw z (elim (Bool-cases (rA == 0x8000_0000 && rB == 0xffff_ffff)) [
      | inl t ↦ rw t (mq_after rec ov true s (reg_d op) 0x8000_0000 0)
      | inr t ↦ rw t (mq_after rec ov false s (reg_d op) _ _)
    ])
  ]

divs-IsEffect :
    (rec ov : Bool) (s : State) (op : ℕ)
    → IsWord s
    → no_quotient (s.gpr (reg_a op)) (s.gpr (reg_b op)) ≡ false
    → let a = signed32 (s.gpr (reg_a op)) in
      let b = signed32 (s.gpr (reg_b op)) in
      (q r : ℕ) × (signed32 q *ℤ b +ℤ signed32 r ≡ a)
      × IsRemainder a b (signed32 r)
      × IsEffect rec (reg_d op) q r r (ov_bits ov false s) s (divs rec ov s op)
divs-IsEffect rec ov s op w e =
    let a = s.gpr (reg_a op) in
    let b = s.gpr (reg_b op) in
    let q = wrap_ℤ 32 (quot_ℤ (signed32 a) (signed32 b)) in
    let r = wrap_ℤ 32 (rem_ℤ (signed32 a) (signed32 b)) in
    let law = rem_lem a b (w.gpr_lt (reg_a op)) (w.gpr_lt (reg_b op)) e in
    let some_divisor : (b == 0) ≡ false = ground arith in
    let not_least : (a == 0x8000_0000 && b == 0xffff_ffff) ≡ false = ground arith in
    let quotient : divs_quotient rec ov s op ≡ q = rw (some_divisor, not_least) refl in
    let remainder : divs_remainder rec ov s op ≡ r = rw (some_divisor, not_least) refl in
    (
      q,
      r,
      law.0,
      law.1,
      subst₃ (λ x y t. IsEffect rec (reg_d op) x y y (ov_bits ov t s) s (divs rec ov s op)) quotient
          remainder e (divs_lem rec ov s op),
    )

-- What `divs` gives: the quotient and its remainder, or where there is none the values that the source
-- chooses.
abbrev pub DivsGives : ℕ → ℕ → ℕ → ℕ → Type 0
DivsGives a b q r =
    if no_quotient a b
    then (q ≡ (if b == 0 then 0xffff_ffff else 0x8000_0000)) × (r ≡ (if b == 0 then a else 0))
    else (signed32 q *ℤ signed32 b +ℤ signed32 r ≡ signed32 a)
      × IsRemainder (signed32 a) (signed32 b) (signed32 r)

divs-special :
    (rec ov : Bool) (s : State) (op : ℕ)
    → no_quotient (s.gpr (reg_a op)) (s.gpr (reg_b op)) ≡ true
    → let a = s.gpr (reg_a op) in
      let b = s.gpr (reg_b op) in
      (divs_quotient rec ov s op ≡ (if b == 0 then 0xffff_ffff else 0x8000_0000))
      × (divs_remainder rec ov s op ≡ (if b == 0 then a else 0))
divs-special rec ov s op e = (ground (arith, e), ground (arith, e))

-- On a state of machine words, `mul` gives the high word of the signed product of rA and rB, and its
-- low word in MQ; where OE is set, XER[OV] tells whether the product is no `int32_t`; CR0 describes the
-- low word. `divs` gives the signed quotient and, in MQ, its remainder, which is smaller than rB and of
-- the sign of rA, and clears XER[OV] where OE is set. Where rB is 0 it gives -1 and rA, and for the
-- least number by -1 the least number and 0, and reports the overflow where OE is set. CR0 describes
-- the remainder. Both write CR0 where Rc is set, and change nothing else.
pub mul-divs-IsEffect :
    (rec ov : Bool) (s : State) (op : ℕ)
    → IsWord s
    → let a = s.gpr (reg_a op) in
      let b = s.gpr (reg_b op) in
      let product = signed32 a *ℤ signed32 b in
      ((hi lo : ℕ) × (double_word hi lo ≡ product)
        × IsEffect rec (reg_d op) hi lo lo (ov_bits ov (overflows product) s) s (mul rec ov s op))
      × ((q r : ℕ) × DivsGives a b q r
          × IsEffect rec (reg_d op) q r r (ov_bits ov (no_quotient a b) s) s (divs rec ov s op))
mul-divs-IsEffect rec ov s op w =
    let a = s.gpr (reg_a op) in
    let b = s.gpr (reg_b op) in
    (
      mul-IsEffect rec ov s op w,
      elim (Bool-cases (no_quotient a b)) [
        | inl none' ↦ rw none' (
          divs_quotient rec ov s op,
          divs_remainder rec ov s op,
          divs-special rec ov s op none',
          subst
              (λ t.
                IsEffect rec (reg_d op) (divs_quotient rec ov s op) (divs_remainder rec ov s op)
                  (divs_remainder rec ov s op) (ov_bits ov t s) s (divs rec ov s op))
              none' (divs_lem rec ov s op),
        )
        | inr some' ↦
            let (q, r, law, small, effect) = divs-IsEffect rec ov s op w some' in
            rw some' (q, r, (law, small), effect)
      ],
    )
