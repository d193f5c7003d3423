-- ===== src/Cpu/Arith/Sums.antt =====
-- The adding and subtracting instructions meet their specification.
use chungusppc.Common.{
  ℕ, ◌+◌, ◌%◌, ◌^◌, ◌≤◌, ◌<◌, ◌≡◌, refl, ap, ◌∙◌, arith, Bool, true, false, not, ◌&&◌, truth,
}
use chungusppc.Common.{◌==◌, bit, bit_and, bit_xor, is_neg, u32, min, not32}
use chungusppc.Common.Int.{◌+ℤ◌}
use chungusppc.Cpu.State.{State, IsWord}
use chungusppc.Cpu.Decode.{reg_a, reg_b, reg_d, simm}
use chungusppc.Cpu.Flags.{xer_ca}
use chungusppc.Cpu.Flags.Bits.{overflow_sign}
use chungusppc.Cpu.Arith.{add, adde, addme, addze, subf, subfe, subfme, subfze, neg, addic, subfic}
use chungusppc.Cpu.Arith.Spec.{IsSum, sum_overflows}
use chungusppc.Cpu.Arith.Tail.{IsSum-soov, IsSum-test}

abbrev same_sign_overflow : ℕ → ℕ → ℕ → Bool
same_sign_overflow a b d = min ((bit a 31 + bit b 31) % 2) ((bit a 31 + bit d 31) % 2) == 1

-- The sign test of `ppc_setsoov` on the operand `a`, the complement of the other and the sum.
signs_add :
    (a b c : ℕ)
    → a < 2 ^ 32
    → b < 2 ^ 32
    → c ≤ 1
    → same_sign_overflow a (not32 b) ((a + b + c) % 2 ^ 32) ≡ sum_overflows a b c
unfolding ◌+ℤ◌
signs_add a b c ha hb hc = ground arith

soov_add :
    (a b c : ℕ)
    → a < 2 ^ 32
    → b < 2 ^ 32
    → c ≤ 1
    → (l : ℕ) → l ≡ a + b + c
    → is_neg (bit_and (bit_xor a (not32 b)) (bit_xor a (u32 l))) ≡ sum_overflows a b c
soov_add a b c ha hb hc l e =
    overflow_sign a (not32 b) (u32 l) ha (omega arith)
    ∙ ap (λ t. same_sign_overflow a (not32 b) (t % 2 ^ 32)) e
    ∙ signs_add a b c ha hb hc

xer_ca-le : (s : State) → xer_ca s ≤ 1
xer_ca-le s = ground arith

-- `subf` hands the overflow test the minuend and the complement of what is added to it.
soov_sub :
    (a b c : ℕ)
    → a < 2 ^ 32
    → b < 2 ^ 32
    → c ≤ 1
    → (l : ℕ) → l ≡ not32 a + b + c
    → is_neg (bit_and (bit_xor b a) (bit_xor b (u32 l))) ≡ sum_overflows (not32 a) b c
unfolding ◌+ℤ◌
soov_sub a b c ha hb hc l e =
    overflow_sign b a (u32 l) hb ha ∙ ap (λ t. same_sign_overflow b a (t % 2 ^ 32)) e ∙ ground arith

module _ (s : State) (op : ℕ) (w : IsWord s) where
  abbrev rA : ℕ
  rA = s.gpr (reg_a op)

  abbrev rB : ℕ
  rB = s.gpr (reg_b op)

  pub add-IsSum : (wc rec ov : Bool) → IsSum wc rec ov rA rB 0 (reg_d op) s (add wc rec ov s op)
  unfolding add
  add-IsSum wc rec ov =
      let ha = w.gpr_lt (reg_a op) in
      let hb = w.gpr_lt (reg_b op) in
      let e : rA + rB ≡ rA + rB + 0 = omega arith in
      IsSum-soov wc rec ov rA rB 0 (reg_d op) (rA + rB) rA (not32 rB) s e (omega arith)
        (soov_add rA rB 0 ha hb (omega arith) (rA + rB) e)

  pub adde-IsSum :
      (rec ov : Bool) → IsSum true rec ov rA rB (xer_ca s) (reg_d op) s (adde rec ov s op)
  unfolding adde
  adde-IsSum rec ov =
      let ha = w.gpr_lt (reg_a op) in
      let hb = w.gpr_lt (reg_b op) in
      let hc = xer_ca-le s in
      IsSum-soov true rec ov rA rB (xer_ca s) (reg_d op) (rA + rB + xer_ca s) rA (not32 rB) s refl
        (omega arith) (soov_add rA rB (xer_ca s) ha hb hc _ refl)

  pub addme-IsSum :
      (rec ov : Bool) → IsSum true rec ov rA 0xffff_ffff (xer_ca s) (reg_d op) s (addme rec ov s op)
  unfolding addme
  addme-IsSum rec ov =
      let ha = w.gpr_lt (reg_a op) in
      let hc = xer_ca-le s in
      let e : rA + xer_ca s + 0xffff_ffff ≡ rA + 0xffff_ffff + xer_ca s = omega arith in
      IsSum-soov true rec ov rA 0xffff_ffff (xer_ca s) (reg_d op) _ rA 0 s e (omega arith)
        (soov_add rA 0xffff_ffff (xer_ca s) ha (omega arith) hc _ e)

  pub addze-IsSum :
      (rec ov : Bool) → IsSum true rec ov rA 0 (xer_ca s) (reg_d op) s (addze rec ov s op)
  unfolding addze
  addze-IsSum rec ov =
      let ha = w.gpr_lt (reg_a op) in
      let hc = xer_ca-le s in
      let e : rA + xer_ca s ≡ rA + 0 + xer_ca s = omega arith in
      IsSum-soov true rec ov rA 0 (xer_ca s) (reg_d op) _ rA 0xffff_ffff s e (omega arith)
        (soov_add rA 0 (xer_ca s) ha (omega arith) hc _ e)

  pub subf-IsSum :
      (wc rec ov : Bool) → IsSum wc rec ov (not32 rA) rB 1 (reg_d op) s (subf wc rec ov s op)
  unfolding subf
  subf-IsSum wc rec ov =
      let ha = w.gpr_lt (reg_a op) in
      let hb = w.gpr_lt (reg_b op) in
      IsSum-soov wc rec ov (not32 rA) rB 1 (reg_d op) (not32 rA + rB + 1) rB rA s refl (omega arith)
        (soov_sub rA rB 1 ha hb (omega arith) _ refl)

  pub subfe-IsSum :
      (rec ov : Bool) → IsSum true rec ov (not32 rA) rB (xer_ca s) (reg_d op) s (subfe rec ov s op)
  unfolding subfe
  subfe-IsSum rec ov =
      let ha = w.gpr_lt (reg_a op) in
      let hb = w.gpr_lt (reg_b op) in
      let hc = xer_ca-le s in
      IsSum-soov true rec ov (not32 rA) rB (xer_ca s) (reg_d op) _ rB rA s refl (omega arith)
        (soov_sub rA rB (xer_ca s) ha hb hc _ refl)

subfme_test :
    (a c : ℕ)
    → a < 2 ^ 32
    → c ≤ 1
    → let d = u32 (not32 a + c + 0xffff_ffff) in
      (d == a && (not (is_neg d) && not (d == 0))) ≡ sum_overflows (not32 a) 0xffff_ffff c
unfolding ◌+ℤ◌
subfme_test a c h hc = ground arith

subfze_test :
    (a c : ℕ)
    → a < 2 ^ 32
    → c ≤ 1
    → let d = u32 (not32 a + c) in (truth d && d == a) ≡ sum_overflows (not32 a) 0 c
unfolding ◌+ℤ◌
subfze_test a c h hc = ground arith

neg_test : (a : ℕ) → a < 2 ^ 32 → (a == 0x8000_0000) ≡ sum_overflows (not32 a) 0 1
unfolding ◌+ℤ◌
neg_test a h = ground arith

module _ (s : State) (op : ℕ) (w : IsWord s) where
  pub subfme-IsSum :
      (rec ov : Bool)
      → IsSum true rec ov
          (not32 (s.gpr (reg_a op)))
          0xffff_ffff
          (xer_ca s)
          (reg_d op)
          s
          (subfme rec ov s op)
  unfolding subfme
  subfme-IsSum rec ov =
      let a = s.gpr (reg_a op) in
      let ha = w.gpr_lt (reg_a op) in
      let hc = xer_ca-le s in
      IsSum-test true rec ov _ (not32 a) 0xffff_ffff (xer_ca s) (reg_d op) _ s (omega arith)
        (omega arith) (subfme_test a (xer_ca s) ha hc)

  pub subfze-IsSum :
      (rec ov : Bool)
      → IsSum true rec ov (not32 (s.gpr (reg_a op))) 0 (xer_ca s) (reg_d op) s (subfze rec ov s op)
  unfolding subfze
  subfze-IsSum rec ov =
      let a = s.gpr (reg_a op) in
      let ha = w.gpr_lt (reg_a op) in
      let hc = xer_ca-le s in
      IsSum-test true rec ov _ (not32 a) 0 (xer_ca s) (reg_d op) _ s (omega arith) (omega arith)
        (subfze_test a (xer_ca s) ha hc)

  pub neg-IsSum :
      (rec ov : Bool)
      → IsSum false rec ov (not32 (s.gpr (reg_a op))) 0 1 (reg_d op) s (neg rec ov s op)
  unfolding neg
  neg-IsSum rec ov =
      let a = s.gpr (reg_a op) in
      let ha = w.gpr_lt (reg_a op) in
      IsSum-test false rec ov _ (not32 a) 0 1 (reg_d op) _ s (omega arith) (omega arith)
        (neg_test a ha)

  pub addic-IsSum :
      (rec : Bool)
      → IsSum true rec false (s.gpr (reg_a op)) (simm op) 0 (reg_d op) s (addic rec s op)
  unfolding addic
  addic-IsSum rec =
      let ha = w.gpr_lt (reg_a op) in
      IsSum-test true rec false _ (s.gpr (reg_a op)) (simm op) 0 (reg_d op) _ s (omega arith)
        (ground arith) refl

  pub subfic-IsSum :
      IsSum true false false (not32 (s.gpr (reg_a op))) (simm op) 1 (reg_d op) s (subfic s op)
  unfolding subfic
  subfic-IsSum =
      IsSum-test true false false _ (not32 (s.gpr (reg_a op))) (simm op) 1 (reg_d op) _ s refl
        (ground arith) refl
