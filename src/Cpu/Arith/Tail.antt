-- ===== src/Cpu/Arith/Tail.antt =====
-- The common end of the adding instructions: the flags, CR0 and the destination register.
use chungusppc.Common.{
  ℕ, ◌+◌, ◌/◌, ◌%◌, ◌^◌, ◌<◌, ◌≡◌, ◌≢◌, refl, ap, sym, ◌∙◌, arith, Bool, true, false, to_nat,
}
use chungusppc.Common.{if◌then◌else◌, bit, bit_and, bit_or, bit_xor, is_neg, u32, max}
use mathlib.Core.Path.{subst}
use chungusppc.Common.Bits.{bit-bit_or}
use chungusppc.Common.Bits.Shifts.{bit-pow}
use chungusppc.Common.Bits.Merge.{bit_clear}
use chungusppc.Cpu.State.{State, set_gpr}
use chungusppc.Cpu.Flags.{changecrf0, carry, setsoov, set_so_ov, clear_ov}
use chungusppc.Cpu.Flags.Bits.{
  xer_bit, ov_bit, cr0_bit, carry-xer_bit, setsoov-xer_bit, changecrf0-cr0_bit,
}
use chungusppc.Cpu.Arith.Spec.{IsSum, sum_overflows}

-- The destination register and CR0, once the special registers `f` are right.
IsSum-end :
    (wc rec ov : Bool) (a b c d l : ℕ) (s : State) (f : ℕ → ℕ)
    → l ≡ a + b + c
    → bit (f 1) 29 ≡ (if wc then (a + b + c) / 2 ^ 32 else xer_bit s 29)
    → bit (f 1) 30 ≡ (if ov then to_nat (sum_overflows a b c) else xer_bit s 30)
    → bit (f 1) 31
      ≡ (if ov then max (xer_bit s 31) (to_nat (sum_overflows a b c)) else xer_bit s 31)
    → ((i : ℕ) → i < 29 → bit (f 1) i ≡ xer_bit s i)
    → ((r : ℕ) → r ≢ 1 → f r ≡ s.spr r)
    → let s2 = record s { spr = f } in
      IsSum wc rec ov a b c d s (set_gpr (if rec then changecrf0 s2 (u32 l) else s2) d (u32 l))
unfolding changecrf0
IsSum-end wc true ov a b c d l s f e ca vo so rest other = record {
  result = ground (arith, e);
  other_gpr = λ r ne. ground arith;
  xer_ca = ca;
  xer_ov = vo;
  xer_so = so;
  xer_rest = rest;
  other_spr = other;
  cr = λ i h.
      changecrf0-cr0_bit (record s { spr = f }) (u32 l) i h
      ∙ ap (λ t. cr0_bit s.cr (bit (f 1) 31) (t % 2 ^ 32) i) e;
  keeps = (refl, refl, refl, refl, refl, refl);
}
IsSum-end wc false ov a b c d l s f e ca vo so rest other = record {
  result = ground (arith, e);
  other_gpr = λ r ne. ground arith;
  xer_ca = ca;
  xer_ov = vo;
  xer_so = so;
  xer_rest = rest;
  other_spr = other;
  cr = λ i h. refl;
  keeps = (refl, refl, refl, refl, refl, refl);
}

pub IsSum-soov :
    (wc rec ov : Bool) (a b c d l x y : ℕ) (s : State)
    → l ≡ a + b + c
    → a + b + c < 2 ^ 33
    → is_neg (bit_and (bit_xor x y) (bit_xor x (u32 l))) ≡ sum_overflows a b c
    → let s1 = if wc then carry s l else s in
      let s2 = if ov then setsoov s1 x y (u32 l) else s1 in
      let s3 = if rec then changecrf0 s2 (u32 l) else s2 in
      IsSum wc rec ov a b c d s (set_gpr s3 d (u32 l))
unfolding carry setsoov
IsSum-soov true rec true a b c d l x y s e small o =
    IsSum-end true rec true a b c d l s (setsoov (carry s l) x y (u32 l)).spr e
      (ground (
        arith,
        setsoov-xer_bit (carry s l) x y (u32 l) 29 (omega arith),
        carry-xer_bit s l 29 (omega arith),
      ))
      (ground (
        arith,
        setsoov-xer_bit (carry s l) x y (u32 l) 30 (omega arith),
        carry-xer_bit s l 30 (omega arith),
      ))
      (ground (
        arith,
        setsoov-xer_bit (carry s l) x y (u32 l) 31 (omega arith),
        carry-xer_bit s l 31 (omega arith),
      ))
      (λ i h. ground (
        arith,
        setsoov-xer_bit (carry s l) x y (u32 l) i (omega arith),
        carry-xer_bit s l i (omega arith),
      ))
      (λ r ne. ground arith)
IsSum-soov true rec false a b c d l x y s e small o =
    IsSum-end true rec false a b c d l s (carry s l).spr e
      (ground (arith, carry-xer_bit s l 29 (omega arith)))
      (ground (arith, carry-xer_bit s l 30 (omega arith)))
      (ground (arith, carry-xer_bit s l 31 (omega arith)))
      (λ i h. ground (arith, carry-xer_bit s l i (omega arith))) (λ r ne. ground arith)
IsSum-soov false rec true a b c d l x y s e small o =
    IsSum-end false rec true a b c d l s (setsoov s x y (u32 l)).spr e
      (ground (arith, setsoov-xer_bit s x y (u32 l) 29 (omega arith)))
      (ground (arith, setsoov-xer_bit s x y (u32 l) 30 (omega arith)))
      (ground (arith, setsoov-xer_bit s x y (u32 l) 31 (omega arith)))
      (λ i h. ground (arith, setsoov-xer_bit s x y (u32 l) i (omega arith))) (λ r ne. ground arith)
IsSum-soov false rec false a b c d l x y s e small o =
    IsSum-end false rec false a b c d l s s.spr e (ground (arith)) (ground (arith)) (ground (arith))
      (λ i h. ground (arith)) (λ r ne. ground arith)

-- XER after an instruction that sets SO and OV, or clears OV, by a test.
pub test_ov : Bool → State → State
test_ov t s = if t then set_so_ov s else clear_ov s

pub test_ov-spr : (t : Bool) (s : State) (r : ℕ) → r ≢ 1 → (test_ov t s).spr r ≡ s.spr r
unfolding test_ov
test_ov-spr t s r ne = ground arith

pub test_ov-xer_bit :
    (t : Bool) (s : State) (i : ℕ) → i < 32 → xer_bit (test_ov t s) i ≡ ov_bit s t i
unfolding test_ov
test_ov-xer_bit true s i h = ground (
  arith,
  bit-bit_or i (s.spr 1) (bit_or (2 ^ 31) (2 ^ 30)),
  bit-bit_or i (2 ^ 31) (2 ^ 30),
  bit-pow 30 i,
  bit-pow 31 i,
)
test_ov-xer_bit false s i h =
    ground (arith, bit_clear (s.spr 1) (2 ^ 30) i (omega arith) h, bit-pow 30 i)

test_ov-record : (t : Bool) (s : State) → test_ov t s ≡ record s { spr = (test_ov t s).spr }
unfolding test_ov
test_ov-record true s = refl
test_ov-record false s = refl

pub IsSum-test :
    (wc rec ov t : Bool) (a b c d l : ℕ) (s : State)
    → l ≡ a + b + c
    → a + b + c < 2 ^ 33
    → t ≡ sum_overflows a b c
    → let s1 = if wc then carry s l else s in
      let s2 = if ov then (if t then set_so_ov s1 else clear_ov s1) else s1 in
      let s3 = if rec then changecrf0 s2 (u32 l) else s2 in
      IsSum wc rec ov a b c d s (set_gpr s3 d (u32 l))
unfolding carry test_ov
IsSum-test true rec true t a b c d l s e small o =
    let f = (test_ov t (carry s l)).spr in
    let whole =
      IsSum-end true rec true a b c d l s f e
        (ground (
          arith,
          test_ov-xer_bit t (carry s l) 29 (omega arith),
          carry-xer_bit s l 29 (omega arith),
        ))
        (ground (
          arith,
          test_ov-xer_bit t (carry s l) 30 (omega arith),
          carry-xer_bit s l 30 (omega arith),
        ))
        (ground (
          arith,
          test_ov-xer_bit t (carry s l) 31 (omega arith),
          carry-xer_bit s l 31 (omega arith),
        ))
        (λ i h.
          ground (
            arith,
            test_ov-xer_bit t (carry s l) i (omega arith),
            carry-xer_bit s l i (omega arith),
          ))
        (λ r ne. ground (arith, test_ov-spr t (carry s l) r ne)) in
    subst
      (λ z.
        IsSum true rec true a b c d s (set_gpr (if rec then changecrf0 z (u32 l) else z) d (u32 l)))
      (sym (test_ov-record t (carry s l))) whole
IsSum-test true rec false t a b c d l s e small o =
    IsSum-end true rec false a b c d l s (carry s l).spr e
      (ground (arith, carry-xer_bit s l 29 (omega arith)))
      (ground (arith, carry-xer_bit s l 30 (omega arith)))
      (ground (arith, carry-xer_bit s l 31 (omega arith)))
      (λ i h. ground (arith, carry-xer_bit s l i (omega arith))) (λ r ne. ground arith)
IsSum-test false rec true t a b c d l s e small o =
    let f = (test_ov t s).spr in
    let whole =
      IsSum-end false rec true a b c d l s f e
        (ground (arith, test_ov-xer_bit t s 29 (omega arith)))
        (ground (arith, test_ov-xer_bit t s 30 (omega arith)))
        (ground (arith, test_ov-xer_bit t s 31 (omega arith)))
        (λ i h. ground (arith, test_ov-xer_bit t s i (omega arith)))
        (λ r ne. ground (arith, test_ov-spr t s r ne)) in
    subst
      (λ z.
        IsSum false rec true a b c d s
          (set_gpr (if rec then changecrf0 z (u32 l) else z) d (u32 l)))
      (sym (test_ov-record t s)) whole
IsSum-test false rec false t a b c d l s e small o =
    IsSum-end false rec false a b c d l s s.spr e (ground (arith)) (ground (arith)) (ground (arith))
      (λ i h. ground (arith)) (λ r ne. ground arith)
