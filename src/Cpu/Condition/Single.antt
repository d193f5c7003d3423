-- ===== src/Cpu/Condition/Single.antt =====
-- The eight instructions that combine two bits of the condition register into a third.
use chungusppc.Common.{
  ℕ, ◌+◌, ◌-◌, ◌/◌, ◌^◌, ◌<◌, ◌≡◌, refl, ap, sym, ◌∙◌, arith, Bool, true, false, ◌==◌,
  if◌then◌else◌, bit, truth, to_nat, ◌&&◌, ◌||◌, not,
}
use chungusppc.Common.{bit_and, bit_or, bit_xor, u8, not32}
use mathlib.Core.Path.{subst, ap₂}
use native.Mathlib.Nat.{mul-div_left, div-le_self}
use chungusppc.Common.Bits.{bit-bit_or, bit-bit_and, bit-bit_xor}
use chungusppc.Common.Bits.Shifts.{bit_and-pow, bit-shr, bit-pow, pow-add, two-pow-pos}
use chungusppc.Common.Bits.Bounds.{bit_and-lt_right}
use chungusppc.Common.Bits.Merge.{bit_and-mask, bit_clear}
use chungusppc.Cpu.State.{State}
use chungusppc.Cpu.Decode.{reg_a, reg_b, reg_d}
use chungusppc.Cpu.Logic.{LogicalFun}
use chungusppc.Cpu.Logic.Laws.{truth_table}
use chungusppc.Cpu.Condition.{
  set_cr_bit, clear_cr_bit, crand, crandc, creqv, crnand, crnor, cror, crorc, crxor,
}

-- The instruction for each function of two bits.
abbrev pub cr_logical : LogicalFun → State → ℕ → State
cr_logical LogicalFun.and = crand
cr_logical LogicalFun.andc = crandc
cr_logical LogicalFun.eqv = creqv
cr_logical LogicalFun.nand = crnand
cr_logical LogicalFun.nor = crnor
cr_logical LogicalFun.or = cror
cr_logical LogicalFun.orc = crorc
cr_logical LogicalFun.xor = crxor

-- The bit of the condition register that PowerPC numbers `r`.
abbrev pub cr_flag : State → ℕ → Bool
cr_flag s r = bit s.cr (31 - r) == 1

-- `s'` is `s` with that bit set or cleared.
pub record IsBitWrite (r : ℕ) (v : Bool) (s s' : State) : Type 0 where
  pub cr : (i : ℕ) → i < 32 → bit s'.cr i ≡ (if i == 31 - r then to_nat v else bit s.cr i)
  pub rest : s' ≡ record s { cr = s'.cr }

pub top_shift : (r : ℕ) → r < 32 → 0x8000_0000 / 2 ^ r ≡ 2 ^ (31 - r)
top_shift r h =
    let whole : 31 - r + r ≡ 31 = omega arith in
    ap (λ t. 2 ^ t / 2 ^ r) (sym whole)
    ∙ ap (λ t. t / 2 ^ r) (pow-add (31 - r) r)
    ∙ mul-div_left (2 ^ (31 - r)) (two-pow-pos r)

set_cr_bit-IsBitWrite : (s : State) (r : ℕ) → r < 32 → IsBitWrite r true s (set_cr_bit s r)
unfolding set_cr_bit
set_cr_bit-IsBitWrite s r h = record {
  cr = λ i g.
      ap (λ m. bit (bit_or s.cr m) i) (top_shift r h)
      ∙ ground (arith, bit-bit_or i s.cr (2 ^ (31 - r)), bit-pow (31 - r) i);
  rest = refl;
}

clear_cr_bit-IsBitWrite : (s : State) (r : ℕ) → r < 32 → IsBitWrite r false s (clear_cr_bit s r)
unfolding clear_cr_bit
clear_cr_bit-IsBitWrite s r h =
    let small : 2 ^ (31 - r) < 2 ^ 32 =
      omega (arith, ap (λ (t : ℕ). t) (top_shift r h), div-le_self 0x8000_0000 (2 ^ r)) in
    record {
      cr = λ i g.
          ap (λ m. bit (bit_and s.cr (not32 m)) i) (top_shift r h)
          ∙ ground (arith, bit_clear s.cr (2 ^ (31 - r)) i small g, bit-pow (31 - r) i);
      rest = refl;
    }

-- The way the code writes a bit.
put_bit-IsBitWrite :
    (s : State) (r : ℕ) (v : Bool)
    → r < 32
    → IsBitWrite r v s (if v then set_cr_bit s r else clear_cr_bit s r)
put_bit-IsBitWrite s r true h = set_cr_bit-IsBitWrite s r h
put_bit-IsBitWrite s r false h = clear_cr_bit-IsBitWrite s r h

swapped : (v : Bool) (p q : State) → (if v then p else q) ≡ (if not v then q else p)
swapped true p q = refl
swapped false p q = refl

-- Both ways in which the code reads a bit.
low_bit : (x : ℕ) → truth (bit_and (u8 x) 1) ≡ (bit x 0 == 1)
low_bit x = ground (arith, bit_and-mask 1 (u8 x))

pub masked_bit :
    (s : State) (r : ℕ) → r < 32 → truth (bit_and s.cr (0x8000_0000 / 2 ^ r)) ≡ cr_flag s r
masked_bit s r h =
    ap (λ m. truth (bit_and s.cr m)) (top_shift r h)
    ∙ ground (arith, bit_and-pow (31 - r) s.cr, two-pow-pos (31 - r))

shifted_bit : (x k : ℕ) → bit (x / 2 ^ k) 0 ≡ bit x k
shifted_bit x k = let index : k + 0 ≡ k = omega arith in bit-shr x k 0 ∙ ap (bit x) index

module _ (s : State) (a b : ℕ) where
  abbrev reads : (ℕ → ℕ → ℕ) → Bool
  reads f = truth (bit_and (u8 (f (s.cr / 2 ^ (31 - a)) (s.cr / 2 ^ (31 - b)))) 1)

  read_and : reads bit_and ≡ (cr_flag s a && cr_flag s b)
  read_and =
      low_bit _
      ∙ ground (
        arith,
        bit-bit_and 0 (s.cr / 2 ^ (31 - a)) (s.cr / 2 ^ (31 - b)),
        shifted_bit s.cr (31 - a),
        shifted_bit s.cr (31 - b),
      )

  read_or : reads bit_or ≡ (cr_flag s a || cr_flag s b)
  read_or =
      low_bit _
      ∙ ground (
        arith,
        bit-bit_or 0 (s.cr / 2 ^ (31 - a)) (s.cr / 2 ^ (31 - b)),
        shifted_bit s.cr (31 - a),
        shifted_bit s.cr (31 - b),
      )

  read_xor : reads bit_xor ≡ (if cr_flag s a then not (cr_flag s b) else cr_flag s b)
  read_xor =
      low_bit _
      ∙ ground (
        arith,
        bit-bit_xor 0 (s.cr / 2 ^ (31 - a)) (s.cr / 2 ^ (31 - b)),
        shifted_bit s.cr (31 - a),
        shifted_bit s.cr (31 - b),
      )

  put_value :
      (r : ℕ) (t v : Bool)
      → r < 32
      → t ≡ v
      → IsBitWrite r v s (if t then set_cr_bit s r else clear_cr_bit s r)
  put_value r t v h e =
      subst (λ x. IsBitWrite r x s (if t then set_cr_bit s r else clear_cr_bit s r)) e
        (put_bit-IsBitWrite s r t h)

  put_swapped :
      (r : ℕ) (t v : Bool)
      → r < 32
      → not t ≡ v
      → IsBitWrite r v s (if t then clear_cr_bit s r else set_cr_bit s r)
  put_swapped r t v h e =
      subst (IsBitWrite r v s) (sym (swapped t (clear_cr_bit s r) (set_cr_bit s r)))
        (put_value r (not t) v h e)

not_xor : (x y : Bool) → not (if x then not y else y) ≡ (if x then y else not y)
not_xor true true = refl
not_xor true false = refl
not_xor false true = refl
not_xor false false = refl

field-lt : (x : ℕ) → bit_and x 0x1f < 32
field-lt x = bit_and-lt_right 5 x 0x1f (omega arith)

-- Each of the eight instructions writes one bit of the condition register, as its truth table says
-- of the two bits that it reads, and changes nothing else.
pub cr_logical-IsBitWrite :
    (f : LogicalFun) (s : State) (op : ℕ)
    → IsBitWrite
        (reg_d op)
        (truth_table f (cr_flag s (reg_a op)) (cr_flag s (reg_b op)))
        s
        (cr_logical f s op)
unfolding crand crandc creqv crnand crnor cror crorc crxor
cr_logical-IsBitWrite LogicalFun.and s op =
    put_value s (reg_a op) (reg_b op) (reg_d op) _ _ (field-lt _) (read_and s _ _)
cr_logical-IsBitWrite LogicalFun.andc s op =
    let a = masked_bit s (reg_a op) (field-lt _) in
    let b = masked_bit s (reg_b op) (field-lt _) in
    put_value s (reg_a op) (reg_b op) (reg_d op) _ _ (field-lt _) (ap₂ (λ x y. x && not y) a b)
cr_logical-IsBitWrite LogicalFun.eqv s op =
    put_swapped s (reg_a op) (reg_b op) (reg_d op) _ _ (field-lt _)
      (ap not (read_xor s _ _) ∙ not_xor (cr_flag s (reg_a op)) (cr_flag s (reg_b op)))
cr_logical-IsBitWrite LogicalFun.nand s op =
    put_swapped s (reg_a op) (reg_b op) (reg_d op) _ _ (field-lt _) (ap not (read_and s _ _))
cr_logical-IsBitWrite LogicalFun.nor s op =
    put_swapped s (reg_a op) (reg_b op) (reg_d op) _ _ (field-lt _) (ap not (read_or s _ _))
cr_logical-IsBitWrite LogicalFun.or s op =
    put_value s (reg_a op) (reg_b op) (reg_d op) _ _ (field-lt _) (read_or s _ _)
cr_logical-IsBitWrite LogicalFun.orc s op =
    let a = masked_bit s (reg_a op) (field-lt _) in
    let b = masked_bit s (reg_b op) (field-lt _) in
    put_value s (reg_a op) (reg_b op) (reg_d op) _ _ (field-lt _) (ap₂ (λ x y. x || not y) a b)
cr_logical-IsBitWrite LogicalFun.xor s op =
    put_value s (reg_a op) (reg_b op) (reg_d op) _ _ (field-lt _) (read_xor s _ _)
