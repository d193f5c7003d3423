-- ===== src/Cpu/Logic/Immediate.antt =====
-- The instructions with an immediate operand, and the sign extensions.
use chungusppc.Common.{
  ℕ, ◌+◌, ◌-◌, ◌*◌, ◌%◌, ◌^◌, ◌<◌, ◌≡◌, refl, sym, arith, Bool, true, false, ◌==◌, if◌then◌else◌,
  bit, ltb, bit_and, bit_or, bit_xor, u32, sign_extend8, sign_extend16, max, min,
}
use mathlib.Core.Path.{subst}
use chungusppc.Common.Bits.{bit-bit_and, bit-bit_or, bit-bit_xor}
use chungusppc.Common.Bits.Shifts.{bit-shl}
use chungusppc.Common.Int.{ℤ, pos, negsuc, signed32}
use chungusppc.Cpu.State.{State, IsWord, set_gpr}
use chungusppc.Cpu.Decode.{reg_a, reg_d, simm, uimm}
use chungusppc.Cpu.Write.{IsWrite, IsWrite-end}
use chungusppc.Cpu.Arith.{addi}
use chungusppc.Cpu.Multiply.{mulli}
use chungusppc.Cpu.Multiply.Laws.{low_word}
use chungusppc.Cpu.Logic.{andirc, ori, xori, exts}

-- Bit `i` of the immediate field, or of the field shifted into the high half.
abbrev pub field_bit : Bool → ℕ → ℕ → ℕ
field_bit high op i =
    if high then (if ltb i 16 then 0 else bit (op % 2 ^ 16) (i - 16)) else bit (op % 2 ^ 16) i

-- `andi.`, `ori` and `xori` combine rS with the immediate field, and `andis.`, `oris` and `xoris` with
-- the field in the high half, bit by bit, as minimum, maximum and sum modulo 2; `andi.` and `andis.`
-- record the result in CR0, and nothing else changes.
immediates-IsWrite :
    (high : Bool) (s : State) (op : ℕ)
    → let d = s.gpr (reg_d op) in
      let f = field_bit high op in
      ((v : ℕ) × IsWrite true (reg_a op) v s (andirc high s op)
        × ((i : ℕ) → bit v i ≡ min (bit d i) (f i)))
      × ((v : ℕ) × IsWrite false (reg_a op) v s (ori high s op)
          × ((i : ℕ) → bit v i ≡ max (bit d i) (f i)))
      × ((v : ℕ) × IsWrite false (reg_a op) v s (xori high s op)
          × ((i : ℕ) → bit v i ≡ (bit d i + f i) % 2))
unfolding andirc ori xori
immediates-IsWrite true s op =
    let d = s.gpr (reg_d op) in
    let m = uimm op * 2 ^ 16 in
    (
      (
        bit_and d m,
        IsWrite-end true (reg_a op) _ s,
        λ i. ground (arith, bit-bit_and i d m, bit-shl (uimm op) 16 i),
      ),
      (
        bit_or d m,
        IsWrite-end false (reg_a op) _ s,
        λ i. ground (arith, bit-bit_or i d m, bit-shl (uimm op) 16 i),
      ),
      (
        bit_xor d m,
        IsWrite-end false (reg_a op) _ s,
        λ i. ground (arith, bit-bit_xor i d m, bit-shl (uimm op) 16 i),
      ),
    )
immediates-IsWrite false s op =
    let d = s.gpr (reg_d op) in
    let m = uimm op in
    (
      (bit_and d m, IsWrite-end true (reg_a op) _ s, λ i. bit-bit_and i d m),
      (bit_or d m, IsWrite-end false (reg_a op) _ s, λ i. bit-bit_or i d m),
      (bit_xor d m, IsWrite-end false (reg_a op) _ s, λ i. bit-bit_xor i d m),
    )

-- rA, or 0 if the field names register 0.
abbrev pub base_register : State → ℕ → ℕ
base_register s op = if reg_a op == 0 then 0 else s.gpr (reg_a op)

addi_value :
    (high : Bool) (s : State) (op : ℕ)
    → (if high
        then if reg_a op == 0
          then u32 (simm op * 2 ^ 16)
          else u32 (s.gpr (reg_a op) + u32 (simm op * 2 ^ 16))
        else if reg_a op == 0
        then simm op
        else u32 (s.gpr (reg_a op) + simm op))
      ≡ (base_register s op + simm op * (if high then 2 ^ 16 else 1)) % 2 ^ 32
addi_value true s op = ground arith
addi_value false s op = ground arith

addi_shape :
    (high : Bool) (s : State) (op : ℕ)
    → addi high s op
      ≡ set_gpr s (reg_d op) (
          if high
          then if reg_a op == 0
            then u32 (simm op * 2 ^ 16)
            else u32 (s.gpr (reg_a op) + u32 (simm op * 2 ^ 16))
          else if reg_a op == 0
          then simm op
          else u32 (s.gpr (reg_a op) + simm op))
unfolding addi
addi_shape true s op = refl
addi_shape false s op = refl

-- On a state of machine words, `addi` and `addis` add the immediate of 16 bits, signed or shifted into
-- the high half, to rA, or to 0 if the field names register 0, and `mulli` multiplies it with rA, all
-- modulo 2 ^ 32; nothing else changes.
immediate_sums-IsWrite :
    (high : Bool) (s : State) (op : ℕ)
    → IsWord s
    → IsWrite false
        (reg_d op)
        ((base_register s op + simm op * (if high then 2 ^ 16 else 1)) % 2 ^ 32)
        s
        (addi high s op)
      × IsWrite false (reg_d op) (s.gpr (reg_a op) * simm op % 2 ^ 32) s (mulli s op)
unfolding mulli
immediate_sums-IsWrite high s op w =
    let imm : simm op < 2 ^ 32 = ground arith in
    (
      subst (IsWrite false (reg_d op) _ s) (sym (addi_shape high s op)) (
          subst
            (λ v. IsWrite false (reg_d op) v s (
              set_gpr s (reg_d op) (
                if high
                then if reg_a op == 0
                  then u32 (simm op * 2 ^ 16)
                  else u32 (s.gpr (reg_a op) + u32 (simm op * 2 ^ 16))
                else if reg_a op == 0
                then simm op
                else u32 (s.gpr (reg_a op) + simm op))))
            (addi_value high s op) (IsWrite-end false (reg_d op) _ s)),
      subst (λ v. IsWrite false (reg_d op) v s (mulli s op))
          (low_word (s.gpr (reg_a op)) (simm op) (w.gpr_lt (reg_a op)) imm)
          (IsWrite-end false (reg_d op) _ s),
    )

-- The number of `w` bits with the pattern `x`.
abbrev pub signed_part : ℕ → ℕ → ℤ
signed_part w x =
    if ltb (x % 2 ^ w) (2 ^ (w - 1)) then pos (x % 2 ^ w) else negsuc (2 ^ w - x % 2 ^ w - 1)

-- `extsb` and `extsh` give the word of the signed low byte or half of rS; CR0 describes it where Rc is
-- set, and nothing else changes.
exts-IsWrite :
    (is_byte rec : Bool) (s : State) (op : ℕ)
    → (v : ℕ) × IsWrite rec (reg_a op) v s (exts is_byte rec s op)
      × (signed32 v ≡ signed_part (if is_byte then 8 else 16) (s.gpr (reg_d op)))
unfolding exts
exts-IsWrite true rec s op =
    (sign_extend8 (s.gpr (reg_d op)), IsWrite-end rec (reg_a op) _ s, ground arith)
exts-IsWrite false rec s op =
    (sign_extend16 (s.gpr (reg_d op)), IsWrite-end rec (reg_a op) _ s, ground arith)

-- On a state of machine words, `andi.`, `ori` and `xori` combine rS with the immediate field, and
-- `andis.`, `oris` and `xoris` with the field in the high half, bit by bit, as minimum, maximum and sum
-- modulo 2, where only the first records the result in CR0; `addi` and `addis` add the immediate, signed
-- or shifted into the high half, to rA, or to 0 if the field names register 0, and `mulli`
-- multiplies it with rA, all modulo 2 ^ 32; `extsb` and `extsh` give the word of the signed low byte or
-- half of rS, which CR0 describes where Rc is set. Nothing else changes.
pub immediates_lem :
    (high is_byte rec : Bool) (s : State) (op : ℕ)
    → IsWord s
    → let d = s.gpr (reg_d op) in
      let f = field_bit high op in
      (((v : ℕ) × IsWrite true (reg_a op) v s (andirc high s op)
          × ((i : ℕ) → bit v i ≡ min (bit d i) (f i)))
        × ((v : ℕ) × IsWrite false (reg_a op) v s (ori high s op)
            × ((i : ℕ) → bit v i ≡ max (bit d i) (f i)))
        × ((v : ℕ) × IsWrite false (reg_a op) v s (xori high s op)
            × ((i : ℕ) → bit v i ≡ (bit d i + f i) % 2)))
      × (IsWrite false
            (reg_d op)
            ((base_register s op + simm op * (if high then 2 ^ 16 else 1)) % 2 ^ 32)
            s
            (addi high s op)
          × IsWrite false (reg_d op) (s.gpr (reg_a op) * simm op % 2 ^ 32) s (mulli s op))
      × ((v : ℕ) × IsWrite rec (reg_a op) v s (exts is_byte rec s op)
          × (signed32 v ≡ signed_part (if is_byte then 8 else 16) (s.gpr (reg_d op))))
immediates_lem high is_byte rec s op w = (
  immediates-IsWrite high s op,
  immediate_sums-IsWrite high s op w,
  exts-IsWrite is_byte rec s op,
)
