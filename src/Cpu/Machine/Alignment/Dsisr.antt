-- ===== src/Cpu/Machine/Alignment/Dsisr.antt =====
-- DSISR after an alignment exception (`ppc_alignment_exception` of cpu/ppc/ppcexceptions.cpp), bit by bit.
use chungusppc.Common.{
  ℕ, ◌+◌, ◌-◌, ◌<◌, ◌≤◌, ◌≡◌, ◌==◌, ltb, leb, ◌&&◌, refl, ◌∙◌, ap, max, Bool-cases, true, inl, inr,
  if◌then◌else◌, bit, bit_and, bit_or, u32, to_nat, ◌>>>◌, ◌<<<◌, all_below, all_below_sound,
  ==_iff, arith,
}
use chungusppc.Common.Bits.{bit-lt, bit-bit_and, bit-bit_or}
use chungusppc.Common.Bits.Shifts.{bit-shr, bit-shl, bit-mod}
use chungusppc.Cpu.Machine.Alignment.{
  OpcodeForm, with_immediate, with_index, unexpected, opcode_form, form_bits, is_multiple_load,
  alignment_dsisr,
}

-- A mask of consecutive bits
mask_at :
    (lo hi mask i : ℕ)
    → i < 32
    → all_below 32 (λ j. bit mask j == to_nat (leb lo j && ltb j hi)) ≡ true
    → bit mask i ≡ to_nat (leb lo i && ltb i hi)
mask_at lo hi mask i h table = (==_iff _ _).0 (all_below_sound 32 _ i table h)

-- Consecutive bits of a word that is shifted right or left.
right_field :
    (lo hi mask k x i : ℕ)
    → i < 32
    → all_below 32 (λ j. bit mask j == to_nat (leb lo j && ltb j hi)) ≡ true
    → bit (bit_and (x >>> k) mask) i ≡ (if leb lo i && ltb i hi then bit x (k + i) else 0)
right_field lo hi mask k x i h table = ground (
  arith,
  bit-bit_and i (x >>> k) mask,
  bit-shr x k i,
  mask_at lo hi mask i h table,
  bit-lt x (k + i),
)

left_field :
    (lo hi mask k x i : ℕ)
    → i < 32
    → k ≤ lo
    → all_below 32 (λ j. bit mask j == to_nat (leb lo j && ltb j hi)) ≡ true
    → bit (bit_and (u32 (x <<< k)) mask) i ≡ (if leb lo i && ltb i hi then bit x (i - k) else 0)
left_field lo hi mask k x i h le table = ground (
  arith,
  bit-bit_and i (u32 (x <<< k)) mask,
  bit-mod 32 (x <<< k) i,
  bit-shl x k i,
  mask_at lo hi mask i h table,
  bit-lt x (i - k),
)

-- What DSISR takes from the opcode, by the bit's number from the low end.
abbrev pub form_bit : OpcodeForm → ℕ → ℕ → ℕ
form_bit with_immediate opcode i =
    if i == 14 then bit opcode 26 else if leb 10 i && ltb i 14 then bit opcode (17 + i) else 0
form_bit with_index opcode i =
    if leb 15 i && ltb i 17
    then bit opcode (i - 14)
    else if i == 14
    then bit opcode 6
    else if leb 10 i && ltb i 14
    then bit opcode (i - 3)
    else 0
form_bit unexpected opcode i = 0

one_bit_at : (opcode i j : ℕ) → i ≡ j → bit opcode i ≡ bit opcode j
one_bit_at opcode i j e = ap (λ (k : ℕ). bit opcode k) e

form_bits-bit :
    (f : OpcodeForm) (opcode i : ℕ) → i < 32 → bit (form_bits f opcode) i ≡ form_bit f opcode i
unfolding form_bits all_below
form_bits-bit with_immediate opcode i h = ground (
  arith,
  bit-bit_or i (bit_and (opcode >>> 12) 0x4000) (bit_and (opcode >>> 17) 0x3c00),
  right_field 14 15 0x4000 12 opcode i h refl,
  right_field 10 14 0x3c00 17 opcode i h refl,
  one_bit_at opcode (12 + i) 26,
)
form_bits-bit with_index opcode i h = ground (
  arith,
  bit-bit_or i
      (bit_or (bit_and (u32 (opcode <<< 14)) 0x0001_8000) (bit_and (u32 (opcode <<< 8)) 0x4000))
      (bit_and (u32 (opcode <<< 3)) 0x3c00),
  bit-bit_or i (bit_and (u32 (opcode <<< 14)) 0x0001_8000) (bit_and (u32 (opcode <<< 8)) 0x4000),
  left_field 15 17 0x0001_8000 14 opcode i h (omega arith) refl,
  left_field 14 15 0x4000 8 opcode i h (omega arith) refl,
  left_field 10 14 0x3c00 3 opcode i h (omega arith) refl,
  one_bit_at opcode (i - 8) 6,
)
form_bits-bit unexpected opcode i h = ground arith

form_bit-low : (f : OpcodeForm) (opcode i : ℕ) → ltb i 10 ≡ true → form_bit f opcode i ≡ 0
form_bit-low with_immediate opcode i h = ground arith
form_bit-low with_index opcode i h = ground arith
form_bit-low unexpected opcode i h = refl

without_base :
    (i f x : ℕ)
    → (ltb i 10 ≡ true → f ≡ 0)
    → max f (if leb 5 i && ltb i 10 then x else 0)
      ≡ (if ltb i 5 then 0 else if ltb i 10 then x else f)
without_base i f x low = ground arith

with_base :
    (i f x : ℕ)
    → (ltb i 10 ≡ true → f ≡ 0)
    → max (max f (if leb 5 i && ltb i 10 then x else 0)) (if leb 0 i && ltb i 5 then x else 0)
      ≡ (if ltb i 5 then x else if ltb i 10 then x else f)
with_base i f x low = ground arith

-- DSISR after an alignment exception holds rA in its lowest five bits, but for the multiple and string
-- loads 0, then rD or rS, then by the form of the instruction bits of its opcodes, and zeros above.
pub alignment_dsisr-bit :
    (opcode i : ℕ)
    → i < 32
    → bit (alignment_dsisr opcode) i ≡ (
        if ltb i 5
        then (if is_multiple_load opcode then 0 else bit opcode (16 + i))
        else if ltb i 10
        then bit opcode (16 + i)
        else form_bit (opcode_form opcode) opcode i)
unfolding alignment_dsisr all_below
alignment_dsisr-bit opcode i h =
    let f = opcode_form opcode in
    let d = bit_or (form_bits f opcode) (bit_and (opcode >>> 16) 0x03e0) in
    let low = right_field 0 5 0x1f 16 opcode i h refl in
    let high = right_field 5 10 0x03e0 16 opcode i h refl in
    let form = form_bits-bit f opcode i h in
    let below = form_bit-low f opcode i in
    let merged = bit-bit_or i (form_bits f opcode) (bit_and (opcode >>> 16) 0x03e0) in
    elim (Bool-cases (is_multiple_load opcode)) [
      | inl multiple ↦ rw multiple (
          merged
          ∙ rw (form, high) (without_base i (form_bit f opcode i) (bit opcode (16 + i)) below))
      | inr other ↦ rw other (
          bit-bit_or i d (bit_and (opcode >>> 16) 0x1f)
          ∙ rw (merged, form, high, low)
              (with_base i (form_bit f opcode i) (bit opcode (16 + i)) below))
    ]
