-- ===== src/Cpu/Machine/Alignment.antt =====
-- `ppc_alignment_exception` of cpu/ppc/ppcexceptions.cpp: DSISR describes the instruction. What the
-- source logs is left out.
pub mod Dsisr
use chungusppc.Common.{
  ℕ, ◌+◌, ◌-◌, ◌*◌, ◌/◌, ◌^◌, ◌<◌, ◌≤◌, ◌≡◌, ◌==◌, ltb, leb, ◌&&◌, ◌||◌, refl, ◌∙◌, ap, min, max,
  Bool, Bool-cases, true, false, inl, inr, if◌then◌else◌, bit, bit_and, bit_or, u32, to_nat, ◌>>>◌,
  ◌<<<◌, all_below, all_below_sound, ==_iff, List, [], ◌∷◌, arith,
}
use chungusppc.Common.Bits.{bit-lt, bit-bit_and, bit-bit_or}
use chungusppc.Common.Bits.Shifts.{bit-shr, bit-shl, bit-mod}
use chungusppc.Cpu.State.{State, set_spr}
use chungusppc.Cpu.Spr
use chungusppc.Cpu.Machine.{Machine, Host}
use chungusppc.Cpu.Machine.Handler.{ExceptType, Flow, exception_handler}

-- A case of a `switch`
unfoldable one_of : ℕ → List ℕ → Bool
one_of x [] = false
one_of x (y ∷ ys) = x == y || one_of x ys

-- The instructions with an immediate index, by their primary opcode
abbrev immediate_ops : List ℕ
immediate_ops =
    0x8000_0000 ∷ 0x9000_0000 ∷ 0xa000_0000 ∷ 0xa800_0000 ∷ 0xb000_0000 ∷ 0xb800_0000 ∷ 0xc000_0000
    ∷ 0xc800_0000 ∷ 0xd000_0000 ∷ 0xd800_0000 ∷ 0x8400_0000 ∷ 0x9400_0000 ∷ 0xa400_0000
    ∷ 0xac00_0000 ∷ 0xb400_0000 ∷ 0xbc00_0000 ∷ 0xc400_0000 ∷ 0xcc00_0000 ∷ 0xd400_0000
    ∷ 0xdc00_0000 ∷ []

-- The instructions with an index register, by both opcodes
abbrev indexed_ops : List ℕ
indexed_ops =
    0x7c00_0028 ∷ 0x7c00_02aa ∷ 0x7c00_042a ∷ 0x7c00_04aa ∷ 0x7c00_052a ∷ 0x7c00_05aa ∷ 0x7c00_02ea
    ∷ 0x7c00_012c ∷ 0x7c00_042c ∷ 0x7c00_052c ∷ 0x7c00_062c ∷ 0x7c00_072c ∷ 0x7c00_026c
    ∷ 0x7c00_036c ∷ 0x7c00_002e ∷ 0x7c00_012e ∷ 0x7c00_022e ∷ 0x7c00_02ae ∷ 0x7c00_032e
    ∷ 0x7c00_042e ∷ 0x7c00_04ae ∷ 0x7c00_052e ∷ 0x7c00_05ae ∷ 0x7c00_006e ∷ 0x7c00_016e
    ∷ 0x7c00_026e ∷ 0x7c00_02ee ∷ 0x7c00_036e ∷ 0x7c00_046e ∷ 0x7c00_04ee ∷ 0x7c00_056e
    ∷ 0x7c00_05ee ∷ []

pub data OpcodeForm : Type 0 where
  with_immediate with_index unexpected : OpcodeForm

unfoldable pub opcode_form : ℕ → OpcodeForm
unfolding one_of
opcode_form opcode =
    if one_of (bit_and opcode 0xfc00_0000) immediate_ops
    then with_immediate
    else if bit_and opcode 0xfc00_0000 == 0x7c00_0000
    then if one_of (bit_and opcode 0xfc00_07ff) indexed_ops
      then with_index
      else if bit_and opcode 0xfc00_07ff == 0x7c00_07ec && bit_and opcode 0xffe0_07ff == 0x7c00_07ec
      then with_index
      else unexpected
    else unexpected

unfoldable pub form_bits : OpcodeForm → ℕ → ℕ
form_bits with_immediate opcode =
    bit_or (bit_and (opcode >>> 12) 0x4000) (bit_and (opcode >>> 17) 0x3c00)
form_bits with_index opcode =
    bit_or
      (bit_or (bit_and (u32 (opcode <<< 14)) 0x0001_8000) (bit_and (u32 (opcode <<< 8)) 0x4000))
      (bit_and (u32 (opcode <<< 3)) 0x3c00)
form_bits unexpected opcode = 0

-- lmw, lswi and lswx
unfoldable pub is_multiple_load : ℕ → Bool
is_multiple_load opcode =
    bit_and opcode 0xfc00_0000 == 0xb800_0000
    || bit_and opcode 0xfc00_07ff == 0x7c00_04aa
    || bit_and opcode 0xfc00_07ff == 0x7c00_042a

unfoldable pub alignment_dsisr : ℕ → ℕ
alignment_dsisr opcode =
    let d = bit_or (form_bits (opcode_form opcode) opcode) (bit_and (opcode >>> 16) 0x03e0) in
    if is_multiple_load opcode then d else bit_or d (bit_and (opcode >>> 16) 0x1f)

unfoldable pub alignment_exception : {E : Type 0} → Host E → ℕ → ℕ → Machine E → Flow E
alignment_exception h opcode ea m =
    exception_handler h ExceptType.exc_alignment 0
      (record m { cpu = set_spr (set_spr m.cpu Spr.dsisr (alignment_dsisr opcode)) Spr.dar ea })
