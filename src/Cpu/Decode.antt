-- ===== src/Cpu/Decode.antt =====
-- cpu/ppc/ppcdechelpers.h: the operands that an opcode's fields name.
use chungusppc.Common.{ℕ, bit_and, ◌>>>◌, sign_extend16, u16}

-- `reg_d` and `reg_s`, bits 6 to 10
abbrev pub reg_d : ℕ → ℕ
reg_d opcode = bit_and (opcode >>> 21) 0x1f

abbrev pub reg_a : ℕ → ℕ
reg_a opcode = bit_and (opcode >>> 16) 0x1f

-- `reg_b` and `rot_sh`, bits 16 to 20
abbrev pub reg_b : ℕ → ℕ
reg_b opcode = bit_and (opcode >>> 11) 0x1f

-- Four times the number of a condition register's field.
abbrev pub crf_d : ℕ → ℕ
crf_d opcode = bit_and (opcode >>> 21) 0x1c

abbrev pub crf_s : ℕ → ℕ
crf_s opcode = bit_and (opcode >>> 16) 0x1c

-- `simm` as the `uint32_t` that it turns into, and `uimm`
abbrev pub simm : ℕ → ℕ
simm opcode = sign_extend16 opcode

abbrev pub uimm : ℕ → ℕ
uimm opcode = u16 opcode

abbrev pub rot_mb : ℕ → ℕ
rot_mb opcode = bit_and (opcode >>> 6) 0x1f

abbrev pub rot_me : ℕ → ℕ
rot_me opcode = bit_and (opcode >>> 1) 0x1f
