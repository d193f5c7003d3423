-- ===== src/Cpu/Logic.antt =====
-- The logical instructions of cpu/ppc/ppcopcodes.cpp, `cntlzw` and the sign extensions.
pub mod Laws
pub mod Immediate
use chungusppc.Common.{ℕ, zero, suc, ◌+◌, ◌/◌, ◌==◌, if◌then◌else◌, Bool, truth}
use chungusppc.Common.{bit_and, bit_or, bit_xor, ◌<<<◌, not32, sign_extend8, sign_extend16}
use chungusppc.Cpu.State.{State, set_gpr}
use chungusppc.Cpu.Decode.{reg_a, reg_b, reg_d, uimm}
use chungusppc.Cpu.Flags.{changecrf0}

-- enum logical_fun, without the prefix `ppc_`
pub data LogicalFun : Type 0 where
  and andc eqv nand nor or orc xor : LogicalFun

pub andirc : Bool → State → ℕ → State
andirc shift s op =
    let d = s.gpr (reg_d op) in
    let a = if shift then bit_and d (uimm op <<< 16) else bit_and d (uimm op) in
    set_gpr (changecrf0 s a) (reg_a op) a

pub ori : Bool → State → ℕ → State
ori shift s op =
    let d = s.gpr (reg_d op) in
    set_gpr s (reg_a op) (if shift then bit_or d (uimm op <<< 16) else bit_or d (uimm op))

pub xori : Bool → State → ℕ → State
xori shift s op =
    let d = s.gpr (reg_d op) in
    set_gpr s (reg_a op) (if shift then bit_xor d (uimm op <<< 16) else bit_xor d (uimm op))

pub logical_result : LogicalFun → ℕ → ℕ → ℕ
logical_result and d b = bit_and d b
logical_result andc d b = bit_and d (not32 b)
logical_result eqv d b = not32 (bit_xor d b)
logical_result nand d b = not32 (bit_and d b)
logical_result nor d b = not32 (bit_or d b)
logical_result or d b = bit_or d b
logical_result orc d b = bit_or d (not32 b)
logical_result xor d b = bit_xor d b

pub logical : LogicalFun → Bool → State → ℕ → State
logical f rec s op =
    let a = logical_result f (s.gpr (reg_d op)) (s.gpr (reg_b op)) in
    let s1 = if rec then changecrf0 s a else s in set_gpr s1 (reg_a op) a

-- The loop of `cntlzw`: `mask` runs through the bits from the top, on fuel.
pub cntlzw_loop : ℕ → ℕ → ℕ → ℕ → ℕ
cntlzw_loop zero mask lead x = lead
cntlzw_loop (suc fuel) mask lead x =
    let rest = cntlzw_loop fuel (mask / 2) (lead + 1) x in
    if mask == 0 then lead else if truth (bit_and x mask) then lead else rest

pub cntlzw : Bool → State → ℕ → State
cntlzw rec s op =
    let a = cntlzw_loop 33 0x8000_0000 0 (s.gpr (reg_d op)) in
    let s1 = if rec then changecrf0 s a else s in set_gpr s1 (reg_a op) a

-- `ppc_exts<int8_t>` and `ppc_exts<int16_t>`
pub exts : Bool → Bool → State → ℕ → State
exts is_byte rec s op =
    let d = s.gpr (reg_d op) in
    let a = if is_byte then sign_extend8 d else sign_extend16 d in
    let s1 = if rec then changecrf0 s a else s in set_gpr s1 (reg_a op) a
