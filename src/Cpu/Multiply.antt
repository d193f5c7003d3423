-- ===== src/Cpu/Multiply.antt =====
-- The multiplying and dividing instructions of cpu/ppc/ppcopcodes.cpp.
pub mod Laws
pub mod Division
use chungusppc.Common.{ℕ, ◌*◌, ◌/◌, ◌==◌, if◌then◌else◌, Bool, ◌&&◌, not}
use chungusppc.Common.{bit_or, ◌>>>◌, u32, is_neg}
use chungusppc.Common.Int.{ℤ, pos_part, neg_part, signed32, ◌*ℤ◌, wrap_ℤ, shr_ℤ, quot_ℤ}
use chungusppc.Cpu.State.{State, set_gpr}
use chungusppc.Cpu.Decode.{reg_a, reg_b, reg_d, simm}
use chungusppc.Cpu.Flags.{changecrf0, set_so_ov, clear_ov}

pub mulhwu : Bool → State → ℕ → State
mulhwu rec s op =
    let product = s.gpr (reg_a op) * s.gpr (reg_b op) in
    let d = u32 (product >>> 32) in
    let s1 = if rec then changecrf0 s d else s in set_gpr s1 (reg_d op) d

pub mulhw : Bool → State → ℕ → State
mulhw rec s op =
    let product = signed32 (s.gpr (reg_a op)) *ℤ signed32 (s.gpr (reg_b op)) in
    let d = wrap_ℤ 32 (shr_ℤ product 32) in
    let s1 = if rec then changecrf0 s d else s in set_gpr s1 (reg_d op) d

-- product != int64_t(int32_t(product))
pub differs_from_int32 : ℤ → Bool
differs_from_int32 p =
    let q = signed32 (wrap_ℤ 32 p) in not (pos_part p == pos_part q && neg_part p == neg_part q)

pub mullw : Bool → Bool → State → ℕ → State
mullw rec ov s op =
    let product = signed32 (s.gpr (reg_a op)) *ℤ signed32 (s.gpr (reg_b op)) in
    let s1 = if ov then if differs_from_int32 product then set_so_ov s else clear_ov s else s in
    let d = wrap_ℤ 32 product in
    let s2 = if rec then changecrf0 s1 d else s1 in set_gpr s2 (reg_d op) d

unfoldable pub mulli : State → ℕ → State
mulli s op = set_gpr s (reg_d op) (wrap_ℤ 32 (signed32 (s.gpr (reg_a op)) *ℤ signed32 (simm op)))

pub divw : Bool → Bool → State → ℕ → State
divw rec ov s op =
    let a = s.gpr (reg_a op) in
    let b = s.gpr (reg_b op) in
    let overflow = a == 0x8000_0000 && b == 0xffff_ffff in
    let d =
      if b == 0
      then if s.is_601 then if is_neg a then 1 else 0xffff_ffff else 0
      else if overflow
      then if s.is_601 then 0x8000_0000 else 0
      else wrap_ℤ 32 (quot_ℤ (signed32 a) (signed32 b)) in
    let s1 =
      if ov
      then if b == 0 then set_so_ov s else if overflow then set_so_ov s else clear_ov s
      else s in
    let s2 = if rec then changecrf0 s1 d else s1 in set_gpr s2 (reg_d op) d

pub divwu : Bool → Bool → State → ℕ → State
divwu rec ov s op =
    let a = s.gpr (reg_a op) in
    let b = s.gpr (reg_b op) in
    let d = if b == 0 then if s.is_601 then 0xffff_ffff else 0 else a / b in
    let s1 = if ov then if b == 0 then set_so_ov s else clear_ov s else s in
    let s2 =
      if rec then if b == 0 then record s1 { cr = bit_or s1.cr 0x2000_0000 } else s1 else s1 in
    let s3 = if rec then changecrf0 s2 d else s2 in set_gpr s3 (reg_d op) d
