-- ===== src/Cpu/Arith.antt =====
-- The adding and subtracting instructions of cpu/ppc/ppcopcodes.cpp. The template arguments `carry`,
-- `rec` and `ov` are Booleans; a wide sum is the `uint64_t` of the source, which cannot wrap.
pub mod Spec
pub mod Tail
pub mod Sums
pub mod Family
use chungusppc.Common.{ℕ, ◌+◌, ◌-◌, ◌^◌, ◌==◌, if◌then◌else◌, Bool, ◌&&◌, not, truth, to_nat}
use chungusppc.Common.{bit_and, bit_or, ◌<<<◌, u32, not32, is_neg}
use chungusppc.Cpu.State.{State, set_gpr, set_spr}
use chungusppc.Cpu.Decode.{reg_a, reg_b, reg_d, simm}
use chungusppc.Cpu.Flags.{changecrf0, carry, setsoov, xer_ca, set_so_ov, clear_ov}
use chungusppc.Cpu.Spr
use chungusppc.Cpu.Xer

unfoldable pub addi : Bool → State → ℕ → State
addi shift s op =
    if shift
    then set_gpr s (reg_d op) (
        if reg_a op == 0
        then u32 (simm op <<< 16)
        else u32 (s.gpr (reg_a op) + u32 (simm op <<< 16)))
    else set_gpr s (reg_d op) (if reg_a op == 0 then simm op else u32 (s.gpr (reg_a op) + simm op))

pub addic : Bool → State → ℕ → State
addic rec s op =
    let l = s.gpr (reg_a op) + simm op in
    let d = u32 l in
    let s1 = carry s l in let s2 = if rec then changecrf0 s1 d else s1 in set_gpr s2 (reg_d op) d

unfoldable pub add : Bool → Bool → Bool → State → ℕ → State
add with_carry rec ov s op =
    let a = s.gpr (reg_a op) in
    let b = s.gpr (reg_b op) in
    let l = a + b in
    let d = u32 l in
    let s1 = if with_carry then carry s l else s in
    let s2 = if ov then setsoov s1 a (not32 b) d else s1 in
    let s3 = if rec then changecrf0 s2 d else s2 in set_gpr s3 (reg_d op) d

pub adde : Bool → Bool → State → ℕ → State
adde rec ov s op =
    let a = s.gpr (reg_a op) in
    let b = s.gpr (reg_b op) in
    let l = a + b + xer_ca s in
    let d = u32 l in
    let s1 = carry s l in
    let s2 = if ov then setsoov s1 a (not32 b) d else s1 in
    let s3 = if rec then changecrf0 s2 d else s2 in set_gpr s3 (reg_d op) d

pub addme : Bool → Bool → State → ℕ → State
addme rec ov s op =
    let a = s.gpr (reg_a op) in
    let l = a + xer_ca s + 0xffff_ffff in
    let d = u32 l in
    let s1 = carry s l in
    let s2 = if ov then setsoov s1 a 0 d else s1 in
    let s3 = if rec then changecrf0 s2 d else s2 in set_gpr s3 (reg_d op) d

pub addze : Bool → Bool → State → ℕ → State
addze rec ov s op =
    let a = s.gpr (reg_a op) in
    let l = a + xer_ca s in
    let d = u32 l in
    let s1 = carry s l in
    let s2 = if ov then setsoov s1 a 0xffff_ffff d else s1 in
    let s3 = if rec then changecrf0 s2 d else s2 in set_gpr s3 (reg_d op) d

pub subfic : State → ℕ → State
subfic s op =
    let l = not32 (s.gpr (reg_a op)) + simm op + 1 in
    let d = u32 l in set_gpr (carry s l) (reg_d op) d

pub subf : Bool → Bool → Bool → State → ℕ → State
subf with_carry rec ov s op =
    let a = s.gpr (reg_a op) in
    let b = s.gpr (reg_b op) in
    let l = not32 a + b + 1 in
    let d = u32 l in
    let s1 = if with_carry then carry s l else s in
    let s2 = if ov then setsoov s1 b a d else s1 in
    let s3 = if rec then changecrf0 s2 d else s2 in set_gpr s3 (reg_d op) d

pub subfe : Bool → Bool → State → ℕ → State
subfe rec ov s op =
    let a = s.gpr (reg_a op) in
    let b = s.gpr (reg_b op) in
    let l = not32 a + b + xer_ca s in
    let d = u32 l in
    let s1 = carry s l in
    let s2 = if ov then setsoov s1 b a d else s1 in
    let s3 = if rec then changecrf0 s2 d else s2 in set_gpr s3 (reg_d op) d

pub subfme : Bool → Bool → State → ℕ → State
subfme rec ov s op =
    let a = s.gpr (reg_a op) in
    let l = not32 a + xer_ca s + 0xffff_ffff in
    let d = u32 l in
    let s1 = carry s l in
    let s2 =
      if ov
      then if d == a && (not (is_neg d) && not (d == 0)) then set_so_ov s1 else clear_ov s1
      else s1 in
    let s3 = if rec then changecrf0 s2 d else s2 in set_gpr s3 (reg_d op) d

pub subfze : Bool → Bool → State → ℕ → State
subfze rec ov s op =
    let a = s.gpr (reg_a op) in
    let l = not32 a + xer_ca s in
    let d = u32 l in
    let s1 = carry s l in
    let s2 = if ov then if truth d && d == a then set_so_ov s1 else clear_ov s1 else s1 in
    let s3 = if rec then changecrf0 s2 d else s2 in set_gpr s3 (reg_d op) d

pub neg : Bool → Bool → State → ℕ → State
neg rec ov s op =
    let a = s.gpr (reg_a op) in
    let d = u32 (not32 a + 1) in
    let s2 = if ov then if a == 0x8000_0000 then set_so_ov s else clear_ov s else s in
    let s3 = if rec then changecrf0 s2 d else s2 in set_gpr s3 (reg_d op) d
