-- ===== src/Cpu/Power.antt =====
-- The instructions of the POWER architecture in cpu/ppc/poweropcodes.cpp. `power_rot_mask` has the
-- text of `rot_mask`. MQ is the special register 0.
pub mod Mq
pub mod Shifts
pub mod Arithmetic
pub mod Merge
pub mod Masks
pub mod Overflow
pub mod Family
pub mod Numbers
use chungusppc.Common.{ℕ, ◌+◌, ◌-◌, ◌%◌, ◌^◌, if◌then◌else◌, ◌==◌, Bool, ◌&&◌, not, truth, ltb}
use chungusppc.Common.{bit_and, bit_or, ◌<<<◌, ◌>>>◌, u32, not32, neg32, sub32, is_neg}
use chungusppc.Common.Int.{
  ℤ, pos, signed32, ltb_ℤ, wrap_ℤ, shr_ℤ, quot_ℤ, rem_ℤ, ◌*ℤ◌, ◌+ℤ◌, pos_part, neg_part,
}
use chungusppc.Cpu.State.{State, set_gpr, set_spr}
use chungusppc.Cpu.Decode.{reg_a, reg_b, reg_d, simm, rot_mb, rot_me}
use chungusppc.Cpu.Flags.{changecrf0, set_so_ov, clear_ov}
use chungusppc.Cpu.Shift.{rotl32, rotr32, rot_mask, set_ca, clear_ca, sar32}
use chungusppc.Cpu.Spr

abbrev set_mq : State → ℕ → State
set_mq s q = set_spr s Spr.mq q

abbrev mq_of : State → ℕ
mq_of s = s.spr Spr.mq

abbrev record_if : Bool → State → ℕ → State
record_if rec s c = if rec then changecrf0 s c else s

pub abs : Bool → Bool → State → ℕ → State
abs rec ov s op =
    let a = s.gpr (reg_a op) in
    let lowest = a == 0x8000_0000 in
    let d = if lowest then a else if is_neg a then neg32 a else a in
    let s1 = if ov then if lowest then set_so_ov s else clear_ov s else s in
    set_gpr (record_if rec s1 d) (reg_d op) d

-- Line sizes and the like, by number.
unfoldable pub clcs_value : Bool → ℕ → ℕ
clcs_value is_601 n =
    if ltb n 4
    then (if is_601 then 0x40 else 0x20)
    else if ltb n 7
    then 0x20
    else if n == 7
    then (if is_601 then 1 else 0)
    else if ltb n 10
    then (if is_601 then 8 else 4)
    else if ltb n 12
    then (if is_601 then 0x8000 else 0x4000)
    else if is_601
    then 0x40
    else 0x20

unfoldable pub clcs : State → ℕ → State
unfolding clcs_value
clcs s op = set_gpr s (reg_d op) (clcs_value s.is_601 (bit_and (reg_a op) 15))

pub divs : Bool → Bool → State → ℕ → State
divs rec ov s op =
    let a = s.gpr (reg_a op) in
    let b = s.gpr (reg_b op) in
    let overflow = a == 0x8000_0000 && b == 0xffff_ffff in
    let d =
      if b == 0
      then 0xffff_ffff
      else if overflow
      then 0x8000_0000
      else wrap_ℤ 32 (quot_ℤ (signed32 a) (signed32 b)) in
    let remainder =
      if b == 0 then a else if overflow then 0 else wrap_ℤ 32 (rem_ℤ (signed32 a) (signed32 b)) in
    let s1 =
      if ov
      then if b == 0 then set_so_ov s else if overflow then set_so_ov s else clear_ov s
      else s in
    set_mq (set_gpr (record_if rec s1 remainder) (reg_d op) d) remainder

pub doz : Bool → Bool → State → ℕ → State
doz rec ov s op =
    let a = s.gpr (reg_a op) in
    let b = s.gpr (reg_b op) in
    let d = if ltb_ℤ (signed32 a) (signed32 b) then sub32 b a else 0 in
    let s1 = if ov then if is_neg d then set_so_ov s else clear_ov s else s in
    set_gpr (record_if rec s1 d) (reg_d op) d

pub dozi : State → ℕ → State
dozi s op =
    let a = s.gpr (reg_a op) in
    set_gpr s (reg_d op) (if ltb_ℤ (signed32 (simm op)) (signed32 a) then 0 else sub32 (simm op) a)

pub maskg : Bool → State → ℕ → State
maskg rec s op =
    let mask_start = bit_and (s.gpr (reg_d op)) 0x1f in
    let mask_end = bit_and (s.gpr (reg_b op)) 0x1f in
    let a =
      if ltb mask_start (mask_end + 1)
      then rot_mask mask_start mask_end
      else if mask_start == mask_end + 1
      then 0xffff_ffff
      else not32 (rot_mask (mask_end + 1) (mask_start - 1)) in
    set_gpr (record_if rec s a) (reg_a op) a

pub maskir : Bool → State → ℕ → State
maskir rec s op =
    let b = s.gpr (reg_b op) in
    let a = bit_or (bit_and (s.gpr (reg_a op)) (not32 b)) (bit_and (s.gpr (reg_d op)) b) in
    set_gpr (record_if rec s a) (reg_a op) a

pub mul : Bool → Bool → State → ℕ → State
mul rec ov s op =
    let product = signed32 (s.gpr (reg_a op)) *ℤ signed32 (s.gpr (reg_b op)) in
    let d = wrap_ℤ 32 (shr_ℤ product 32) in
    let s1 = set_mq s (wrap_ℤ 32 product) in
    let test = truth (bit_and ((wrap_ℤ 64 (shr_ℤ product 31) + 1) % 2 ^ 64) (2 ^ 64 - 2)) in
    let s2 = if ov then if test then set_so_ov s1 else clear_ov s1 else s1 in
    set_gpr (record_if rec s2 (wrap_ℤ 32 product)) (reg_d op) d

pub nabs : Bool → Bool → State → ℕ → State
nabs rec ov s op =
    let a = s.gpr (reg_a op) in
    let d = if is_neg a then a else neg32 a in
    let s1 = if ov then clear_ov s else s in set_gpr (record_if rec s1 d) (reg_d op) d

pub rlmi : State → ℕ → State
rlmi s op =
    let r = rotl32 (s.gpr (reg_d op)) (s.gpr (reg_b op)) in
    let mask = rot_mask (rot_mb op) (rot_me op) in
    let a = bit_or (bit_and r mask) (bit_and (s.gpr (reg_a op)) (not32 mask)) in
    set_gpr (record_if (bit_and op 1 == 1) s a) (reg_a op) a

pub rrib : Bool → State → ℕ → State
rrib rec s op =
    let rot_sh = bit_and (s.gpr (reg_b op)) 0x1f in
    let m = 0x8000_0000 >>> rot_sh in
    let a =
      if is_neg (s.gpr (reg_d op))
      then bit_or (s.gpr (reg_a op)) m
      else bit_and (s.gpr (reg_a op)) (not32 m) in
    set_gpr (record_if rec s a) (reg_a op) a
