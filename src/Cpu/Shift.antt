-- ===== src/Cpu/Shift.antt =====
-- The shifting and rotating instructions of cpu/ppc/ppcopcodes.cpp, and `ROTL_32` of core/bitops.h.
use chungusppc.Common.{ℕ, ◌-◌, ◌^◌, if◌then◌else◌, Bool, ◌&&◌, truth, leb}
pub mod Rotate
pub mod Arithmetic
pub mod Amount
pub mod Family
use chungusppc.Common.{bit_and, bit_or, ◌<<<◌, ◌>>>◌, u32, not32, is_neg}
use chungusppc.Common.Int.{signed32, wrap_ℤ, shr_ℤ}
use chungusppc.Cpu.State.{State, set_gpr, set_spr}
use chungusppc.Cpu.Decode.{reg_a, reg_b, reg_d, rot_mb, rot_me}
use chungusppc.Cpu.Flags.{changecrf0}
use chungusppc.Cpu.Spr
use chungusppc.Cpu.Xer

-- `n &= 0x1F; return n ? (x << n) | (x >> (32 - n)) : x;`
unfoldable pub rotl32 : ℕ → ℕ → ℕ
rotl32 x m =
    let n = bit_and m 0x1f in if truth n then bit_or (u32 (x <<< n)) (x >>> (32 - n)) else x

unfoldable pub rotr32 : ℕ → ℕ → ℕ
rotr32 x m =
    let n = bit_and m 0x1f in if truth n then bit_or (x >>> n) (u32 (x <<< (32 - n))) else x

unfoldable pub rot_mask : ℕ → ℕ → ℕ
rot_mask mb me =
    let m1 = 0xffff_ffff >>> mb in
    let m2 = u32 (0xffff_ffff <<< (31 - me)) in if leb mb me then bit_and m2 m1 else bit_or m1 m2

-- `ppc_state.spr[SPR::XER] |= XER::CA` and `&= ~XER::CA`
abbrev pub set_ca : State → State
set_ca s = set_spr s Spr.xer (bit_or (s.spr Spr.xer) Xer.ca)

abbrev pub clear_ca : State → State
clear_ca s = set_spr s Spr.xer (bit_and (s.spr Spr.xer) (not32 Xer.ca))

-- int32_t(x) >> n
abbrev pub sar32 : ℕ → ℕ → ℕ
sar32 x n = wrap_ℤ 32 (shr_ℤ (signed32 x) n)

pub shift : Bool → Bool → State → ℕ → State
shift is_left rec s op =
    let d = s.gpr (reg_d op) in
    let b = s.gpr (reg_b op) in
    let a =
      if truth (bit_and b 0x20)
      then 0
      else if is_left
      then u32 (d <<< bit_and b 0x1f)
      else d >>> bit_and b 0x1f in
    let s1 = if rec then changecrf0 s a else s in set_gpr s1 (reg_a op) a

pub sraw : Bool → State → ℕ → State
sraw rec s op =
    let d = s.gpr (reg_d op) in
    let b = s.gpr (reg_b op) in
    let s1 = clear_ca s in
    let n = bit_and b 0x1f in
    let a = if truth (bit_and b 0x20) then sar32 d 31 else sar32 d n in
    let s2 =
      if truth (bit_and b 0x20)
      then if truth a then set_ca s1 else s1
      else if is_neg d && truth (bit_and d (2 ^ n - 1))
      then set_ca s1
      else s1 in
    let s3 = if rec then changecrf0 s2 a else s2 in set_gpr s3 (reg_a op) a

pub srawi : Bool → State → ℕ → State
srawi rec s op =
    let d = s.gpr (reg_d op) in
    let n = reg_b op in
    let s1 = clear_ca s in
    let s2 = if is_neg d && truth (bit_and d (2 ^ n - 1)) then set_ca s1 else s1 in
    let a = sar32 d n in let s3 = if rec then changecrf0 s2 a else s2 in set_gpr s3 (reg_a op) a

pub rlwimi : State → ℕ → State
rlwimi s op =
    let mask = rot_mask (rot_mb op) (rot_me op) in
    let r = rotl32 (s.gpr (reg_d op)) (reg_b op) in
    let a = bit_or (bit_and (s.gpr (reg_a op)) (not32 mask)) (bit_and r mask) in
    let s1 = if truth (bit_and op 1) then changecrf0 s a else s in set_gpr s1 (reg_a op) a

pub rlwinm : State → ℕ → State
rlwinm s op =
    let mask = rot_mask (rot_mb op) (rot_me op) in
    let r = rotl32 (s.gpr (reg_d op)) (reg_b op) in
    let a = bit_and r mask in
    let s1 = if truth (bit_and op 1) then changecrf0 s a else s in set_gpr s1 (reg_a op) a

pub rlwnm : State → ℕ → State
rlwnm s op =
    let mask = rot_mask (rot_mb op) (rot_me op) in
    let r = rotl32 (s.gpr (reg_d op)) (s.gpr (reg_b op)) in
    let a = bit_and r mask in
    let s1 = if truth (bit_and op 1) then changecrf0 s a else s in set_gpr s1 (reg_a op) a
