-- ===== src/Cpu/Power/Mq.antt =====
-- The shifts of cpu/ppc/poweropcodes.cpp that leave the rotated word in MQ, or take bits from it.
use chungusppc.Common.{ℕ, ◌-◌, ◌^◌, if◌then◌else◌, Bool, ◌&&◌, truth}
use chungusppc.Common.{bit_and, bit_or, ◌<<<◌, ◌>>>◌, u32, not32, is_neg}
use chungusppc.Cpu.State.{State, set_gpr, set_spr}
use chungusppc.Cpu.Decode.{reg_a, reg_b, reg_d}
use chungusppc.Cpu.Flags.{changecrf0}
use chungusppc.Cpu.Shift.{rotl32, rotr32, rot_mask, set_ca, clear_ca, sar32}
use chungusppc.Cpu.Spr

abbrev set_mq : State → ℕ → State
set_mq s q = set_spr s Spr.mq q

abbrev record_if : Bool → State → ℕ → State
record_if rec s c = if rec then changecrf0 s c else s

-- The amount in rB, without the bit 0x20.
abbrev pub amount : State → ℕ → ℕ
amount s op = bit_and (s.gpr (reg_b op)) 0x1f

abbrev pub long_amount : State → ℕ → Bool
long_amount s op = truth (bit_and (s.gpr (reg_b op)) 0x20)

unfoldable pub sle : Bool → State → ℕ → State
sle rec s op =
    let d = s.gpr (reg_d op) in
    let n = amount s op in
    let a = u32 (d <<< n) in
    let s1 = set_gpr (set_mq s (rotl32 d n)) (reg_a op) a in
    set_gpr (record_if rec s1 a) (reg_a op) a

unfoldable pub sleq : Bool → State → ℕ → State
sleq rec s op =
    let n = amount s op in
    let r = rotl32 (s.gpr (reg_d op)) n in
    let mask = rot_mask 0 (31 - n) in
    let a = bit_or (bit_and r mask) (bit_and (s.spr Spr.mq) (not32 mask)) in
    set_gpr (record_if rec (set_mq s r) a) (reg_a op) a

unfoldable pub sliq : Bool → State → ℕ → State
sliq rec s op =
    let d = s.gpr (reg_d op) in
    let n = reg_b op in
    let a = u32 (d <<< n) in set_gpr (record_if rec (set_mq s (rotl32 d n)) a) (reg_a op) a

unfoldable pub slliq : Bool → State → ℕ → State
slliq rec s op =
    let n = reg_b op in
    let r = rotl32 (s.gpr (reg_d op)) n in
    let mask = rot_mask 0 (31 - n) in
    let a = bit_or (bit_and r mask) (bit_and (s.spr Spr.mq) (not32 mask)) in
    set_gpr (record_if rec (set_mq s r) a) (reg_a op) a

unfoldable pub sllq : Bool → State → ℕ → State
sllq rec s op =
    let n = amount s op in
    let a =
      if long_amount s op
      then bit_and (s.spr Spr.mq) (u32 (0xffff_ffff <<< n))
      else bit_or (u32 (s.gpr (reg_d op) <<< n)) (bit_and (s.spr Spr.mq) (2 ^ n - 1)) in
    set_gpr (record_if rec s a) (reg_a op) a

unfoldable pub slq : Bool → State → ℕ → State
slq rec s op =
    let d = s.gpr (reg_d op) in
    let n = amount s op in
    let a = if long_amount s op then 0 else u32 (d <<< n) in
    set_gpr (set_mq (record_if rec s a) (rotl32 d n)) (reg_a op) a

-- XER[CA] from the test, set or cleared.
abbrev put_ca : Bool → State → State
put_ca ca s = if ca then set_ca s else clear_ca s

unfoldable pub sraiq : Bool → State → ℕ → State
sraiq rec s op =
    let d = s.gpr (reg_d op) in
    let n = reg_b op in
    let a = sar32 d n in
    let s1 = set_mq s (rotr32 d n) in
    let s2 = put_ca (is_neg d && truth (bit_and d (2 ^ n - 1))) s1 in
    set_gpr (record_if rec s2 a) (reg_a op) a

unfoldable pub sraq : Bool → State → ℕ → State
sraq rec s op =
    let d = s.gpr (reg_d op) in
    let n = amount s op in
    let mask = if long_amount s op then 0xffff_ffff else 2 ^ n - 1 in
    let a = sar32 d (if long_amount s op then 31 else n) in
    let s1 = set_mq s (rotl32 d n) in
    let s2 = put_ca (is_neg d && truth (bit_and d mask)) s1 in
    let s3 = set_mq s2 (rotr32 d n) in set_gpr (record_if rec s3 a) (reg_a op) a

unfoldable pub sre : Bool → State → ℕ → State
sre rec s op =
    let d = s.gpr (reg_d op) in
    let n = amount s op in
    let a = d >>> n in set_gpr (record_if rec (set_mq s (rotr32 d n)) a) (reg_a op) a

unfoldable pub srea : Bool → State → ℕ → State
srea rec s op =
    let d = s.gpr (reg_d op) in
    let n = amount s op in
    let a = sar32 d n in
    let r = rotr32 d n in
    let mask = 0xffff_ffff >>> n in
    let s1 = put_ca (is_neg d && truth (bit_and r (not32 mask))) s in
    set_mq (set_gpr (record_if rec s1 a) (reg_a op) a) r

unfoldable pub sreq : Bool → State → ℕ → State
sreq rec s op =
    let d = s.gpr (reg_d op) in
    let n = amount s op in
    let mask = 0xffff_ffff >>> n in
    let a = bit_or (d >>> n) (bit_and (s.spr Spr.mq) (not32 mask)) in
    set_gpr (record_if rec (set_mq s (rotr32 d n)) a) (reg_a op) a

unfoldable pub sriq : Bool → State → ℕ → State
sriq rec s op =
    let d = s.gpr (reg_d op) in
    let n = reg_b op in
    let a = d >>> n in set_gpr (record_if rec (set_mq s (rotr32 d n)) a) (reg_a op) a

unfoldable pub srliq : Bool → State → ℕ → State
srliq rec s op =
    let n = reg_b op in
    let r = rotr32 (s.gpr (reg_d op)) n in
    let mask = rot_mask n 31 in
    let a = bit_or (bit_and r mask) (bit_and (s.spr Spr.mq) (not32 mask)) in
    set_gpr (record_if rec (set_mq s r) a) (reg_a op) a

unfoldable pub srlq : Bool → State → ℕ → State
srlq rec s op =
    let n = amount s op in
    let r = rotr32 (s.gpr (reg_d op)) n in
    let mask = rot_mask n 31 in
    let a =
      if long_amount s op
      then bit_and (s.spr Spr.mq) mask
      else bit_or (bit_and r mask) (bit_and (s.spr Spr.mq) (not32 mask)) in
    set_gpr (record_if rec s a) (reg_a op) a

unfoldable pub srq : Bool → State → ℕ → State
srq rec s op =
    let d = s.gpr (reg_d op) in
    let n = amount s op in
    let a = if long_amount s op then 0 else d >>> n in
    set_gpr (set_mq (record_if rec s a) (rotr32 d n)) (reg_a op) a
