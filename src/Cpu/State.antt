-- ===== src/Cpu/State.antt =====
-- `struct_ppc_state` of cpu/ppc/ppcemu.h with the interpreter's globals, and its registers.
-- The floating-point registers are not modelled.
use chungusppc.Common.{ℕ, ◌<◌, ◌^◌, Bool, ◌==◌, if◌then◌else◌, arith}

-- A register file is a function of the register's number.
pub record State : Type 0 where
  pub pc : ℕ
  pub gpr : ℕ → ℕ
  pub cr : ℕ
  pub spr : ℕ → ℕ
  pub msr : ℕ
  pub sr : ℕ → ℕ
  pub reserve : Bool
  pub next_pc : ℕ
  pub exec_flags : ℕ
  pub is_601 : Bool
  pub is_603 : Bool
  pub include_601 : Bool

abbrev pub update {ℓ} : {A : Type ℓ} → (ℕ → A) → ℕ → A → ℕ → A
update f i v j = if j == i then v else f j

-- `ppc_store_iresult_reg(reg, v)`
abbrev pub set_gpr : State → ℕ → ℕ → State
set_gpr s r v = record s { gpr = update s.gpr r v }

abbrev pub set_spr : State → ℕ → ℕ → State
set_spr s r v = record s { spr = update s.spr r v }

-- Every register holds a value of its type.
pub record IsWord (s : State) : Type 0 where
  pub gpr_lt : (r : ℕ) → s.gpr r < 2 ^ 32
  pub spr_lt : (r : ℕ) → s.spr r < 2 ^ 32
  pub sr_lt : (r : ℕ) → s.sr r < 2 ^ 32
  pub cr_lt : s.cr < 2 ^ 32
  pub msr_lt : s.msr < 2 ^ 32
  pub pc_lt : s.pc < 2 ^ 32
  pub next_pc_lt : s.next_pc < 2 ^ 32

pub set_gpr-IsWord : {s : State} (r v : ℕ) → IsWord s → v < 2 ^ 32 → IsWord (set_gpr s r v)
set_gpr-IsWord r v w h = record {
  gpr_lt = λ j. ground (arith, w.gpr_lt j);
  spr_lt = w.spr_lt;
  sr_lt = w.sr_lt;
  cr_lt = w.cr_lt;
  msr_lt = w.msr_lt;
  pc_lt = w.pc_lt;
  next_pc_lt = w.next_pc_lt;
}

pub set_spr-IsWord : {s : State} (r v : ℕ) → IsWord s → v < 2 ^ 32 → IsWord (set_spr s r v)
set_spr-IsWord r v w h = record {
  gpr_lt = w.gpr_lt;
  spr_lt = λ j. ground (arith, w.spr_lt j);
  sr_lt = w.sr_lt;
  cr_lt = w.cr_lt;
  msr_lt = w.msr_lt;
  pc_lt = w.pc_lt;
  next_pc_lt = w.next_pc_lt;
}
