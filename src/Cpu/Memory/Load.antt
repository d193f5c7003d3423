-- ===== src/Cpu/Memory/Load.antt =====
-- The integer loads. The template argument is the size in bytes.
use chungusppc.Common.{
  ℕ, zero, suc, ◌+◌, ◌-◌, ◌*◌, ◌/◌, ◌%◌, ◌^◌, ◌==◌, if◌then◌else◌, true, not, ◌&&◌, u32,
  sign_extend16,
}
use chungusppc.Cpu.State.{State, set_gpr}
use chungusppc.Cpu.Decode.{reg_a, reg_b, reg_d, simm}
use chungusppc.Cpu.Memory.{Outcome, done, stopped, illegal, Mmu, ea_simm, ea_indexed, after_read}

-- BYTESWAP_16 and BYTESWAP_32
abbrev pub byteswap16 : ℕ → ℕ
byteswap16 x = x % 256 * 256 + x / 256 % 256

abbrev pub byteswap32 : ℕ → ℕ
byteswap32 x =
    x % 256 * 2 ^ 24 + x / 2 ^ 8 % 256 * 2 ^ 16 + x / 2 ^ 16 % 256 * 2 ^ 8 + x / 2 ^ 24 % 256

module _ {M : Type 0} (mmu : Mmu M) where
  unfoldable pub lz : ℕ → State → ℕ → M → Outcome M
  unfolding after_read
  lz size s op m =
      let ea = ea_simm s op in
      after_read (mmu.read size op ea s m) (λ v m1. done (set_gpr s (reg_d op) v) m1)

  unfoldable pub lzu : ℕ → State → ℕ → M → Outcome M
  unfolding after_read
  lzu size s op m =
      let ea = u32 (simm op + s.gpr (reg_a op)) in
      if not (reg_a op == reg_d op) && not (reg_a op == 0)
      then after_read (mmu.read size op ea s m)
          (λ v m1. done (set_gpr (set_gpr s (reg_d op) v) (reg_a op) ea) m1)
      else stopped illegal s m

  unfoldable pub lzx : ℕ → State → ℕ → M → Outcome M
  unfolding after_read
  lzx size s op m =
      let ea = ea_indexed s op in
      after_read (mmu.read size op ea s m) (λ v m1. done (set_gpr s (reg_d op) v) m1)

  unfoldable pub lzux : ℕ → State → ℕ → M → Outcome M
  unfolding after_read
  lzux size s op m =
      let ea = u32 (s.gpr (reg_a op) + s.gpr (reg_b op)) in
      if not (reg_a op == reg_d op) && not (reg_a op == 0)
      then after_read (mmu.read size op ea s m)
          (λ v m1. done (set_gpr (set_gpr s (reg_d op) v) (reg_a op) ea) m1)
      else stopped illegal s m

  unfoldable pub lha : State → ℕ → M → Outcome M
  unfolding after_read
  lha s op m =
      let ea = ea_simm s op in
      after_read (mmu.read 2 op ea s m) (λ v m1. done (set_gpr s (reg_d op) (sign_extend16 v)) m1)

  unfoldable pub lhau : State → ℕ → M → Outcome M
  unfolding after_read
  lhau s op m =
      let ea = u32 (simm op + s.gpr (reg_a op)) in
      if not (reg_a op == reg_d op) && not (reg_a op == 0)
      then after_read (mmu.read 2 op ea s m)
          (λ v m1. done (set_gpr (set_gpr s (reg_d op) (sign_extend16 v)) (reg_a op) ea) m1)
      else stopped illegal s m

  unfoldable pub lhaux : State → ℕ → M → Outcome M
  unfolding after_read
  lhaux s op m =
      let ea = u32 (s.gpr (reg_a op) + s.gpr (reg_b op)) in
      if not (reg_a op == reg_d op) && not (reg_a op == 0)
      then after_read (mmu.read 2 op ea s m)
          (λ v m1. done (set_gpr (set_gpr s (reg_d op) (sign_extend16 v)) (reg_a op) ea) m1)
      else stopped illegal s m

  unfoldable pub lhax : State → ℕ → M → Outcome M
  unfolding after_read
  lhax s op m =
      let ea = ea_indexed s op in
      after_read (mmu.read 2 op ea s m) (λ v m1. done (set_gpr s (reg_d op) (sign_extend16 v)) m1)

  unfoldable pub lhbrx : State → ℕ → M → Outcome M
  unfolding after_read
  lhbrx s op m =
      let ea = ea_indexed s op in
      after_read (mmu.read 2 op ea s m) (λ v m1. done (set_gpr s (reg_d op) (byteswap16 v)) m1)

  unfoldable pub lwbrx : State → ℕ → M → Outcome M
  unfolding after_read
  lwbrx s op m =
      let ea = ea_indexed s op in
      after_read (mmu.read 4 op ea s m) (λ v m1. done (set_gpr s (reg_d op) (byteswap32 v)) m1)

  -- The reservation is made before the word is read.
  unfoldable pub lwarx : State → ℕ → M → Outcome M
  unfolding after_read
  lwarx s op m =
      let ea = ea_indexed s op in
      let s1 = record s { reserve = true } in
      after_read (mmu.read 4 op ea s1 m) (λ v m1. done (set_gpr s1 (reg_d op) v) m1)

  -- The loop of `lmw`, for the registers that are left.
  unfoldable pub lmw_loop : ℕ → ℕ → ℕ → ℕ → State → M → Outcome M
  lmw_loop zero reg ea op s m = done s m
  lmw_loop (suc n) reg ea op s m =
      after_read (mmu.read 4 op ea s m)
        (λ v m1. lmw_loop n (reg + 1) (u32 (ea + 4)) op (set_gpr s reg v) m1)

  unfoldable pub lmw : State → ℕ → M → Outcome M
  unfolding lmw_loop
  lmw s op m = lmw_loop (32 - reg_d op) (reg_d op) (ea_simm s op) op s m
