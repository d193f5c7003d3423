-- ===== src/Cpu/Memory/Store.antt =====
-- The integer stores. The template argument is the size in bytes; a value is cut to it.
use chungusppc.Common.{
  ℕ, zero, suc, ◌+◌, ◌-◌, ◌*◌, ◌%◌, ◌^◌, ◌==◌, if◌then◌else◌, false, not, truth, bit_and, bit_or,
  u16, u32, ◌>>>◌,
}
use chungusppc.Cpu.State.{State, set_gpr}
use chungusppc.Cpu.Decode.{reg_a, reg_b, reg_d, simm}
use chungusppc.Cpu.Spr
use chungusppc.Cpu.Xer
use chungusppc.Cpu.Memory.{
  Outcome, done, stopped, illegal, alignment, Mmu, ea_simm, ea_indexed, after_write,
}
use chungusppc.Cpu.Memory.Load.{byteswap16, byteswap32}

abbrev pub cut : ℕ → ℕ → ℕ
cut size v = v % 2 ^ (8 * size)

module _ {M : Type 0} (mmu : Mmu M) where
  unfoldable pub st : ℕ → State → ℕ → M → Outcome M
  unfolding after_write
  st size s op m =
      after_write (mmu.write size op (ea_simm s op) (cut size (s.gpr (reg_d op))) s m)
        (λ m1. done s m1)

  unfoldable pub stx : ℕ → State → ℕ → M → Outcome M
  unfolding after_write
  stx size s op m =
      after_write (mmu.write size op (ea_indexed s op) (cut size (s.gpr (reg_d op))) s m)
        (λ m1. done s m1)

  unfoldable pub stu : ℕ → State → ℕ → M → Outcome M
  unfolding after_write
  stu size s op m =
      let ea = u32 (s.gpr (reg_a op) + simm op) in
      if not (reg_a op == 0)
      then after_write (mmu.write size op ea (cut size (s.gpr (reg_d op))) s m)
          (λ m1. done (set_gpr s (reg_a op) ea) m1)
      else if s.is_601
      then after_write (mmu.write size op (simm op) (cut size (s.gpr (reg_d op))) s m)
          (λ m1. done s m1)
      else stopped illegal s m

  unfoldable pub stux : ℕ → State → ℕ → M → Outcome M
  unfolding after_write
  stux size s op m =
      let ea = u32 (s.gpr (reg_a op) + s.gpr (reg_b op)) in
      if not (reg_a op == 0)
      then after_write (mmu.write size op ea (cut size (s.gpr (reg_d op))) s m)
          (λ m1. done (set_gpr s (reg_a op) ea) m1)
      else if s.is_601
      then after_write (mmu.write size op (s.gpr (reg_b op)) (cut size (s.gpr (reg_d op))) s m)
          (λ m1. done s m1)
      else stopped illegal s m

  unfoldable pub sthbrx : State → ℕ → M → Outcome M
  unfolding after_write
  sthbrx s op m =
      after_write (mmu.write 2 op (ea_indexed s op) (byteswap16 (u16 (s.gpr (reg_d op)))) s m)
        (λ m1. done s m1)

  unfoldable pub stwbrx : State → ℕ → M → Outcome M
  unfolding after_write
  stwbrx s op m =
      after_write (mmu.write 4 op (ea_indexed s op) (byteswap32 (s.gpr (reg_d op))) s m)
        (λ m1. done s m1)

  -- CR0 is cleared before the store, and gets its EQ bit after it.
  unfoldable pub stwcx : State → ℕ → M → Outcome M
  unfolding after_write
  stwcx s op m =
      let ea = ea_indexed s op in
      let cr = bit_or (bit_and s.cr 0x0fff_ffff) (bit_and (s.spr Spr.xer) Xer.so >>> 3) in
      let s1 = record s { cr = cr } in
      if s.reserve
      then after_write (mmu.write 4 op ea (cut 4 (s.gpr (reg_d op))) s1 m)
          (λ m1. done (record s1 { reserve = false; cr = bit_or cr 0x2000_0000 }) m1)
      else done s1 m

  -- The loop of `stmw`, for the registers that are left.
  unfoldable pub stmw_loop : ℕ → ℕ → ℕ → ℕ → State → M → Outcome M
  stmw_loop zero reg ea op s m = done s m
  stmw_loop (suc n) reg ea op s m =
      after_write (mmu.write 4 op ea (cut 4 (s.gpr reg)) s m)
        (λ m1. stmw_loop n (reg + 1) (u32 (ea + 4)) op s m1)

  unfoldable pub stmw : State → ℕ → M → Outcome M
  unfolding stmw_loop
  stmw s op m =
      let ea = ea_simm s op in
      if truth (bit_and ea 3)
      then stopped (alignment ea) s m
      else stmw_loop (32 - reg_d op) (reg_d op) ea op s m
