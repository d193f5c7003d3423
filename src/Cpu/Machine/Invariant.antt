-- ===== src/Cpu/Machine/Invariant.antt =====
-- The translation tables in use stay those of the recorded modes (cpu/ppc/ppcexceptions.cpp,
-- ppcopcodes.cpp and ppcmmu.cpp).
use chungusppc.Common.{ℕ, not, ◌&&◌, Bool, true, false, if◌then◌else◌, bit_and, not32, truth}
use chungusppc.Cpu.Decode.{reg_d}
use chungusppc.Cpu.Msr
use chungusppc.Cpu.Spr
use chungusppc.Cpu.Machine.{Machine, Host, msr_did_change, mmu_change_mode}
use chungusppc.Cpu.Machine.Entry
use chungusppc.Cpu.Machine.Modes.{IsSwitched, mode-IsSwitched, SameTables-IsSwitched}
use chungusppc.Cpu.Machine.Handler.{
  ExceptType, Flow, returned, jumped, aborted, and_then, not_allowed, return_to, is_unknown,
  is_asynchronous, is_endian_switch, follow_endian, enter, exception_handler, assert_int,
}
use chungusppc.Cpu.Machine.Return.{restored-IsSwitched}
use chungusppc.Cpu.Machine.Supervisor.{
  supervisor, sc, pending_exception, has_pending, restore_msr, resume, finish_rfi, rfi, sleeps,
  finish_mtmsr, mtmsr, mfmsr,
}

-- The predicate holds where the flow ends.
abbrev pub Everywhere : {E : Type 0} → (Machine E → Type 0) → Flow E → Type 0
Everywhere P (returned m) = P m
Everywhere P (jumped m) = P m
Everywhere P aborted = Unit

if_Everywhere :
    {E : Type 0} (P : Machine E → Type 0) (b : Bool) (f g : Flow E)
    → Everywhere P f
    → Everywhere P g
    → Everywhere P (if b then f else g)
if_Everywhere P true f g p q = p
if_Everywhere P false f g p q = q

and_then-Everywhere :
    {E : Type 0} (P : Machine E → Type 0) (f : Flow E) (next : Machine E → Flow E)
    → Everywhere P f
    → ((m : Machine E) → P m → Everywhere P (next m))
    → Everywhere P (and_then f next)
unfolding and_then
and_then-Everywhere P (returned m) next p k = k m p
and_then-Everywhere P (jumped m) next p k = p
and_then-Everywhere P aborted next p k = tt

if_IsSwitched :
    {E : Type 0} (b : Bool) (m n : Machine E)
    → IsSwitched m
    → IsSwitched n
    → IsSwitched (if b then m else n)
if_IsSwitched true m n p q = p
if_IsSwitched false m n p q = q

module _ {E : Type 0} (h : Host E) where
  handler-IsSwitched :
      (ty : ExceptType) (srr1_bits : ℕ) (m : Machine E)
      → IsSwitched m
      → Everywhere IsSwitched (exception_handler h ty srr1_bits m)
  unfolding exception_handler
  handler-IsSwitched ty srr1_bits m q =
      let e = enter h ty srr1_bits m in
      let p = (Entry.enter-IsSwitched h ty srr1_bits m q).0 in
      if_Everywhere IsSwitched (is_unknown (return_to ty)) aborted _ tt (
        if_Everywhere IsSwitched (is_asynchronous ty) (returned e) _ p (
          if_IsSwitched (not e.power_on && is_endian_switch e.power_off_reason)
            (record e { power_on = true }) e p p))

  supervisor-IsSwitched :
      (m : Machine E) (rest : Machine E → Flow E)
      → IsSwitched m
      → Everywhere IsSwitched (rest m)
      → Everywhere IsSwitched (supervisor h m rest)
  unfolding supervisor
  supervisor-IsSwitched m rest q p =
      if_Everywhere IsSwitched (truth (bit_and m.cpu.msr Msr.pr)) _ (rest m)
        (handler-IsSwitched ExceptType.exc_program not_allowed m q) p

  pending-IsSwitched :
      (m : Machine E) → IsSwitched m → Everywhere IsSwitched (pending_exception h m)
  unfolding pending_exception
  pending-IsSwitched m q =
      if_Everywhere IsSwitched m.int_pin _ _ (handler-IsSwitched ExceptType.exc_ext_int 0 m q) (
        if_Everywhere IsSwitched m.dec_exception_pending _ _
          (handler-IsSwitched ExceptType.exc_decr 0 (record m { dec_exception_pending = false }) q)
          (if_Everywhere IsSwitched m.thrm_exception_pending _ (returned m)
            (handler-IsSwitched ExceptType.exc_thrm_mgmt_int 0
              (record m { thrm_exception_pending = false }) q)
            q))

  resume-IsSwitched : (m : Machine E) → IsSwitched m → IsSwitched (resume h m)
  unfolding resume
  resume-IsSwitched m q =
      (mode-IsSwitched
        (record m {
          cpu = record m.cpu { next_pc = bit_and (m.cpu.spr Spr.srr0) (not32 3) };
          env = h.do_ctx_sync m.env;
        })
        q).0

  rfi-IsSwitched : (m : Machine E) → IsSwitched m → Everywhere IsSwitched (rfi h m)
  unfolding rfi finish_rfi
  rfi-IsSwitched m q =
      let m1 = restore_msr h m in
      let q1 = restored-IsSwitched h m q in
      supervisor-IsSwitched m _ q (
        if_Everywhere IsSwitched (truth (bit_and m1.cpu.msr Msr.ee) && has_pending m1) _
          (returned (resume h m1))
          (and_then-Everywhere IsSwitched (pending_exception h m1) _ (pending-IsSwitched m1 q1)
            (λ m2 q2. q2))
          (resume-IsSwitched m1 q1))

  changed-IsSwitched :
      (new : ℕ) (m : Machine E)
      → IsSwitched m
      → IsSwitched (msr_did_change m.cpu.msr new true (follow_endian h new m))
  changed-IsSwitched new m q =
      SameTables-IsSwitched (follow_endian h new m)
        (msr_did_change m.cpu.msr new true (follow_endian h new m))
        (Entry.msr-Keeps m.cpu.msr new true (follow_endian h new m)).3
        (SameTables-IsSwitched m (follow_endian h new m) (Entry.endian-keeps h new m).2 q)

  mtmsr-IsSwitched :
      (opcode : ℕ) (m : Machine E) → IsSwitched m → Everywhere IsSwitched (mtmsr h opcode m)
  unfolding mtmsr finish_mtmsr
  mtmsr-IsSwitched opcode m q =
      let new = m.cpu.gpr (reg_d opcode) in
      let m1 = msr_did_change m.cpu.msr new true (follow_endian h new m) in
      let q1 = changed-IsSwitched new m q in
      supervisor-IsSwitched m _ q (
        if_Everywhere IsSwitched (truth (bit_and m1.cpu.msr Msr.ee) && has_pending m1) _ _
          (pending-IsSwitched m1 q1)
          (if_Everywhere IsSwitched (truth (bit_and m1.cpu.msr Msr.pow) && sleeps m1.pow_mode m1) _
            (returned (mmu_change_mode m1)) q1 (mode-IsSwitched m1 q1).0))

  -- The translation tables in use stay those of the recorded modes, and no mode is that of a user without translation, over every exception, a system call, `rfi`,
  -- `mtmsr`, `mfmsr` and an external interrupt, whether they return or leave for the main loop.
  pub machine-IsSwitched :
      (ty : ExceptType) (srr1_bits opcode : ℕ) (m : Machine E)
      → IsSwitched m
      → Everywhere IsSwitched (exception_handler h ty srr1_bits m)
        × Everywhere IsSwitched (sc h m)
        × Everywhere IsSwitched (rfi h m)
        × Everywhere IsSwitched (mtmsr h opcode m)
        × Everywhere IsSwitched (mfmsr h opcode m)
        × Everywhere IsSwitched (assert_int h m)
  unfolding sc mfmsr assert_int
  machine-IsSwitched ty srr1_bits opcode m q = (
    handler-IsSwitched ty srr1_bits m q,
    handler-IsSwitched ExceptType.exc_syscall 0 (record m { env = h.do_ctx_sync m.env }) q,
    rfi-IsSwitched m q,
    mtmsr-IsSwitched opcode m q,
    supervisor-IsSwitched m _ q q,
    if_Everywhere IsSwitched (truth (bit_and m.cpu.msr Msr.ee)) _
        (returned (record m { int_pin = true }))
        (handler-IsSwitched ExceptType.exc_ext_int 0 (record m { int_pin = true }) q) q,
  )
