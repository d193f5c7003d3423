-- ===== src/Cpu/Machine/Pending.antt =====
-- An `rfi` that enables interrupts while one waits (cpu/ppc/ppcopcodes.cpp).
use chungusppc.Common.{
  ℕ, ◌≡◌, not, ◌&&◌, ◌||◌, refl, ◌∙◌, ap, Bool, Bool-cases, true, false, inl, inr, if◌then◌else◌,
  bit_and, not32, truth,
}
use chungusppc.Cpu.State.{set_spr}
use chungusppc.Cpu.Msr
use chungusppc.Cpu.Spr
use chungusppc.Cpu.Machine.{Machine, Host}
use chungusppc.Cpu.Machine.Modes.{IsSwitched}
use chungusppc.Cpu.Machine.Handled.{IsEntry, enter-IsEntry}
use mathlib.Core.Path.{subst₃}
use chungusppc.Cpu.Machine.Handler.{
  ExceptType, return_to, is_unknown, is_asynchronous, is_endian_switch, enter, exception_handler,
  Flow, returned, jumped, and_then,
}
use chungusppc.Cpu.Machine.Return.{
  restored-IsSwitched, restored-msr, restored-spr, restored-pending,
}
use chungusppc.Cpu.Machine.Supervisor.{
  return_msr, supervisor, restore_msr, pending_exception, finish_rfi, has_pending, rfi,
}

-- The handler returns for the first two of the interrupts that may wait.
abbrev pub comes_back : {E : Type 0} → Machine E → Bool
comes_back m = m.int_pin || m.dec_exception_pending

-- The interrupt that is taken, by priority
abbrev pub first_interrupt : {E : Type 0} → Machine E → ExceptType
first_interrupt m =
    if m.int_pin
    then ExceptType.exc_ext_int
    else if m.dec_exception_pending
    then ExceptType.exc_decr
    else ExceptType.exc_thrm_mgmt_int

module _ {E : Type 0} (h : Host E) where
  -- The flow takes the interrupt on the machine m: as the exception leaves it, but for SRR0, which is
  -- `back` where the handler returns.
  abbrev pub IsTaken : ExceptType → Bool → ℕ → Machine E → Flow E → Type 0
  IsTaken ty comes back m f =
      (e r : Machine E) × IsEntry ty 0 m e.cpu e.shadow_gprs e.itlb e.dtlb
      × (f ≡ (if comes then returned r else jumped r))
      × (r.cpu ≡ (if comes then set_spr e.cpu Spr.srr0 back else e.cpu))
      × (r.shadow_gprs ≡ e.shadow_gprs)
      × (r.itlb ≡ e.itlb)
      × (r.dtlb ≡ e.dtlb)

  -- What waits does not matter to an exception.
  transfer :
      (ty : ExceptType) (dec thrm : Bool) (m e : Machine E)
      → IsEntry ty 0
          (record m { dec_exception_pending = dec; thrm_exception_pending = thrm })
          e.cpu
          e.shadow_gprs
          e.itlb
          e.dtlb
      → IsEntry ty 0 m e.cpu e.shadow_gprs e.itlb e.dtlb
  transfer ty dec thrm m e k = record {
    srr0 = k.srr0;
    srr1 = k.srr1;
    spr = k.spr;
    msr = k.msr;
    next_pc = k.next_pc;
    flags = k.flags;
    gpr = k.gpr;
    shadow = k.shadow;
    keeps = k.keeps;
    itable = k.itable;
    dtable = k.dtable;
  }

  -- SRR0 is set again after a handler that returns.
  abbrev again : ℕ → Machine E → Flow E
  again back m = returned (record m { cpu = set_spr m.cpu Spr.srr0 back })

  module _ (m : Machine E) (back : ℕ) (dec thrm : Bool) (q : IsSwitched m) where
    abbrev cleared : Machine E
    cleared = record m { dec_exception_pending = dec; thrm_exception_pending = thrm }

    entered :
        (ty : ExceptType)
        → let e = enter h ty 0 cleared in IsEntry ty 0 m e.cpu e.shadow_gprs e.itlb e.dtlb
    entered ty = transfer ty dec thrm m (enter h ty 0 cleared) (enter-IsEntry h ty 0 cleared q)

    returning :
        (ty : ExceptType)
        → is_unknown (return_to ty) ≡ false
        → is_asynchronous ty ≡ true
        → IsTaken ty true back m (and_then (exception_handler h ty 0 cleared) (again back))
    unfolding exception_handler and_then
    returning ty known on =
        let e = enter h ty 0 cleared in
        (
          e,
          record e { cpu = set_spr e.cpu Spr.srr0 back },
          entered ty,
          rw (known, on) refl,
          refl,
          refl,
          refl,
          refl,
        )

    leaving :
        (ty : ExceptType)
        → is_unknown (return_to ty) ≡ false
        → is_asynchronous ty ≡ false
        → IsTaken ty false back m (and_then (exception_handler h ty 0 cleared) (again back))
    unfolding exception_handler and_then
    leaving ty known away =
        let e = enter h ty 0 cleared in
        elim (Bool-cases (not e.power_on && is_endian_switch e.power_off_reason)) [
          | inl on ↦ (
            e,
            record e { power_on = true },
            entered ty,
            rw (known, away) (rw on refl),
            refl,
            refl,
            refl,
            refl,
          )
          | inr off ↦ (e, e, entered ty, rw (known, away) (rw off refl), refl, refl, refl, refl)
        ]

  -- The choice by priority
  first_of :
      (Q : ExceptType → Bool → Flow E → Type 0) (int dec thrm : Bool)
      (on_int on_dec on_thrm none_left : Flow E)
      → (int || dec || thrm) ≡ true
      → Q ExceptType.exc_ext_int true on_int
      → Q ExceptType.exc_decr true on_dec
      → Q ExceptType.exc_thrm_mgmt_int false on_thrm
      → Q
          (if int
            then ExceptType.exc_ext_int
            else if dec
            then ExceptType.exc_decr
            else ExceptType.exc_thrm_mgmt_int)
          (int || dec)
          (if int then on_int else if dec then on_dec else if thrm then on_thrm else none_left)
  first_of Q true dec thrm oi od ot nl w a b c = a
  first_of Q false true thrm oi od ot nl w a b c = b
  first_of Q false false true oi od ot nl w a b c = c
  first_of Q false false false oi od ot nl w a b c = absurd cc

  -- The waiting interrupt of a machine whose MSR enables it
  taken :
      (m : Machine E) (back : ℕ)
      → IsSwitched m
      → has_pending m ≡ true
      → IsTaken
          (first_interrupt m)
          (comes_back m)
          back
          m
          (and_then (pending_exception h m) (again back))
  unfolding pending_exception is_unknown is_asynchronous return_to
  taken m back q waits =
      let dec = m.dec_exception_pending in
      let thrm = m.thrm_exception_pending in
      first_of (λ ty b f. IsTaken ty b back m (and_then f (again back))) m.int_pin dec thrm
        (exception_handler h ExceptType.exc_ext_int 0 m)
        (exception_handler h ExceptType.exc_decr 0 (record m { dec_exception_pending = false }))
        (exception_handler h ExceptType.exc_thrm_mgmt_int 0
          (record m { thrm_exception_pending = false }))
        (returned m) waits (returning m back dec thrm q ExceptType.exc_ext_int refl refl)
        (returning m back false thrm q ExceptType.exc_decr refl refl)
        (leaving m back dec false q ExceptType.exc_thrm_mgmt_int refl refl)

  -- In supervisor mode, with the tables in use those of the recorded modes, an `rfi` whose restored MSR
  -- enables the interrupt that waits takes it at once, by priority, in the state with the restored MSR.
  -- For an external or decrementer interrupt the handler will return to the word of SRR0, as the `rfi`
  -- would have; for a thermal interrupt alone it returns to the instruction after the `rfi`, or to the next
  -- address that the interpreter has recorded, and the address in SRR0 is lost.
  pub rfi-pending :
      (m : Machine E)
      → truth (bit_and m.cpu.msr Msr.pr) ≡ false
      → truth (bit_and (return_msr m.cpu) Msr.ee) ≡ true
      → has_pending m ≡ true
      → IsSwitched m
      → IsTaken
          (first_interrupt m)
          (comes_back m)
          (bit_and (m.cpu.spr Spr.srr0) (not32 3))
          (restore_msr h m)
          (rfi h m)
  unfolding rfi supervisor finish_rfi
  rfi-pending m mode on waits q =
      let m1 = restore_msr h m in
      let p = restored-pending h m in
      let waits1 : has_pending m1 ≡ true = simp (p.0, p.1, p.2) waits in
      let comes : comes_back m1 ≡ comes_back m = simp (p.0, p.1) in
      let first : first_interrupt m1 ≡ first_interrupt m = simp (p.0, p.1) in
      let word : bit_and (m1.cpu.spr Spr.srr0) (not32 3) ≡ bit_and (m.cpu.spr Spr.srr0) (not32 3) =
        ap (λ f. bit_and (f Spr.srr0) (not32 3)) (restored-spr h m) in
      let enabled : truth (bit_and m1.cpu.msr Msr.ee) ≡ true =
        ap (λ x. truth (bit_and x Msr.ee)) (restored-msr h m) ∙ on in
      let interrupt =
        taken m1 (bit_and (m1.cpu.spr Spr.srr0) (not32 3)) (restored-IsSwitched h m q) waits1 in
      rw (mode, enabled, waits1)
        (subst₃
          (λ ty b w.
            IsTaken ty b w m1
              (and_then (pending_exception h m1) (again (bit_and (m1.cpu.spr Spr.srr0) (not32 3)))))
          first comes word interrupt)
