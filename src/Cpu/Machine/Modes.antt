-- ===== src/Cpu/Machine/Modes.antt =====
-- The translation tables in use (`mmu_change_mode` of cpu/ppc/ppcmmu.cpp).
use chungusppc.Common.{ℕ, ◌≡◌, ◌==◌, Bool, true, false, if◌then◌else◌, bit_and, truth, arith}
use chungusppc.Cpu.Msr
use chungusppc.Cpu.Machine.{Machine, mmu_mode, switch_mode, mode_table, mmu_change_mode}

-- The table in use is the one of the recorded mode, which is not that of a user without translation.
abbrev pub IsTable : ℕ → ℕ → Type 0
IsTable mode table = (table ≡ mode_table mode) × ((mode == 1) ≡ false)

abbrev pub IsSwitched : {E : Type 0} → Machine E → Type 0
IsSwitched m = IsTable m.itlb_mode m.itlb × IsTable m.dtlb_mode m.dtlb

abbrev pub SameTables : {E : Type 0} → Machine E → Machine E → Type 0
SameTables m n =
    (n.itlb_mode ≡ m.itlb_mode)
    × (n.dtlb_mode ≡ m.dtlb_mode)
    × (n.itlb ≡ m.itlb)
    × (n.dtlb ≡ m.dtlb)

pub SameTables-IsSwitched :
    {E : Type 0} (m n : Machine E) → SameTables m n → IsSwitched m → IsSwitched n
SameTables-IsSwitched m n (a, b, c, d) ((i, i'), (j, j')) =
    ((rw (a, c) i, rw a i'), (rw (b, d) j, rw b j'))

-- Instructions and data are translated by the tables for IR, DR and PR of MSR: 1 with real
-- addresses, 2 for the supervisor, 3 for the user.
abbrev pub table_for : ℕ → ℕ → ℕ
table_for msr translate =
    if truth (bit_and msr translate) then (if truth (bit_and msr Msr.pr) then 3 else 2) else 1

abbrev pub IsTranslating : {E : Type 0} → Machine E → Type 0
IsTranslating m = (m.itlb ≡ table_for m.cpu.msr Msr.ir) × (m.dtlb ≡ table_for m.cpu.msr Msr.dr)

switch-IsTable :
    (mode table : ℕ) (translate user : Bool)
    → IsTable mode table
    → let asked = mmu_mode translate user in
      let mode' = if mode == asked then mode else switch_mode asked in
      let table' = if mode == asked then table else mode_table asked in
      IsTable mode' table' × (table' ≡ (if translate then (if user then 3 else 2) else 1))
unfolding mmu_mode switch_mode mode_table
switch-IsTable mode table true true t = ground arith
switch-IsTable mode table true false t = ground arith
switch-IsTable mode table false true t = ground arith
switch-IsTable mode table false false t = ground arith

pub mode-IsSwitched :
    {E : Type 0} (m : Machine E)
    → IsSwitched m
    → IsSwitched (mmu_change_mode m) × IsTranslating (mmu_change_mode m)
unfolding mmu_change_mode
mode-IsSwitched m (i, d) =
    let user = truth (bit_and m.cpu.msr Msr.pr) in
    let i' = switch-IsTable m.itlb_mode m.itlb (truth (bit_and m.cpu.msr Msr.ir)) user i in
    let d' = switch-IsTable m.dtlb_mode m.dtlb (truth (bit_and m.cpu.msr Msr.dr)) user d in
    ((i'.0, d'.0), (i'.1, d'.1))
