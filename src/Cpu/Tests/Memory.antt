-- ===== src/Cpu/Tests/Memory.antt =====
-- Memory that is a function from addresses to bytes, and the branches and the register save on a concrete state.
use chungusppc.Common.{
  ℕ, ◌+◌, ◌/◌, ◌%◌, ◌^◌, ◌≤◌, ◌<◌, ◌==◌, ◌≡◌, ◌⊎◌, inl, inr, refl, arith, true, false, leb,
  if◌then◌else◌, bit,
}
use chungusppc.Cpu.State.{State}
use chungusppc.Cpu.Condition.{mfcr, mtcrf}
use chungusppc.Cpu.Condition.RoundTrip.{mtcrf-mfcr}
use chungusppc.Cpu.Branch.{b, bcctr}
use chungusppc.Cpu.Branch.Laws.{IsBranch}
use chungusppc.Cpu.Branch.Targets.{far-IsBranch}
use chungusppc.Cpu.Memory.{done, got, Mmu}
use chungusppc.Cpu.Memory.Load.{lwarx, lmw}
use chungusppc.Cpu.Memory.Store.{stwcx, stmw}
use chungusppc.Cpu.Memory.Laws.{IsRam, word_at, lmw-stmw}
use chungusppc.Cpu.Memory.Reservation.{reservation-stwcx}
use chungusppc.Cpu.Tests.{sample, sample-IsWord}

-- Memory of bytes, as the host has it
abbrev stored_word : (ℕ → ℕ) → ℕ → ℕ → ℕ → ℕ
stored_word m ea v j =
    if j == ea
    then v / 2 ^ 24
    else if j == ea + 1
    then v / 2 ^ 16 % 256
    else if j == ea + 2
    then v / 2 ^ 8 % 256
    else if j == ea + 3
    then v % 256
    else m j

abbrev ram : Mmu (ℕ → ℕ)
ram = record {
  read = λ size op ea s m. (got (word_at m ea), m);
  write = λ size op ea v s m. (got tt, stored_word m ea v);
}

stored_lem : (m : ℕ → ℕ) (ea v : ℕ) → v < 2 ^ 32 → word_at (stored_word m ea v) ea ≡ v
stored_lem m ea v h = ground arith

kept_lem : (m : ℕ → ℕ) (ea v j : ℕ) → (j < ea) ⊎ (ea + 4 ≤ j) → stored_word m ea v j ≡ m j
kept_lem m ea v j (inl h) = ground arith
kept_lem m ea v j (inr h) = ground arith

ram-IsRam : IsRam ram (λ m. m) (λ m. Unit {0}) sample 0 0xffff_fff0
ram-IsRam = record {
  below = omega arith;
  reads = λ op ea s m same ready low high. (m, refl, tt, λ j p q. refl);
  writes = λ op ea v s m same ready low high h.
      (stored_word m ea v, refl, tt, stored_lem m ea v h, λ j p q apart. kept_lem m ea v j apart);
}

abbrev empty : ℕ → ℕ
empty ea = 0

-- `stmw r29, 64(0)` and `lmw r29, 64(0)`
abbrev op_stmw : ℕ
op_stmw = 0xbfa0_0040

abbrev op_lmw : ℕ
op_lmw = 0xbba0_0040

abbrev other : State
other = record sample { gpr = λ r. 5; reserve = true }

lmw-stmw_example :
    (m' m'' : ℕ → ℕ) × (t' : State) × (stmw ram sample op_stmw empty ≡ done sample m')
    × (lmw ram other op_lmw m' ≡ done t' m'')
    × ((r : ℕ) → r < 32 → t'.gpr r ≡ (if leb 29 r then sample.gpr r else 5))
lmw-stmw_example =
    lmw-stmw ram (λ m. m) (λ m. Unit {0}) sample 0 0xffff_fff0 ram-IsRam sample other op_stmw op_lmw
      empty sample-IsWord (refl, refl, refl, refl, refl) (refl, refl, refl, refl, refl) tt refl refl
      refl (omega arith) (omega arith)

-- r6 at r4 + r5
abbrev op_lwarx : ℕ
op_lwarx = 0x7cc4_2828

reservation-stwcx_example :
    (m1 m2 : ℕ → ℕ) × (t2 t3 : State) × ((s1 : State) × (lwarx ram sample op_lwarx empty
        ≡ done s1 m1)
      × (s1.gpr 6 ≡ 0)
      × (s1.reserve ≡ true)
      × Unit {0}
      × ((j : ℕ) → 0 ≤ j → j < 0xffff_fff0 → m1 j ≡ 0))
    × ((stwcx ram other op_lwarx m1 ≡ done t2 m2)
        × (bit t2.cr 29 ≡ 1)
        × (t2.reserve ≡ false)
        × (word_at m2 10 ≡ 5)
        × ((j : ℕ) → 0 ≤ j → j < 0xffff_fff0 → (j < 10) ⊎ (14 ≤ j) → m2 j ≡ m1 j))
    × (stwcx ram t2 op_lwarx m2 ≡ done t3 m2)
    × (bit t3.cr 29 ≡ 0)
reservation-stwcx_example =
    reservation-stwcx ram (λ m. m) (λ m. Unit {0}) sample 0 0xffff_fff0 ram-IsRam sample other
      op_lwarx op_lwarx empty (refl, refl, refl, refl, refl) (refl, refl, refl, refl, refl) tt
      (omega arith) (omega arith) (omega arith) (omega arith) refl

-- `mfcr r6` and `mtcrf 255, r6`
mtcrf-mfcr_example :
    (mtcrf (record (mfcr sample 0x7cc0_0026) { cr = 9 }) 0x7ccf_f120).cr ≡ 0x2480_0001
mtcrf-mfcr_example = mtcrf-mfcr sample 0x7cc0_0026 0x7ccf_f120 9 sample-IsWord refl refl

-- `bl` eight bytes back
far-IsBranch_example :
    (IsBranch true true 0xff8 2 sample (b true false sample 0x4bff_fff9))
    × (IsBranch true true 0 2 sample (bcctr true false sample 0x4bff_fff9)
        × IsBranch true true 0 2 sample (bcctr true true sample 0x4bff_fff9))
far-IsBranch_example = far-IsBranch true false sample 0x4bff_fff9 (omega arith)
