-- ===== src/Cpu/Mmu/Translate.antt =====
-- The choice between the translations of cpu/ppc/ppcmmu.cpp: for a page, and for the refill of the
-- buffers of instructions. The change of a segment register or of SDR1 invalidates the pages in both
-- kinds of buffers.
pub mod Real
use chungusppc.Common.{
  ℕ, ◌%◌, ◌^◌, ◌==◌, ◌&&◌, Bool, true, false, if◌then◌else◌, bit_and, bit_or, truth, u32, to_nat,
  Option, ◌<<<◌, ◌>>>◌,
}
use chungusppc.Cpu.State.{State}
use chungusppc.Cpu.Msr
use chungusppc.Cpu.Machine.Handler.{ExceptType, exc_isi}
use chungusppc.Cpu.Mmu.Tlb.{Sources, Tlb, no_source, pat_source, schedule_tlb_invalidation}
use chungusppc.Cpu.Mmu.Tlb.Fetch.{AddressMapEntry, Translated, Outcome, done, raised, aborted}
use chungusppc.Cpu.Mmu.Bat.{
  PpcBatEntry, BatResult, BatUnit, user_mode, mpc601_block_address_translation,
  ppc_block_address_translation,
}
use chungusppc.Cpu.Mmu.Page.{PatResult, PageUnit, table_walk}
use chungusppc.Cpu.Mmu.Tlb603.{mpc603_page_address_translation}

-- A segment of the 601 that is forced into memory
forced_segment : ℕ → ℕ → State × PageUnit → Outcome PatResult × State × PageUnit
forced_segment la sr_val (s, u) =
    if (sr_val >>> 20) % 2 ^ 9 == 0x7f
    then (
      done (record {
        phys = bit_or (bit_and la 0x0fff_ffff) (u32 (sr_val <<< 28));
        prot = 0;
        pte_c_status = 1;
      }),
      s,
      u,
    )
    else (aborted, s, u)

unfoldable pub page_address_translation :
    (ℕ → Option AddressMapEntry)
    → ℕ
    → Bool
    → ℕ
    → ℕ
    → State × PageUnit
    → Outcome PatResult × State × PageUnit
unfolding forced_segment
page_address_translation find_range la is_instr_fetch msr_pr is_write (s, u) =
    let sr_val = s.sr ((la >>> 28) % 16) in
    if truth (bit_and sr_val 0x8000_0000)
    then forced_segment la sr_val (s, u)
    else if truth (bit_and sr_val 0x1000_0000) && is_instr_fetch
    then (raised exc_isi 0x1000_0000, s, u)
    else if s.is_603
    then mpc603_page_address_translation la sr_val is_instr_fetch msr_pr is_write (s, u)
    else table_walk find_range la is_instr_fetch sr_val msr_pr is_write (s, u)

bat_source : Sources
bat_source = record { bat = true; pat = false }

from_page : Outcome PatResult × State × PageUnit → Outcome Translated × (State × PageUnit)
from_page (done r, s, u) = (done (record { phys_addr = r.phys; from = pat_source }), (s, u))
from_page (raised ty srr1, s, u) = (raised ty srr1, (s, u))
from_page (aborted, s, u) = (aborted, (s, u))

-- The translation that `itlb2_refill` starts with
unfoldable pub fetch_translation :
    (ℕ → Option AddressMapEntry)
    → (ℕ → PpcBatEntry)
    → ℕ
    → State × PageUnit
    → Outcome Translated × (State × PageUnit)
unfolding bat_source from_page
fetch_translation find_range ibat_array guest_va (s, u) =
    let bat_res =
      if s.is_601
      then mpc601_block_address_translation s ibat_array guest_va
      else ppc_block_address_translation s ibat_array guest_va in
    if truth (bit_and s.msr Msr.ir)
    then (if bat_res.hit
        then (if bat_res.prot == 0
            then (raised exc_isi 0x0800_0000, (s, u))
            else (done (record { phys_addr = bat_res.phys; from = bat_source }), (s, u)))
        else from_page (page_address_translation find_range guest_va true (user_mode s) 0 (s, u)))
    else (done (record { phys_addr = guest_va; from = no_source }), (s, u))

unfoldable pub mmu_pat_ctx_changed : BatUnit → BatUnit
mmu_pat_ctx_changed u = record u {
  itlb = schedule_tlb_invalidation pat_source u.itlb;
  dtlb = schedule_tlb_invalidation pat_source u.dtlb;
}
