-- ===== src/Cpu/Mmu/Tlb/Fetch.antt =====
-- The instruction side of cpu/ppc/ppcmmu.cpp: the refill of the secondary buffer, and the translation of
-- the address of an instruction through both buffers. `walk` is the address translation that the
-- refill starts with; it may change the environment `E` (the processor and memory).
use chungusppc.Common.{
  ℕ, ◌+◌, ◌-◌, ◌*◌, ◌/◌, ◌%◌, ◌^◌, ◌==◌, Bool, true, false, if◌then◌else◌, truth, bit_and, bit_or,
  bit_xor, Option, none, some,
}
use chungusppc.Cpu.Machine.Handler.{ExceptType}
use chungusppc.Cpu.Mmu.Tlb.{
  Sources, TlbEntry, Slot, Tlb, primary, tlb_index, write, track_translated_entry,
  promote_tlb_entry, tlb2_target_entry, lookup_secondary_tlb,
}

-- AddressMapEntry of devices/memctrl/memctrlbase.h; `mem_ptr` is an address of the host.
pub record AddressMapEntry : Type 0 where
  pub start : ℕ
  pub end : ℕ
  pub region_type : ℕ
  pub mem_ptr : ℕ

abbrev pub rt_rom : ℕ
rt_rom = 1

abbrev pub rt_ram : ℕ
rt_ram = 2

abbrev pub rt_mmio : ℕ
rt_mmio = 4

-- What a translation ends in: a value, an exception with its bits for SRR1, or ABORT_F.
pub data Outcome (A : Type 0) : Type 0 where
  done : A → Outcome A
  raised : ExceptType → ℕ → Outcome A
  aborted : Outcome A

-- A physical address and where it comes from
pub record Translated : Type 0 where
  pub phys_addr : ℕ
  pub from : Sources

abbrev pub page_tag : ℕ → ℕ
page_tag va = va / 2 ^ 12 * 2 ^ 12

-- (int64_t)mem_ptr - guest_va + (phys_addr - start), as `uint64_t`
abbrev pub host_offset : AddressMapEntry → ℕ → ℕ → ℕ
host_offset rgn guest_va phys_addr =
    (rgn.mem_ptr + (phys_addr - rgn.start) + 2 ^ 64 - guest_va) % 2 ^ 64

-- The entry of a page of instructions
unfoldable pub fetch_entry : AddressMapEntry → Translated → ℕ → TlbEntry → TlbEntry
fetch_entry rgn x guest_va old = record old {
  tag = page_tag guest_va;
  flags = record {
    page_mem = true;
    page_io = false;
    page_nophys = false;
    from = x.from;
    page_writable = false;
    pte_set_c = false;
    tlbe_ctx_tracked = old.flags.tlbe_ctx_tracked;
  };
  host_va_offs_r = host_offset rgn guest_va (x.phys_addr);
  phys_tag = page_tag (x.phys_addr);
}

-- The entry is put into the set, and tracked.
unfoldable pub fill : (TlbEntry → TlbEntry) → ℕ → ℕ → Tlb → Slot × Tlb
fill entry table tag t =
    let r = tlb2_target_entry table tag t in
    let t1 = r.1 in
    (
      r.0,
      track_translated_entry r.0
          (record t1 { entries = write r.0 (entry (t1.entries r.0)) t1.entries }),
    )

-- The addresses of an instruction: on the host, and the physical one
abbrev pub addresses : TlbEntry → ℕ → ℕ × ℕ
addresses tlb1_entry vaddr =
    ((tlb1_entry.host_va_offs_r + vaddr) % 2 ^ 64, bit_or tlb1_entry.phys_tag (vaddr % 2 ^ 12))

module _ {E : Type 0} (walk : ℕ → E → Outcome Translated × E)
    (find_range : ℕ → Option AddressMapEntry) where
  unfoldable pub refill_region :
      ℕ → ℕ → Translated → Option AddressMapEntry → Tlb × E → Outcome Slot × Tlb × E
  unfolding fill
  refill_region table guest_va x none (t, e) = (aborted, t, e)
  refill_region table guest_va x (some rgn) (t, e) =
      if truth (bit_and rgn.region_type rt_mmio)
      then (aborted, t, e)
      else (let r = fill (fetch_entry rgn x guest_va) table (page_tag guest_va) t in
          (done r.0, r.1, e))

  unfoldable pub refill_walked : ℕ → ℕ → Outcome Translated × E → Tlb → Outcome Slot × Tlb × E
  unfolding refill_region
  refill_walked table guest_va (done x, e) t =
      refill_region table guest_va x (find_range x.phys_addr) (t, e)
  refill_walked table guest_va (raised ty srr1, e) t = (raised ty srr1, t, e)
  refill_walked table guest_va (aborted, e) t = (aborted, t, e)

  unfoldable pub itlb2_refill : ℕ → ℕ → Tlb × E → Outcome Slot × Tlb × E
  unfolding refill_walked
  itlb2_refill table guest_va (t, e) = refill_walked table guest_va (walk guest_va e) t

  unfoldable pub promoted : ℕ → ℕ → Outcome Slot × Tlb × E → Outcome (ℕ × ℕ) × Tlb × E
  promoted table vaddr (done at, t, e) =
      let tlb1 = primary table (tlb_index vaddr) in
      let t1 = promote_tlb_entry tlb1 (t.entries at) t in
      (done (addresses (t1.entries tlb1) vaddr), t1, e)
  promoted table vaddr (raised ty srr1, t, e) = (raised ty srr1, t, e)
  promoted table vaddr (aborted, t, e) = (aborted, t, e)

  -- After the lookup in the secondary buffer
  unfoldable pub fetch_missed : ℕ → ℕ → Option Slot × Tlb → E → Outcome (ℕ × ℕ) × Tlb × E
  unfolding promoted itlb2_refill
  fetch_missed table vaddr (some at, t) e = promoted table vaddr (done at, t, e)
  fetch_missed table vaddr (none, t) e = promoted table vaddr (itlb2_refill table vaddr (t, e))

  unfoldable pub fetch_at : ℕ → ℕ → Tlb × E → Outcome (ℕ × ℕ) × Tlb × E
  unfolding fetch_missed
  fetch_at table vaddr (t, e) =
      let tag = page_tag vaddr in
      let tlb1 = t.entries (primary table (tlb_index vaddr)) in
      if tlb1.tag == tag
      then (done (addresses tlb1 vaddr), t, e)
      else fetch_missed table vaddr (lookup_secondary_tlb table vaddr tag t) e

  unfoldable pub mmu_translate_imem : Bool → ℕ → ℕ → Tlb × E → Outcome (ℕ × ℕ) × Tlb × E
  unfolding fetch_at
  mmu_translate_imem is_le table vaddr m =
      fetch_at table (if is_le then bit_xor vaddr 4 else vaddr) m
