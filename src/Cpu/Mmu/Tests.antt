-- ===== src/Cpu/Mmu/Tests.antt =====
-- Runs of the memory management unit, and its theorems at concrete inputs.
use chungusppc.Common.{
  ℕ, ◌+◌, ◌*◌, ◌%◌, ◌^◌, ◌≤◌, ◌==◌, ltb, leb, true, false, if◌then◌else◌, ◌≡◌, refl, ap, arith,
  bit_and, Option, none, some, [],
}
use chungusppc.Cpu.State.{State, set_spr}
use chungusppc.Cpu.Spr
use chungusppc.Cpu.Tests.{sample}
use chungusppc.Cpu.Mmu.Bat.{
  PpcBatEntry, bat_search, ppc_entry, ppc_block_address_translation,
  mpc601_block_address_translation,
}
use chungusppc.Cpu.Mmu.Bat.Laws.{FirstBlock, MatchesPpc, GivesPpc, is_user}
use chungusppc.Cpu.Mmu.Bat.Laws601.{entry_601, Matches601, Gives601, block_translations-FirstBlock}
use chungusppc.Cpu.Mmu.Page.{
  PageUnit, itlb, dtlb, pat_key, is_refused, table_walk, calc_pteg_addr, search_pteg, read_dword,
  use_pte,
}
use chungusppc.Cpu.Machine.{Machine, Host, PoCause, PowMode}
use chungusppc.Cpu.Mmu.Instructions.{Buffers}
use chungusppc.Cpu.Machine.Handler.{exc_isi}
use chungusppc.Cpu.Mmu.Translate.{page_address_translation, fetch_translation}
use chungusppc.Cpu.Mmu.Tlb603.{
  mpc603_tlb_miss, mmu_603_tlb_load, mmu_603_tlb_invalidate_set, mpc603_page_address_translation,
}
use chungusppc.Cpu.Mmu.Tlb603.Laws.{IsUnique, tlb603-IsUnique}
use chungusppc.Cpu.Mmu.Tlb603.Reload.{tlb_miss-tlb_load}
use chungusppc.Cpu.Mmu.Tlb.{
  TlbEntry, Tlb, tlb_invalid_tag, no_source, pat_source, tlb2_touch_way, target_way,
}
use chungusppc.Cpu.Mmu.Tlb.Tracked.{IsTracked}
use chungusppc.Cpu.Mmu.Tlb.Fetch.{
  AddressMapEntry, Translated, done, raised, page_tag, mmu_translate_imem,
}
use chungusppc.Cpu.Mmu.Tlb.Coherent.{Walker, IsCoherent, further}
use chungusppc.Cpu.Mmu.Tlb.Refine.{Fetched, IsReady, mmu_translate_imem-refines}
use chungusppc.Cpu.Mmu.Tlb.Change.{synchronized, IsRegistered, DiffersIn, synchronized-IsCoherent}
use chungusppc.Cpu.Mmu.Tlb.Recency.{IsAged, touch-victim}

abbrev empty_entry : TlbEntry
empty_entry = record {
  tag = tlb_invalid_tag;
  flags = record {
    page_mem = false;
    page_io = false;
    page_nophys = false;
    from = no_source;
    page_writable = false;
    pte_set_c = false;
    tlbe_ctx_tracked = false;
  };
  lru_bits = 0;
  host_va_offs_r = 0;
  host_va_offs_w = 0;
  rgn_desc = 0;
  dev_base_va = 0;
  phys_tag = 0;
}

abbrev empty_tlb : Tlb
empty_tlb = record {
  entries = λ s. empty_entry;
  tracked = [];
  pending = no_source;
  sync_actions = 0;
}

-- All memory is one region.
abbrev ram : AddressMapEntry
ram = record { start = 0; end = 0xffff_ffff; region_type = 2; mem_ptr = 0x7f00_0000_0000 }

-- A translation that moves every page by a constant
abbrev moved : ℕ → ℕ → Translated
moved offset va = record { phys_addr = va + offset * 2 ^ 12; from = pat_source }

moved_page :
    (offset va : ℕ)
    → done (moved offset va) ≡ further (va % 2 ^ 12) (done (moved offset (page_tag va)))
moved_page offset va =
    ap (λ (a : ℕ). done (record { phys_addr = a; from = pat_source })) (omega arith)

moved_aligned :
    (offset va : ℕ) (x : Translated)
    → done (moved offset (page_tag va)) ≡ done x
    → x.phys_addr % 2 ^ 12 ≡ 0
moved_aligned offset va x e =
    let p : page_tag va + offset * 2 ^ 12 ≡ x.phys_addr = cc in omega arith

ram_start : (a : ℕ) (rgn : AddressMapEntry) → some ram ≡ some rgn → rgn.start ≤ a
ram_start a rgn e = let p : 0 ≡ rgn.start = cc in omega arith

abbrev moving : ℕ → Walker (Unit {0})
moving offset = record {
  walk = λ va e. (done (moved offset va), e);
  find_range = λ a. some ram;
  Fixed = λ table e. Unit {0};
  mapping = λ table va. done (moved offset va);
  walk-mapping = λ table va e f. refl;
  walk-Fixed = λ table va e f. tt;
  mapping_page = λ table va h. moved_page offset va;
  mapping_aligned = λ table va x e. moved_aligned offset va x e;
  range_page = λ a. refl;
  range_start = λ a rgn e. ram_start a rgn e;
}

empty_tlb-IsTracked : IsTracked empty_tlb
empty_tlb-IsTracked = record { listed = λ s h. absurd (cc); marked = λ s h. absurd (cc) }

empty_tlb-IsCoherent : (offset : ℕ) → IsCoherent (moving offset) empty_tlb
empty_tlb-IsCoherent offset = record { holds = λ s valid. absurd (cc) }

mmu_translate_imem-refines_example :
    Fetched
      (moving 1)
      2
      0x1_2345
      (mmu_translate_imem (moving 1).walk (moving 1).find_range false 2 0x1_2345 (empty_tlb, tt))
mmu_translate_imem-refines_example =
    mmu_translate_imem-refines (moving 1) false 2 0x1_2345 empty_tlb tt (omega arith)
      (empty_tlb-IsTracked, empty_tlb-IsCoherent 1, tt)

-- The buffers after a fetch
abbrev filled_tlb : Tlb
filled_tlb =
    (mmu_translate_imem (moving 1).walk (moving 1).find_range false 2 0x1_2345 (empty_tlb, tt)).1

filled-IsReady : IsReady (moving 1) 2 (filled_tlb, tt)
filled-IsReady =
    (mmu_translate_imem-refines (moving 1) false 2 0x1_2345 empty_tlb tt (omega arith)
      (empty_tlb-IsTracked, empty_tlb-IsCoherent 1, tt)).1

moved-DiffersIn : DiffersIn (moving 1) (moving 2) pat_source
moved-DiffersIn = record { kept = λ table va x e spared. absurd (cc); ranges = λ a. refl }

-- The same buffers, of which the entries from blocks wait for an invalidation
abbrev waiting_tlb : Tlb
waiting_tlb = record filled_tlb { pending = record { bat = true; pat = false }; sync_actions = 1 }

waiting-IsTracked : IsTracked waiting_tlb
waiting-IsTracked = let k = filled-IsReady.0 in record { listed = k.listed; marked = k.marked }

waiting-IsCoherent : IsCoherent (moving 1) waiting_tlb
waiting-IsCoherent = record { holds = filled-IsReady.1.holds }

synchronized-IsCoherent_example :
    IsTracked (synchronized pat_source waiting_tlb)
    × IsRegistered (synchronized pat_source waiting_tlb)
    × IsCoherent (moving 2) (synchronized pat_source waiting_tlb)
synchronized-IsCoherent_example =
    synchronized-IsCoherent (moving 1) (moving 2) pat_source waiting_tlb moved-DiffersIn
      waiting-IsTracked (λ waits. refl) waiting-IsCoherent

-- All ways hold the page 0.
abbrev full_tlb : Tlb
full_tlb = record empty_tlb { entries = λ s. record empty_entry { tag = 0 } }

touch-victim_example :
    let u = tlb2_touch_way 1 2 7 full_tlb in IsAged u × (ltb (target_way 2 7 u) 2 ≡ false)
touch-victim_example =
    touch-victim 1 2 7 full_tlb (omega arith) (λ table i. (omega arith, omega arith)) (λ w h. refl)

-- Four blocks of 8 MB from 0x8000_0000 on
abbrev block_upper : ℕ → ℕ
block_upper k = 0x8000_00ff + k * 0x0800_0000

abbrev block_lower : ℕ → ℕ
block_lower k = 0x42 + k * 0x0100_0000

abbrev old_block : PpcBatEntry
old_block = record { valid = false; access = 0; prot = 0; phys_hi = 0; hi_mask = 0; bepi = 0 }

block_translations-FirstBlock_example :
    FirstBlock
      (λ k. MatchesPpc (is_user sample) (block_upper k) 0x9000_1234)
      (λ k r. GivesPpc (block_upper k) (block_lower k) 0x9000_1234 r)
      (ppc_block_address_translation sample
        (λ k. ppc_entry (block_upper k) (block_lower k) old_block)
        0x9000_1234)
    × FirstBlock
        (λ k. Matches601 (block_upper k) (block_lower k) 0x9000_1234)
        (λ k r. Gives601 (is_user sample) (block_upper k) (block_lower k) 0x9000_1234 r)
        (mpc601_block_address_translation sample
          (λ k. entry_601 (block_upper k) (block_lower k) old_block)
          0x9000_1234)
block_translations-FirstBlock_example =
    block_translations-FirstBlock sample block_upper block_lower (λ k. old_block) 0x9000_1234
      (omega arith)

-- A region of memory that the controller reports for 32-bit addresses
abbrev find_ram : ℕ → Option AddressMapEntry
find_ram a = if leb a 0xffff_ffff then some ram else none

-- One page table entry at 64, of the page 1 in the segment 0; it is the physical page 0.
abbrev unit : PageUnit
unit = record {
  mem = λ a. if a == 0x7f00_0000_0040 then 0x80 else 0;
  last_ptab_area = ram;
  tlb603 = λ ty set way. record { valid = way == 0; vsid = 0; ea_tag = 0; pte_lo = 0 };
  tlb603_lru = λ ty set. 0;
}

unit-IsUnique : IsUnique unit
unit-IsUnique ty set = refl

tlb603-IsUnique_example :
    IsUnique (mmu_603_tlb_load itlb 0x1_2345 sample (unit, empty_tlb)).0
    × IsUnique (mmu_603_tlb_invalidate_set 0x1_2345 unit)
    × IsUnique (mpc603_page_address_translation 0x1_2345 0x77 false 0 0 (sample, unit)).2
tlb603-IsUnique_example =
    tlb603-IsUnique itlb 0x1_2345 0x1_2345 0x77 false 0 0 sample unit empty_tlb unit-IsUnique

-- The state after a miss, with a word for RPA
abbrev handled : State
handled = set_spr (mpc603_tlb_miss 0x1_2345 0x77 false 0 0 none (sample, unit)).1 Spr.rpa 0x5002

handled-dcmp :
    handled.spr Spr.dcmp
    ≡ (mpc603_tlb_miss 0x1_2345 0x77 false 0 0 none (sample, unit)).1.spr Spr.dcmp
handled-dcmp = ground arith

handled_permits : is_refused (pat_key 0x77 0) (bit_and 0x5002 3) 0 ≡ false
unfolding is_refused
handled_permits = refl

tlb_miss-tlb_load_example :
    (mpc603_page_address_translation 0x1_2fff 0x77 false 0 0
      (sample, (mmu_603_tlb_load dtlb 0x1_2345 handled (unit, empty_tlb)).0)).0
    ≡ done (record { phys = 0x5fff; prot = 2; pte_c_status = 0 })
tlb_miss-tlb_load_example =
    tlb_miss-tlb_load false 0x1_2345 0x1_2fff 0x77 0 0 0 0 none sample handled sample unit unit
      empty_tlb handled-dcmp refl handled_permits refl

-- The 601 reaches memory through a segment of its controller interface.
forced_memory :
    (page_address_translation find_ram 0x9000_1234 false 0 0
      (record sample { sr = λ _. 0x87f0_0001 }, unit)).0
    ≡ done (record { phys = 0x1000_1234; prot = 0; pte_c_status = 1 })
unfolding page_address_translation
forced_memory = refl

no_execute :
    (page_address_translation find_ram 0x1000 true 0 0
      (record sample { sr = λ _. 0x1000_0000 }, unit)).0
    ≡ raised exc_isi 0x1000_0000
unfolding page_address_translation
no_execute = refl

-- The sample translates through its page table entry.
fetched_page :
    (fetch_translation find_ram (λ _. old_block) 0x1234 (record sample { msr = 0x20 }, unit)).0
    ≡ done (record { phys_addr = 0x234; from = pat_source })
unfolding fetch_translation ppc_block_address_translation bat_search page_address_translation
    table_walk calc_pteg_addr search_pteg read_dword use_pte is_refused
fetched_page = refl

-- A processor in supervisor mode, with the page in its buffers
abbrev machine : Machine Buffers
machine = record {
  cpu = sample;
  shadow_gprs = λ r. r;
  fpu_on = true;
  is_le = false;
  power_on = true;
  power_off_reason = PoCause.po_none;
  int_pin = false;
  dec_exception_pending = false;
  thrm_exception_pending = false;
  pow_mode = PowMode.never;
  pow_hid0_mask = 0;
  itlb_mode = 3;
  dtlb_mode = 3;
  itlb = 3;
  dtlb = 3;
  env = record { page = unit; itlbs = filled_tlb; dtlbs = empty_tlb };
}

abbrev host : Host Buffers
host = record { supports_le = false; do_ctx_sync = λ b. b; mmu_pat_ctx_changed = λ b. b }
