-- ===== src/Cpu/Mmu/Page/Walk.antt =====
-- The search in the page table (cpu/ppc/ppcmmu.cpp) on every branch.
use chungusppc.Common.{
  ℕ, ◌+◌, ◌%◌, ◌^◌, ◌≤◌, ◌==◌, leb, ◌&&◌, Bool, true, false, if◌then◌else◌, ◌≡◌, bit_and, bit_or,
  bit_xor, truth, to_nat, not32, ◌⊎◌, Option, none, some, ◌<<<◌, ◌>>>◌,
}
use chungusppc.Cpu.State.{State, set_spr}
use chungusppc.Cpu.Spr
use chungusppc.Cpu.Machine.Handler.{ExceptType, exc_isi, exc_dsi}
use chungusppc.Cpu.Mmu.Tlb.Fetch.{AddressMapEntry, Outcome, done, raised, aborted}
use chungusppc.Cpu.Mmu.Page.{
  PatResult, PageUnit, area_ptr, calc_pteg_phys, calc_pteg_addr, calc_pteg_addr, read_dword,
  pte_check,
}
use chungusppc.Cpu.Mmu.Page.Entry.{segment_key, permits, IsUsed, Searched}

module _ (find_range : ℕ → Option AddressMapEntry) (la : ℕ) (is_instr_fetch : Bool) (sr_val : ℕ)
    (user : Bool) (is_write : ℕ) (s : State) (first : PageUnit) where
  abbrev mem : ℕ → ℕ
  mem = first.mem

  abbrev page : ℕ
  page = (la >>> 12) % 2 ^ 16

  -- The physical address of the primary group, `n` = 0, or of the secondary one
  abbrev pub group_phys : ℕ → ℕ
  group_phys n =
      let hash = bit_xor (bit_and sr_val 0x7_ffff) page in
      calc_pteg_phys (s.spr Spr.sdr1) (if n == 0 then hash else not32 hash)

  -- A region that the memory controller reported, now or at an earlier search
  abbrev pub IsKnown : AddressMapEntry → Type 0
  IsKnown area = (area ≡ first.last_ptab_area) ⊎ ((x : ℕ) × (find_range x ≡ some area))

  -- The group is at the address `a` of the host.
  abbrev pub IsGroup : ℕ → ℕ → Type 0
  IsGroup n a =
      (area : AddressMapEntry) × IsKnown area
      × (area.start ≤ group_phys n)
      × (group_phys n ≤ area.end)
      × (a ≡ area_ptr area (group_phys n))

  -- The first word of the entry of the page in a group
  abbrev pub page_word : ℕ → ℕ
  page_word n = pte_check (bit_and sr_val 0xff_ffff) page n

  -- `p` is the first entry of the page in the primary group, or in the secondary one if the primary has
  -- none.
  abbrev pub IsEntry : ℕ → Type 0
  IsEntry p =
      ((a : ℕ) × IsGroup 0 a × Searched mem (page_word 0) 8 a (some p))
      ⊎ ((a b : ℕ) × IsGroup 0 a
          × IsGroup 1 b
          × Searched mem (page_word 0) 8 a none
          × Searched mem (page_word 1) 8 b (some p))

  -- No region of ROM or RAM is reported for a group, and it is not in the one that was used last.
  abbrev pub IsHomeless : ℕ → AddressMapEntry → Type 0
  IsHomeless n last =
      ((find_range (group_phys n) ≡ none)
        ⊎ ((area : AddressMapEntry) × (find_range (group_phys n) ≡ some area)
            × (truth (bit_and area.region_type 3) ≡ false)))
      × ((leb last.start (group_phys n) && leb (group_phys n) last.end) ≡ false)

  -- The primary group has no region, or it lacks the page and the secondary one has none.
  abbrev pub IsUnplaced : Type 0
  IsUnplaced =
      IsHomeless 0 first.last_ptab_area
      ⊎ ((a : ℕ) × (last : AddressMapEntry) × IsGroup 0 a
          × Searched mem (page_word 0) 8 a none
          × IsKnown last
          × IsHomeless 1 last)

  -- No entry of either group is that of the page.
  abbrev pub IsAbsent : Type 0
  IsAbsent =
      (a b : ℕ) × IsGroup 0 a
      × IsGroup 1 b
      × Searched mem (page_word 0) 8 a none
      × Searched mem (page_word 1) 8 b none

  -- The page in the entry at `p`, and the protection bits
  abbrev pub page_of : ℕ → ℕ
  page_of p = read_dword mem (p + 4)

  abbrev pub is_permitted : ℕ → Bool
  is_permitted p = permits (segment_key user sr_val) (page_of p % 4) (truth is_write)

  -- The state of the processor after a storage exception
  abbrev pub IsFaulted : ℕ → ExceptType → ℕ → State → Type 0
  IsFaulted cause ty srr1 s' =
      if is_instr_fetch
      then (ty ≡ exc_isi) × (srr1 ≡ cause) × (s' ≡ s)
      else (ty ≡ exc_dsi)
        × (srr1 ≡ 0)
        × (s' ≡ set_spr (set_spr s Spr.dsisr (bit_or cause (is_write <<< 25))) Spr.dar la)

  -- What the search ends in, on every branch
  abbrev pub IsWalked : Outcome PatResult × State × PageUnit → Type 0
  IsWalked (done r, s', u') =
      (p : ℕ) × IsEntry p
      × (is_permitted p ≡ true)
      × (r.phys ≡ bit_or (bit_and (page_of p) 0xffff_f000) (bit_and la 0xfff))
      × (r.prot ≡ bit_or (to_nat (segment_key user sr_val) <<< 2) (page_of p % 4))
      × (r.pte_c_status ≡ bit_and (page_of p) 0x80)
      × (s' ≡ s)
      × IsUsed p (truth is_write) mem u'.mem
  IsWalked (raised ty srr1, s', u') =
      (u'.mem ≡ mem)
      × ((IsAbsent × IsFaulted 0x4000_0000 ty srr1 s')
          ⊎ ((p : ℕ) × IsEntry p × (is_permitted p ≡ false) × IsFaulted 0x0800_0000 ty srr1 s'))
  IsWalked (aborted, s', u') = (u'.mem ≡ mem) × (s' ≡ s) × IsUnplaced

  -- The memory is the first one, and the region that is remembered is known.
  abbrev IsSteady : PageUnit → Type 0
  IsSteady v = (v.mem ≡ mem) × IsKnown v.last_ptab_area

  -- The group is found, or `last`, which held the last entry, and the controller have no region for it.
  abbrev Located : ℕ → AddressMapEntry → Option ℕ × PageUnit → Type 0
  Located n last (none, v) = IsSteady v × IsKnown last × IsHomeless n last
  Located n last (some a, v) = IsSteady v × IsGroup n a
