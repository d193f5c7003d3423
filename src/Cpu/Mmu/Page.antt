-- ===== src/Cpu/Mmu/Page.antt =====
-- Page address translation by the page table (cpu/ppc/ppcmmu.cpp), in a build whose memory controllers
-- have no endian mode. `mem` is the memory of the host, by bytes; `find_range` is that of the memory
-- controller. An exception leaves the translation, with its bits for SRR1.
pub mod Entry
pub mod Walk
use chungusppc.Common.{
  ℕ, zero, suc, ◌+◌, ◌-◌, ◌*◌, ◌/◌, ◌%◌, ◌^◌, ◌==◌, leb, not, ◌&&◌, ◌||◌, Bool, true, false,
  if◌then◌else◌, bit_and, bit_or, bit_xor, truth, to_nat, not32, u32, Option, none, some, ◌<<<◌,
  ◌>>>◌,
}
use chungusppc.Cpu.State.{State, update, set_spr}
use chungusppc.Cpu.Spr
use chungusppc.Cpu.Machine.Handler.{ExceptType, exc_isi, exc_dsi}
use chungusppc.Cpu.Mmu.Tlb.Fetch.{AddressMapEntry, rt_rom, rt_ram, Outcome, done, raised, aborted}

pub record PatResult : Type 0 where
  pub phys : ℕ
  pub prot : ℕ
  pub pte_c_status : ℕ

pub data TlbType : Type 0 where
  itlb dtlb : TlbType

-- An entry of the buffers of the 603
pub record Tlb603Entry : Type 0 where
  pub valid : Bool
  pub vsid : ℕ
  pub ea_tag : ℕ
  pub pte_lo : ℕ

-- The host's memory, the region that held the last page table entry, and the buffers of the 603 by
-- type, set and way, with the way of each set to replace next
pub record PageUnit : Type 0 where
  pub mem : ℕ → ℕ
  pub last_ptab_area : AddressMapEntry
  pub tlb603 : TlbType → ℕ → ℕ → Tlb603Entry
  pub tlb603_lru : TlbType → ℕ → ℕ

unfoldable pub calc_pteg_phys : ℕ → ℕ → ℕ
calc_pteg_phys sdr1_val hash =
    bit_or
      (bit_or (bit_and sdr1_val 0xffff_0000)
        (bit_and (bit_and sdr1_val 0x1ff <<< 16) (bit_and hash 0x7_fc00 <<< 6)))
      (bit_and hash 0x3ff <<< 6)

abbrev pub area_ptr : AddressMapEntry → ℕ → ℕ
area_ptr area pteg_addr = area.mem_ptr + (pteg_addr - area.start)

unfoldable pub area_found : ℕ → Option AddressMapEntry → PageUnit → Option ℕ × PageUnit
area_found pteg_addr none u = (none, u)
area_found pteg_addr (some entry) u =
    if truth (bit_and entry.region_type (bit_or rt_rom rt_ram))
    then (some (area_ptr entry pteg_addr), record u { last_ptab_area = entry })
    else (none, u)

-- `none` is ABORT_F.
unfoldable pub calc_pteg_addr :
    (ℕ → Option AddressMapEntry) → ℕ → ℕ → PageUnit → Option ℕ × PageUnit
unfolding area_found calc_pteg_phys
calc_pteg_addr find_range sdr1_val hash u =
    let pteg_addr = calc_pteg_phys sdr1_val hash in
    if leb u.last_ptab_area.start pteg_addr && leb pteg_addr u.last_ptab_area.end
    then (some (area_ptr u.last_ptab_area pteg_addr), u)
    else area_found pteg_addr (find_range pteg_addr) u

-- READ_DWORD_BE_A
unfoldable pub read_dword : (ℕ → ℕ) → ℕ → ℕ
read_dword mem a = mem a * 2 ^ 24 + mem (a + 1) * 2 ^ 16 + mem (a + 2) * 2 ^ 8 + mem (a + 3)

abbrev pub pte_check : ℕ → ℕ → ℕ → ℕ
pte_check vsid page_index pteg_num =
    bit_or (bit_or (bit_or 0x8000_0000 (u32 (vsid <<< 7))) (pteg_num <<< 6)) (page_index >>> 10)

-- The loop over the entries of a group, `n` of which are left
unfoldable pub search_pteg : (ℕ → ℕ) → ℕ → ℕ → ℕ → Option ℕ
search_pteg mem check zero pteg_addr = none
search_pteg mem check (suc n) pteg_addr =
    let rest = search_pteg mem check n (pteg_addr + 8) in
    if check == read_dword mem pteg_addr then some pteg_addr else rest

abbrev pub pat_key : ℕ → ℕ → ℕ
pat_key sr_val msr_pr =
    bit_or (bit_and (bit_and (sr_val >>> 29) 1) msr_pr)
      (bit_and (bit_and (sr_val >>> 30) 1) (bit_xor msr_pr 1))

-- The accesses that protection refuses
unfoldable pub is_refused : ℕ → ℕ → ℕ → Bool
is_refused key pp is_write =
    (truth key && (pp == 0 || (pp == 1 && truth is_write))) || (pp == 3 && truth is_write)

-- A storage exception with its cause
unfoldable pub storage_exception : Bool → ℕ → ℕ → ℕ → State → Outcome PatResult × State
storage_exception is_instr_fetch cause la is_write s =
    if is_instr_fetch then (raised exc_isi cause, s) else (
      (raised exc_dsi 0),
      set_spr (set_spr s Spr.dsisr (bit_or cause (is_write <<< 25))) Spr.dar la,
    )

-- The reference and change bits of the entry at `p`
unfoldable pub update_rc : ℕ → ℕ → (ℕ → ℕ) → ℕ → ℕ
update_rc p is_write mem =
    let m = update mem (p + 6) (bit_or (mem (p + 6)) 1) in
    if truth is_write then update m (p + 7) (bit_or (m (p + 7)) 0x80) else m

-- The entry at `p` is used.
unfoldable pub use_pte :
    ℕ → ℕ → Bool → ℕ → ℕ → ℕ → State × PageUnit → Outcome PatResult × State × PageUnit
use_pte p la is_instr_fetch sr_val msr_pr is_write (s, u) =
    let pte_word2 = read_dword u.mem (p + 4) in
    let key = pat_key sr_val msr_pr in
    let pp = bit_and pte_word2 3 in
    if is_refused key pp is_write
    then (let r = storage_exception is_instr_fetch 0x0800_0000 la is_write s in (r.0, r.1, u))
    else (
      done (record {
        phys = bit_or (bit_and pte_word2 0xffff_f000) (bit_and la 0xfff);
        prot = bit_or (key <<< 2) pp;
        pte_c_status = bit_and pte_word2 0x80;
      }),
      s,
      record u { mem = update_rc p is_write u.mem },
    )

module _ (find_range : ℕ → Option AddressMapEntry) (la : ℕ) (is_instr_fetch : Bool)
    (sr_val msr_pr is_write : ℕ) where
  -- After the search of the secondary group
  unfoldable pub secondary_searched :
      Option ℕ → State × PageUnit → Outcome PatResult × State × PageUnit
  secondary_searched (some p) (s, u) = use_pte p la is_instr_fetch sr_val msr_pr is_write (s, u)
  secondary_searched none (s, u) =
      let r = storage_exception is_instr_fetch 0x4000_0000 la is_write s in (r.0, r.1, u)

  unfoldable pub secondary_group :
      ℕ → Option ℕ × PageUnit → State → Outcome PatResult × State × PageUnit
  unfolding secondary_searched
  secondary_group check (none, u) s = (aborted, s, u)
  secondary_group check (some addr, u) s =
      secondary_searched (search_pteg u.mem check 8 addr) (s, u)

  -- After the search of the primary group
  unfoldable pub primary_searched :
      Option ℕ → State × PageUnit → Outcome PatResult × State × PageUnit
  unfolding secondary_group
  primary_searched (some p) (s, u) = use_pte p la is_instr_fetch sr_val msr_pr is_write (s, u)
  primary_searched none (s, u) =
      let page_index = (la >>> 12) % 2 ^ 16 in
      let hash = bit_xor (bit_and sr_val 0x7_ffff) page_index in
      secondary_group (pte_check (bit_and sr_val 0xff_ffff) page_index 1)
        (calc_pteg_addr find_range (s.spr Spr.sdr1) (not32 hash) u) s

  unfoldable pub primary_group :
      ℕ → Option ℕ × PageUnit → State → Outcome PatResult × State × PageUnit
  unfolding primary_searched
  primary_group check (none, u) s = (aborted, s, u)
  primary_group check (some addr, u) s = primary_searched (search_pteg u.mem check 8 addr) (s, u)

  -- The search in the page table, for a processor that is no 603
  unfoldable pub table_walk : State × PageUnit → Outcome PatResult × State × PageUnit
  unfolding primary_group
  table_walk (s, u) =
      let page_index = (la >>> 12) % 2 ^ 16 in
      let hash = bit_xor (bit_and sr_val 0x7_ffff) page_index in
      primary_group (pte_check (bit_and sr_val 0xff_ffff) page_index 0)
        (calc_pteg_addr find_range (s.spr Spr.sdr1) hash u) s
