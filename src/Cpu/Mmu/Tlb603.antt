-- ===== src/Cpu/Mmu/Tlb603.antt =====
-- The software-loaded buffers of the 603 (cpu/ppc/ppcmmu.cpp). The debugger's handler of exceptions is
-- not modelled: `mmu_exception_handler` is `ppc_exception_handler`.
pub mod Pages
pub mod Laws
pub mod Reload
use chungusppc.Common.{
  ℕ, ◌+◌, ◌-◌, ◌*◌, ◌/◌, ◌%◌, ◌^◌, ◌==◌, not, ◌&&◌, ◌||◌, Bool, true, false, if◌then◌else◌, bit_and,
  bit_or, bit_xor, truth, to_nat, not32, u32, Option, none, some, ◌<<<◌, ◌>>>◌,
}
use chungusppc.Cpu.State.{State, update, set_spr}
use chungusppc.Cpu.Spr
use chungusppc.Cpu.Machine.Handler.{
  ExceptType, exc_isi, exc_dsi, exc_itlb_miss, exc_dtlb_load_miss, exc_dtlb_store_miss,
}
use chungusppc.Cpu.Mmu.Tlb.{Tlb, tlb_flush_pat_page}
use chungusppc.Cpu.Mmu.Tlb.Fetch.{Outcome, done, raised}
use chungusppc.Cpu.Mmu.Page.{
  PatResult, PageUnit, TlbType, itlb, dtlb, Tlb603Entry, calc_pteg_phys, pat_key, is_refused,
  storage_exception,
}

abbrev pub tlb603_set : ℕ → ℕ
tlb603_set ea = (ea >>> 12) % 32

abbrev pub same_type : TlbType → TlbType → Bool
same_type itlb itlb = true
same_type dtlb dtlb = true
same_type itlb dtlb = false
same_type dtlb itlb = false

abbrev pub write_way :
    TlbType → ℕ → ℕ → Tlb603Entry → (TlbType → ℕ → ℕ → Tlb603Entry) → TlbType → ℕ → ℕ → Tlb603Entry
write_way ty set way e tlb ty' set' way' =
    if same_type ty' ty && set' == set && way' == way then e else tlb ty' set' way'

abbrev pub write_lru : TlbType → ℕ → ℕ → (TlbType → ℕ → ℕ) → TlbType → ℕ → ℕ
write_lru ty set way lru ty' set' = if same_type ty' ty && set' == set then way else lru ty' set'

abbrev pub fetch_type : Bool → TlbType
fetch_type is_instr_fetch = if is_instr_fetch then itlb else dtlb

-- The first word that the entry of a page has in the page table
abbrev pub cmp_word : ℕ → ℕ → ℕ
cmp_word sr_val la =
    bit_or (bit_or 0x8000_0000 (bit_and sr_val 0xff_ffff <<< 7)) (((la >>> 12) % 2 ^ 16) >>> 10)

miss_type : Bool → ℕ → ExceptType
miss_type is_instr_fetch is_write =
    if is_instr_fetch
    then exc_itlb_miss
    else if truth is_write
    then exc_dtlb_store_miss
    else exc_dtlb_load_miss

-- The way to load: that of a hit, or else an invalid one, or the one to replace
abbrev pub load_way : Option ℕ → TlbType → ℕ → PageUnit → ℕ
load_way (some way) ty set u = way
load_way none ty set u =
    if not ((u.tlb603 ty set 0).valid)
    then 0
    else if not ((u.tlb603 ty set 1).valid)
    then 1
    else u.tlb603_lru ty set

unfoldable pub mpc603_tlb_miss :
    ℕ → ℕ → Bool → ℕ → ℕ → Option ℕ → State × PageUnit → Outcome PatResult × State × PageUnit
unfolding miss_type
mpc603_tlb_miss la sr_val is_instr_fetch is_write key hit_way (s, u) =
    let hash = bit_xor (bit_and sr_val 0x7_ffff) ((la >>> 12) % 2 ^ 16) in
    let cmp = cmp_word sr_val la in
    let s1 =
      if is_instr_fetch
      then set_spr (set_spr s Spr.imiss la) Spr.icmp cmp
      else set_spr (set_spr s Spr.dmiss la) Spr.dcmp cmp in
    let s2 = set_spr s1 Spr.hash1 (calc_pteg_phys (s1.spr Spr.sdr1) hash) in
    let s3 = set_spr s2 Spr.hash2 (calc_pteg_phys (s2.spr Spr.sdr1) (not32 hash)) in
    let way = load_way hit_way (fetch_type is_instr_fetch) (tlb603_set la) u in
    let srr1_bits =
      bit_or
        (bit_or
          (bit_or (bit_or (bit_and s.cr 0xf000_0000) (key <<< 19)) (to_nat is_instr_fetch <<< 18))
          (way <<< 17))
        (to_nat (truth is_write) <<< 16) in
    (raised (miss_type is_instr_fetch is_write) srr1_bits, s3, u)

-- A way holds the page of `la` in the segment `vsid`.
abbrev pub holds_page : Tlb603Entry → ℕ → ℕ → Bool
holds_page e vsid la = e.valid && e.vsid == vsid && bit_and (bit_xor e.ea_tag la) 0x0fff_f000 == 0

unfoldable pub found_way : PageUnit → TlbType → ℕ → ℕ → Option ℕ
found_way u ty vsid la =
    let set = tlb603_set la in
    if holds_page (u.tlb603 ty set 0) vsid la
    then some 0
    else if holds_page (u.tlb603 ty set 1) vsid la
    then some 1
    else none

-- After the lookup
unfoldable pub use_way :
    Option ℕ → ℕ → ℕ → Bool → ℕ → ℕ → State × PageUnit → Outcome PatResult × State × PageUnit
use_way none la sr_val is_instr_fetch msr_pr is_write m =
    mpc603_tlb_miss la sr_val is_instr_fetch is_write (pat_key sr_val msr_pr) none m
use_way (some way) la sr_val is_instr_fetch msr_pr is_write (s, u) =
    let ty = fetch_type is_instr_fetch in
    let set = tlb603_set la in
    let key = pat_key sr_val msr_pr in
    let u1 = record u { tlb603_lru = write_lru ty set (bit_xor way 1) u.tlb603_lru } in
    let pte_lo = (u.tlb603 ty set way).pte_lo in
    let pp = bit_and pte_lo 3 in
    if is_refused key pp is_write
    then (let r = storage_exception is_instr_fetch 0x0800_0000 la is_write s in (r.0, r.1, u1))
    else if truth is_write && not (truth (bit_and pte_lo 0x80))
    then mpc603_tlb_miss la sr_val false is_write key (some way) (s, u1)
    else (
      done (record {
        phys = bit_or (bit_and pte_lo 0xffff_f000) (bit_and la 0xfff);
        prot = bit_or (key <<< 2) pp;
        pte_c_status = bit_and pte_lo 0x80;
      }),
      s,
      u1,
    )

unfoldable pub mpc603_page_address_translation :
    ℕ → ℕ → Bool → ℕ → ℕ → State × PageUnit → Outcome PatResult × State × PageUnit
mpc603_page_address_translation la sr_val is_instr_fetch msr_pr is_write (s, u) =
    use_way (found_way u (fetch_type is_instr_fetch) (bit_and sr_val 0xff_ffff) la) la sr_val
      is_instr_fetch msr_pr is_write (s, u)

-- The entry that `tlbld` or `tlbli` loads
unfoldable pub loaded_entry : TlbType → ℕ → State → Tlb603Entry
loaded_entry ty ea s =
    let cmp = s.spr (if same_type ty itlb then Spr.icmp else Spr.dcmp) in
    record {
      valid = truth (bit_and cmp 0x8000_0000);
      vsid = (cmp >>> 7) % 2 ^ 24;
      ea_tag = ea / 2 ^ 12 * 2 ^ 12;
      pte_lo = s.spr Spr.rpa;
    }

-- The way is loaded; the other one is dropped if it holds the same page.
unfoldable pub load_way_of :
    TlbType → ℕ → ℕ → Tlb603Entry → (TlbType → ℕ → ℕ → Tlb603Entry) → TlbType → ℕ → ℕ → Tlb603Entry
load_way_of ty set way entry tlb603 =
    let tlb = write_way ty set way entry tlb603 in
    let way' = bit_xor way 1 in
    let other = tlb ty set way' in
    if holds_page other entry.vsid entry.ea_tag
    then write_way ty set way' (record other { valid = false }) tlb
    else tlb

-- With the buffers of `TLBEntry` of the same type, which forget the pages that are replaced and loaded
unfoldable pub mmu_603_tlb_load : TlbType → ℕ → State → PageUnit × Tlb → PageUnit × Tlb
mmu_603_tlb_load ty ea s (u, t) =
    let set = tlb603_set ea in
    let way = (s.spr Spr.srr1 >>> 17) % 2 in
    let old = u.tlb603 ty set way in
    let entry = loaded_entry ty ea s in
    let t1 = if old.valid then tlb_flush_pat_page old.ea_tag t else t in
    (
      record u {
        tlb603 = load_way_of ty set way entry u.tlb603;
        tlb603_lru = write_lru ty set (bit_xor way 1) u.tlb603_lru;
      },
      tlb_flush_pat_page entry.ea_tag t1,
    )

unfoldable pub mmu_603_tlb_invalidate_set : ℕ → PageUnit → PageUnit
mmu_603_tlb_invalidate_set ea u =
    let set = tlb603_set ea in
    record u {
      tlb603 = λ ty set' way.
          let e = u.tlb603 ty set' way in
          if set' == set && (way == 0 || way == 1) then record e { valid = false } else e;
    }
