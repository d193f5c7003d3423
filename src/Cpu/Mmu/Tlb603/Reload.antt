-- ===== src/Cpu/Mmu/Tlb603/Reload.antt =====
-- A miss of the 603, the handler's load and the second try (cpu/ppc/ppcmmu.cpp).
use chungusppc.Common.{
  ℕ, zero, suc, ◌+◌, ◌*◌, ◌/◌, ◌%◌, ◌^◌, ◌<◌, ◌==◌, not, ◌&&◌, Bool, true, false, if◌then◌else◌,
  ◌≡◌, refl, ap, ◌∙◌, arith, bit_and, bit_or, truth, Option, none, some, ◌<<<◌, ◌>>>◌,
}
use mathlib.Core.Path.{subst}
use chungusppc.Common.Bits.Merge.{bit_and-mask}
use chungusppc.Common.Bits.Halves.{bit_or-join}
use chungusppc.Cpu.State.{State}
use chungusppc.Cpu.Spr
use chungusppc.Cpu.Machine.EntryMsr.{truth-bit_and}
use chungusppc.Cpu.Mmu.Tlb.{Tlb}
use chungusppc.Cpu.Mmu.Tlb.Fetch.{done}
use chungusppc.Cpu.Mmu.Page.{PageUnit, Tlb603Entry, pat_key, is_refused}
use chungusppc.Cpu.Mmu.Tlb603.{
  tlb603_set, same_type, fetch_type, cmp_word, mpc603_tlb_miss, holds_page, found_way, use_way,
  mpc603_page_address_translation, loaded_entry, mmu_603_tlb_load,
}
use chungusppc.Cpu.Mmu.Tlb603.Pages.{page_index}
use chungusppc.Cpu.Mmu.Tlb603.Laws.{holds_page-eq, load_way_of_lem, same_type_refl, loaded}

-- The compare register of an access
abbrev pub cmp_register : Bool → ℕ
cmp_register is_instr_fetch = if is_instr_fetch then Spr.icmp else Spr.dcmp

miss-cmp :
    (la sr_val : ℕ) (is_instr_fetch : Bool) (is_write key : ℕ) (hit_way : Option ℕ) (s : State)
    (u : PageUnit)
    → (mpc603_tlb_miss la sr_val is_instr_fetch is_write key hit_way (s, u)).1.spr
        (cmp_register is_instr_fetch)
      ≡ cmp_word sr_val la
unfolding mpc603_tlb_miss
miss-cmp la sr_val true is_write key hit_way s u = ground arith
miss-cmp la sr_val false is_write key hit_way s u = ground arith

-- The fields of the compare word
cmp_word-sum :
    (sr_val la : ℕ) → cmp_word sr_val la ≡ 2 ^ 31 + sr_val % 2 ^ 24 * 2 ^ 7 + page_index la / 2 ^ 10
cmp_word-sum sr_val la =
    let v = sr_val % 2 ^ 24 in
    let vsid = bit_and-mask 24 sr_val in
    let upper : bit_or 0x8000_0000 (v * 2 ^ 7) ≡ 2 ^ 31 + v * 2 ^ 7 =
      bit_or-join 31 1 (v * 2 ^ 7) (omega arith) in
    let joined : bit_or (bit_or 0x8000_0000 (v * 2 ^ 7)) (page_index la / 2 ^ 10)
        ≡ (2 ^ 24 + v) * 2 ^ 7 + page_index la / 2 ^ 10 =
      ap (λ n. bit_or n (page_index la / 2 ^ 10)) (upper ∙ omega arith)
      ∙ bit_or-join 7 (2 ^ 24 + v) (page_index la / 2 ^ 10) (omega arith) in
    ap (λ n. bit_or (bit_or 0x8000_0000 (n * 2 ^ 7)) (page_index la / 2 ^ 10)) vsid
    ∙ joined
    ∙ omega arith

-- The entry that is loaded with the compare word of a page holds this page.
loaded_fields :
    (is_instr_fetch : Bool) (la sr_val : ℕ) (s : State)
    → s.spr (cmp_register is_instr_fetch) ≡ cmp_word sr_val la
    → let e = loaded_entry (fetch_type is_instr_fetch) la s in
      (e.valid ≡ true)
      × (e.vsid ≡ bit_and sr_val 0xff_ffff)
      × (page_index e.ea_tag ≡ page_index la)
      × (e.pte_lo ≡ s.spr Spr.rpa)
unfolding loaded_entry
loaded_fields true la sr_val s cmp =
    let sum = cmp ∙ cmp_word-sum sr_val la in
    let v = bit_and-mask 24 sr_val in
    (truth-bit_and 31 (s.spr Spr.icmp) ∙ ground arith, omega (arith, v), omega arith, refl)
loaded_fields false la sr_val s cmp =
    let sum = cmp ∙ cmp_word-sum sr_val la in
    let v = bit_and-mask 24 sr_val in
    (truth-bit_and 31 (s.spr Spr.dcmp) ∙ ground arith, omega (arith, v), omega arith, refl)

found_of : Bool → Bool → Option ℕ
found_of h0 h1 = if h0 then some 0 else if h1 then some 1 else none

found_loaded :
    (way vsid la : ℕ) (entry e0 e1 : Tlb603Entry)
    → way < 2
    → entry.valid ≡ true
    → entry.vsid ≡ vsid
    → page_index entry.ea_tag ≡ page_index la
    → found_of
        (holds_page (loaded way 0 entry e0) vsid la)
        (holds_page (loaded way 1 entry e1) vsid la)
      ≡ some way
unfolding loaded found_of
found_loaded zero vsid la entry e0 e1 h valid same page =
    ground (arith, holds_page-eq entry vsid la)
found_loaded (suc zero) vsid la entry e0 e1 h valid same page = ground (
  arith,
  holds_page-eq entry vsid la,
  holds_page-eq e0 entry.vsid entry.ea_tag,
  holds_page-eq e0 vsid la,
)
found_loaded (suc (suc way)) vsid la entry e0 e1 h valid same page = absurd (omega arith)

-- The way that SRR1 names
abbrev named_way : State → ℕ
named_way s = (s.spr Spr.srr1 >>> 17) % 2

module _ (is_instr_fetch : Bool) (la la' sr_val : ℕ) (s : State) (u : PageUnit) (t : Tlb)
    (cmp : s.spr (cmp_register is_instr_fetch) ≡ cmp_word sr_val la)
    (page : page_index la' ≡ page_index la) where
  reloaded : PageUnit
  unfolding mmu_603_tlb_load
  reloaded = (mmu_603_tlb_load (fetch_type is_instr_fetch) la s (u, t)).0

  reloaded_way :
      (w : ℕ)
      → w < 2
      → reloaded.tlb603 (fetch_type is_instr_fetch) (tlb603_set la') w
        ≡ loaded
            (named_way s)
            w
            (loaded_entry (fetch_type is_instr_fetch) la s)
            (u.tlb603 (fetch_type is_instr_fetch) (tlb603_set la) w)
  unfolding reloaded
  reloaded_way w h =
      let ty = fetch_type is_instr_fetch in
      let set : tlb603_set la' ≡ tlb603_set la = omega arith in
      let test : (same_type ty ty && tlb603_set la' == tlb603_set la) ≡ true =
        ground (arith, same_type_refl ty) in
      load_way_of_lem ty ty (tlb603_set la) (tlb603_set la') (named_way s) w (loaded_entry ty la s)
        u.tlb603 (omega arith) h
      ∙ rw test refl

  reloaded_found :
      found_way reloaded (fetch_type is_instr_fetch) (bit_and sr_val 0xff_ffff) la'
      ≡ some (named_way s)
  unfolding found_way found_of
  reloaded_found =
      let ty = fetch_type is_instr_fetch in
      let entry = loaded_entry ty la s in
      let (valid, vsid, index, _) = loaded_fields is_instr_fetch la sr_val s cmp in
      rw (reloaded_way 0 (omega arith), reloaded_way 1 (omega arith))
        (found_loaded (named_way s) (bit_and sr_val 0xff_ffff) la' entry
          (u.tlb603 ty (tlb603_set la) 0) (u.tlb603 ty (tlb603_set la) 1) (omega arith) valid vsid
          (omega arith))

  reloaded_pte :
      (reloaded.tlb603 (fetch_type is_instr_fetch) (tlb603_set la') (named_way s)).pte_lo
      ≡ s.spr Spr.rpa
  unfolding loaded
  reloaded_pte =
      let ty = fetch_type is_instr_fetch in
      let way = named_way s in
      let same : (way == way) ≡ true = ground arith in
      let loaded_here : loaded way way (loaded_entry ty la s) (u.tlb603 ty (tlb603_set la) way)
          ≡ loaded_entry ty la s =
        rw same refl in
      let (_, _, _, pte) = loaded_fields is_instr_fetch la sr_val s cmp in
      ap (λ (e : Tlb603Entry). e.pte_lo) (reloaded_way way (omega arith) ∙ loaded_here) ∙ pte

use_way-done :
    (way la sr_val : ℕ) (is_instr_fetch : Bool) (msr_pr is_write : ℕ) (s : State) (u : PageUnit)
    → let pte_lo = (u.tlb603 (fetch_type is_instr_fetch) (tlb603_set la) way).pte_lo in
      let key = pat_key sr_val msr_pr in
      is_refused key (bit_and pte_lo 3) is_write ≡ false
      → (truth is_write && not (truth (bit_and pte_lo 0x80))) ≡ false
      → (use_way (some way) la sr_val is_instr_fetch msr_pr is_write (s, u)).0
        ≡ done (record {
          phys = bit_or (bit_and pte_lo 0xffff_f000) (bit_and la 0xfff);
          prot = bit_or (key <<< 2) (bit_and pte_lo 3);
          pte_c_status = bit_and pte_lo 0x80;
        })
unfolding use_way
use_way-done way la sr_val is_instr_fetch msr_pr is_write s u allowed changed =
    rw (allowed, changed) refl

-- A miss leaves the compare word of the page in the register of the access. Where a handler keeps it and
-- loads the word in RPA at the address of the miss, into either way, then every access to the page that
-- this word does not refuse, and that does not store through a clear C bit, is translated to the page in
-- RPA, with the protection of its segment and word.
pub tlb_miss-tlb_load :
    (is_instr_fetch : Bool) (la la' sr_val is_write' key msr_pr is_write : ℕ) (hit_way : Option ℕ)
    (s handled later : State) (u v : PageUnit) (t : Tlb)
    → handled.spr (cmp_register is_instr_fetch)
      ≡ (mpc603_tlb_miss la sr_val is_instr_fetch is_write' key hit_way (s, u)).1.spr
          (cmp_register is_instr_fetch)
    → page_index la' ≡ page_index la
    → is_refused (pat_key sr_val msr_pr) (bit_and (handled.spr Spr.rpa) 3) is_write ≡ false
    → (truth is_write && not (truth (bit_and (handled.spr Spr.rpa) 0x80))) ≡ false
    → (mpc603_page_address_translation la' sr_val is_instr_fetch msr_pr is_write
        (later, (mmu_603_tlb_load (fetch_type is_instr_fetch) la handled (v, t)).0)).0
      ≡ done (record {
        phys = bit_or (bit_and (handled.spr Spr.rpa) 0xffff_f000) (bit_and la' 0xfff);
        prot = bit_or (pat_key sr_val msr_pr <<< 2) (bit_and (handled.spr Spr.rpa) 3);
        pte_c_status = bit_and (handled.spr Spr.rpa) 0x80;
      })
unfolding mpc603_page_address_translation reloaded
tlb_miss-tlb_load is_instr_fetch la la' sr_val is_write' key msr_pr is_write hit_way s handled later
      u v t kept page allowed changed =
    let cmp = kept ∙ miss-cmp la sr_val is_instr_fetch is_write' key hit_way s u in
    let found = reloaded_found is_instr_fetch la la' sr_val handled v t cmp page in
    let pte = reloaded_pte is_instr_fetch la la' sr_val handled v t cmp page in
    let m = reloaded is_instr_fetch la la' sr_val handled v t cmp page in
    ap (λ o. (use_way o la' sr_val is_instr_fetch msr_pr is_write (later, m)).0) found
    ∙ subst
        (λ n.
          is_refused (pat_key sr_val msr_pr) (bit_and n 3) is_write ≡ false
          → (truth is_write && not (truth (bit_and n 0x80))) ≡ false
          → (use_way (some (named_way handled)) la' sr_val is_instr_fetch msr_pr is_write
              (later, m)).0
            ≡ done (record {
              phys = bit_or (bit_and n 0xffff_f000) (bit_and la' 0xfff);
              prot = bit_or (pat_key sr_val msr_pr <<< 2) (bit_and n 3);
              pte_c_status = bit_and n 0x80;
            }))
        pte (use_way-done (named_way handled) la' sr_val is_instr_fetch msr_pr is_write later m)
        allowed changed
