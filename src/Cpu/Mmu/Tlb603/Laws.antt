-- ===== src/Cpu/Mmu/Tlb603/Laws.antt =====
-- The buffers of the 603 (cpu/ppc/ppcmmu.cpp): no page is held twice, and what a handler loads after a
-- miss is found.
use chungusppc.Common.{
  ℕ, zero, suc, ◌%◌, ◌<◌, ◌==◌, ◌&&◌, Bool, true, false, if◌then◌else◌, ◌≡◌, refl, ap, ◌∙◌, arith,
  bit_and, Bool-cases, inl, inr, Option, none, some, ◌>>>◌,
}
use chungusppc.Cpu.State.{State}
use chungusppc.Cpu.Spr
use chungusppc.Cpu.Mmu.Tlb.{Tlb}
use chungusppc.Cpu.Mmu.Page.{PageUnit, TlbType, itlb, dtlb, Tlb603Entry}
use chungusppc.Cpu.Mmu.Tlb603.{
  tlb603_set, same_type, fetch_type, mpc603_tlb_miss, holds_page, found_way, use_way,
  mpc603_page_address_translation, loaded_entry, load_way_of, mmu_603_tlb_load,
  mmu_603_tlb_invalidate_set,
}
use chungusppc.Cpu.Mmu.Tlb603.Pages.{page_index, same_page_iff}

-- Both entries are valid and hold one page.
abbrev pub is_double : Tlb603Entry → Tlb603Entry → Bool
is_double e f = e.valid && f.valid && e.vsid == f.vsid && page_index e.ea_tag == page_index f.ea_tag

abbrev pub IsUnique : PageUnit → Type 0
IsUnique u = (ty : TlbType) (set : ℕ) → is_double (u.tlb603 ty set 0) (u.tlb603 ty set 1) ≡ false

pub holds_page-eq :
    (e : Tlb603Entry) (vsid la : ℕ)
    → holds_page e vsid la ≡ (e.valid && e.vsid == vsid && page_index e.ea_tag == page_index la)
holds_page-eq e vsid la = ground (arith, same_page_iff e.ea_tag la)

same_type_eq : (a b : TlbType) → same_type a b ≡ true → a ≡ b
same_type_eq itlb itlb h = refl
same_type_eq dtlb dtlb h = refl
same_type_eq itlb dtlb h = cc
same_type_eq dtlb itlb h = cc

pub same_type_refl : (a : TlbType) → same_type a a ≡ true
same_type_refl itlb = refl
same_type_refl dtlb = refl

-- The two ways of the set after a load
unfoldable pub loaded : (way w : ℕ) → Tlb603Entry → Tlb603Entry → Tlb603Entry
loaded way w entry other =
    if w == way
    then entry
    else if holds_page other entry.vsid entry.ea_tag
    then record other { valid = false }
    else other

pub load_way_of_lem :
    (ty ty' : TlbType) (set set' way w : ℕ) (entry : Tlb603Entry)
    (tlb : TlbType → ℕ → ℕ → Tlb603Entry)
    → way < 2
    → w < 2
    → load_way_of ty set way entry tlb ty' set' w ≡ (
        if same_type ty' ty && set' == set
        then loaded way w entry (tlb ty set w)
        else tlb ty' set' w)
unfolding load_way_of loaded
load_way_of_lem ty ty' set set' zero zero entry tlb h g =
    ground (arith, same_type_eq ty' ty, same_type_refl ty)
load_way_of_lem ty ty' set set' zero (suc zero) entry tlb h g =
    ground (arith, same_type_eq ty' ty, same_type_refl ty)
load_way_of_lem ty ty' set set' (suc zero) zero entry tlb h g =
    ground (arith, same_type_eq ty' ty, same_type_refl ty)
load_way_of_lem ty ty' set set' (suc zero) (suc zero) entry tlb h g =
    ground (arith, same_type_eq ty' ty, same_type_refl ty)
load_way_of_lem ty ty' set set' zero (suc (suc w)) entry tlb h g = absurd (omega arith)
load_way_of_lem ty ty' set set' (suc zero) (suc (suc w)) entry tlb h g = absurd (omega arith)
load_way_of_lem ty ty' set set' (suc (suc way)) w entry tlb h g = absurd (omega arith)

loaded-single :
    (way : ℕ) (entry e0 e1 : Tlb603Entry)
    → way < 2
    → is_double (loaded way 0 entry e0) (loaded way 1 entry e1) ≡ false
unfolding loaded
loaded-single way entry e0 e1 h =
    ground
      (arith, holds_page-eq e0 entry.vsid entry.ea_tag, holds_page-eq e1 entry.vsid entry.ea_tag)

load-IsUnique :
    (ty : TlbType) (ea : ℕ) (s : State) (u : PageUnit) (t : Tlb)
    → IsUnique u
    → IsUnique (mmu_603_tlb_load ty ea s (u, t)).0
unfolding mmu_603_tlb_load
load-IsUnique ty ea s u t unique ty' set' =
    let set = tlb603_set ea in
    let way = (s.spr Spr.srr1 >>> 17) % 2 in
    let entry = loaded_entry ty ea s in
    rw
      (
        load_way_of_lem ty ty' set set' way 0 entry u.tlb603 (omega arith) (omega arith),
        load_way_of_lem ty ty' set set' way 1 entry u.tlb603 (omega arith) (omega arith),
      )
      (elim (Bool-cases (same_type ty' ty && set' == set)) [
        | inl here ↦
            rw here (loaded-single way entry (u.tlb603 ty set 0) (u.tlb603 ty set 1) (omega arith))
        | inr other ↦ rw other (unique ty' set')
      ])

use_way-keeps :
    (o : Option ℕ) (la sr_val : ℕ) (is_instr_fetch : Bool) (msr_pr is_write : ℕ) (s : State)
    (u : PageUnit)
    → (use_way o la sr_val is_instr_fetch msr_pr is_write (s, u)).2.tlb603 ≡ u.tlb603
unfolding use_way mpc603_tlb_miss
use_way-keeps none la sr_val is_instr_fetch msr_pr is_write s u = refl
use_way-keeps (some way) la sr_val is_instr_fetch msr_pr is_write s u = ground arith

-- If no set of the buffers of the 603 holds a page in both ways, none does after `tlbld` or `tlbli`,
-- after `tlbie`, and after a translation that hits, misses or is refused.
pub tlb603-IsUnique :
    (ty : TlbType) (ea la sr_val : ℕ) (is_instr_fetch : Bool) (msr_pr is_write : ℕ) (s : State)
    (u : PageUnit) (t : Tlb)
    → IsUnique u
    → IsUnique (mmu_603_tlb_load ty ea s (u, t)).0
      × IsUnique (mmu_603_tlb_invalidate_set ea u)
      × IsUnique (mpc603_page_address_translation la sr_val is_instr_fetch msr_pr is_write (s, u)).2
unfolding mmu_603_tlb_invalidate_set mpc603_page_address_translation
tlb603-IsUnique ty ea la sr_val is_instr_fetch msr_pr is_write s u t unique = (
  load-IsUnique ty ea s u t unique,
  λ ty' set'. ground (arith, unique ty' set'),
  λ ty' set'.
      let o = found_way u (fetch_type is_instr_fetch) (bit_and sr_val 0xff_ffff) la in
      ap (λ tlb. is_double (tlb ty' set' 0) (tlb ty' set' 1))
        (use_way-keeps o la sr_val is_instr_fetch msr_pr is_write s u)
      ∙ unique ty' set',
)
