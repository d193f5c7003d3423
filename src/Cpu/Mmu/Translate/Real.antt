-- ===== src/Cpu/Mmu/Translate/Real.antt =====
-- The addresses of instructions where their translation is switched off (cpu/ppc/ppcmmu.cpp).
use chungusppc.Common.{
  ℕ, ◌%◌, ◌^◌, ◌≤◌, ◌<◌, Bool, false, if◌then◌else◌, ◌≡◌, refl, ap, arith, bit_and, bit_xor, truth,
  Option, some,
}
use chungusppc.Cpu.State.{State}
use chungusppc.Cpu.Msr
use chungusppc.Cpu.Mmu.Tlb.{Tlb, no_source}
use chungusppc.Cpu.Mmu.Tlb.Fetch.{
  AddressMapEntry, Translated, Outcome, done, page_tag, mmu_translate_imem,
}
use chungusppc.Cpu.Mmu.Tlb.Coherent.{Walker, further}
use chungusppc.Cpu.Mmu.Tlb.Refine.{Fetched, IsReady, mmu_translate_imem-refines}
use chungusppc.Cpu.Mmu.Bat.{PpcBatEntry}
use chungusppc.Cpu.Mmu.Page.{PageUnit}
use chungusppc.Cpu.Mmu.Translate.{fetch_translation}

abbrev pub same_address : ℕ → Outcome Translated
same_address va = done (record { phys_addr = va; from = no_source })

abbrev pub is_translated : State × PageUnit → Bool
is_translated (s, u) = truth (bit_and s.msr Msr.ir)

module _ (find_range : ℕ → Option AddressMapEntry) (ibat_array : ℕ → PpcBatEntry)
    (range_page : (a : ℕ) → find_range a ≡ find_range (page_tag a))
    (range_start : (a : ℕ) (rgn : AddressMapEntry) → find_range a ≡ some rgn → rgn.start ≤ a) where
  pub real_lem :
      (va : ℕ) (s : State) (u : PageUnit)
      → is_translated (s, u) ≡ false
      → fetch_translation find_range ibat_array va (s, u) ≡ (same_address va, (s, u))
  unfolding fetch_translation
  real_lem va s u off = rw off refl

  pub real_page : (va : ℕ) → same_address va ≡ further (va % 2 ^ 12) (same_address (page_tag va))
  real_page va = ap same_address (omega arith)

  pub real_aligned :
      (va : ℕ) (x : Translated) → same_address (page_tag va) ≡ done x → x.phys_addr % 2 ^ 12 ≡ 0
  real_aligned va x e = let p : page_tag va ≡ x.phys_addr = cc in omega arith

  -- The translation that the refill starts with, while MSR[IR] is clear
  abbrev pub real_walker : Walker (State × PageUnit)
  real_walker = record {
    walk = fetch_translation find_range ibat_array;
    find_range = find_range;
    Fixed = λ table m. is_translated m ≡ false;
    mapping = λ table va. same_address va;
    walk-mapping = λ table va m off. rw (real_lem va m.0 m.1 off) refl;
    walk-Fixed = λ table va m off. rw (real_lem va m.0 m.1 off) off;
    mapping_page = λ table va h. real_page va;
    mapping_aligned = λ table va x e. real_aligned va x e;
    range_page = range_page;
    range_start = range_start;
  }

  -- While MSR[IR] is clear, buffers in order give an instruction's address as physical address, in the
  -- region that the memory controller reports there, and stay in order.
  pub mmu_translate_imem-real :
      (is_le : Bool) (table vaddr : ℕ) (t : Tlb) (m : State × PageUnit)
      → vaddr < 2 ^ 32
      → IsReady real_walker table (t, m)
      → let va = if is_le then bit_xor vaddr 4 else vaddr in
        Fetched real_walker table va (
          mmu_translate_imem
            (fetch_translation find_range ibat_array)
            find_range
            is_le
            table
            vaddr
            (t, m))
  mmu_translate_imem-real is_le table vaddr t m h ready =
      mmu_translate_imem-refines real_walker is_le table vaddr t m h ready
