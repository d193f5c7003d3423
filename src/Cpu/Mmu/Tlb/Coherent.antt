-- ===== src/Cpu/Mmu/Tlb/Coherent.antt =====
-- The lookaside buffers of cpu/ppc/ppcmmu.cpp against the translation without them, which is an
-- interface: an address translation that is uniform on a page, in a context that does not change.
use chungusppc.Common.{
  ℕ, ◌+◌, ◌-◌, ◌*◌, ◌/◌, ◌%◌, ◌^◌, ◌≤◌, ◌<◌, ◌==◌, false, if◌then◌else◌, ◌≡◌, refl, ap, sym, ◌∙◌,
  arith, Option, none, some, truth, bit_and, bit_or,
}
use chungusppc.Common.Bits.Halves.{bit_or-join}
use mathlib.Core.Path.{ap₂}
use chungusppc.Cpu.Mmu.Tlb.{TlbEntry, Slot, Tlb, primary, secondary, tlb_invalid_tag}
use chungusppc.Cpu.Mmu.Tlb.Fetch.{
  AddressMapEntry, Translated, Outcome, done, raised, aborted, page_tag, host_offset, rt_mmio,
  addresses, fetch_entry,
}

abbrev pub table_of : Slot → ℕ
table_of (primary table i) = table
table_of (secondary table i w) = table

-- The translation of an address `o` bytes further
abbrev pub further : ℕ → Outcome Translated → Outcome Translated
further o (done x) = done (record x { phys_addr = x.phys_addr + o })
further o (raised ty srr1) = raised ty srr1
further o aborted = aborted

-- A translation in the contexts of the three arrays: in an environment of the context, `walk` ends as
-- `mapping` says and stays in it; pages and regions of memory begin at page boundaries.
pub record Walker (E : Type 0) : Type 1 where
  pub walk : ℕ → E → Outcome Translated × E
  pub find_range : ℕ → Option AddressMapEntry
  pub Fixed : ℕ → E → Type 0
  pub mapping : ℕ → ℕ → Outcome Translated
  pub walk-mapping : (table va : ℕ) (e : E) → Fixed table e → (walk va e).0 ≡ mapping table va
  pub walk-Fixed : (table va : ℕ) (e : E) → Fixed table e → Fixed table (walk va e).1
  pub mapping_page :
      (table va : ℕ)
      → va < 2 ^ 32
      → mapping table va ≡ further (va % 2 ^ 12) (mapping table (page_tag va))
  pub mapping_aligned :
      (table va : ℕ) (x : Translated)
      → mapping table (page_tag va) ≡ done x
      → x.phys_addr % 2 ^ 12 ≡ 0
  pub range_page : (a : ℕ) → find_range a ≡ find_range (page_tag a)
  pub range_start : (a : ℕ) (rgn : AddressMapEntry) → find_range a ≡ some rgn → rgn.start ≤ a

-- The addresses of an instruction without any buffer
abbrev pub direct_region : Translated → Option AddressMapEntry → Outcome (ℕ × ℕ)
direct_region x none = aborted
direct_region x (some rgn) =
    if truth (bit_and rgn.region_type rt_mmio)
    then aborted
    else done ((rgn.mem_ptr + (x.phys_addr - rgn.start)) % 2 ^ 64, x.phys_addr)

abbrev pub direct_mapped : (ℕ → Option AddressMapEntry) → Outcome Translated → Outcome (ℕ × ℕ)
direct_mapped find_range (done x) = direct_region x (find_range x.phys_addr)
direct_mapped find_range (raised ty srr1) = raised ty srr1
direct_mapped find_range aborted = aborted

module _ {E : Type 0} (w : Walker E) where
  abbrev pub direct : ℕ → ℕ → Outcome (ℕ × ℕ)
  direct table va = direct_mapped w.find_range (w.mapping table va)

  -- The entry holds what its tag maps to.
  pub record Holds (table : ℕ) (e : TlbEntry) : Type 0 where
    pub x : Translated
    pub rgn : AddressMapEntry
    pub mapped : w.mapping table (page_tag e.tag) ≡ done x
    pub found : w.find_range x.phys_addr ≡ some rgn
    pub source : e.flags.from ≡ x.from
    pub memory : truth (bit_and rgn.region_type rt_mmio) ≡ false
    pub phys : e.phys_tag ≡ x.phys_addr
    pub host : e.host_va_offs_r ≡ host_offset rgn (page_tag e.tag) x.phys_addr

  pub record IsCoherent (t : Tlb) : Type 0 where
    pub holds :
        (s : Slot)
        → ((t.entries s).tag == tlb_invalid_tag) ≡ false
        → Holds (table_of s) (t.entries s)

  further_done :
      (o : ℕ) (m : Outcome Translated) (x : Translated)
      → done x ≡ further o m
      → (y : Translated) × (m ≡ done y) × (x ≡ record y { phys_addr = y.phys_addr + o })
  further_done o (done y) x h = (y, refl, cc)
  further_done o (raised ty srr1) x h = absurd (cc)
  further_done o aborted x h = absurd (cc)

  -- A translation at `va`, seen from the start of its page
  pub start_of_page :
      (table va : ℕ) (x : Translated)
      → va < 2 ^ 32
      → w.mapping table va ≡ done x
      → (y : Translated) × (w.mapping table (page_tag va) ≡ done y)
        × (x ≡ record y { phys_addr = y.phys_addr + va % 2 ^ 12 })
        × (y.phys_addr % 2 ^ 12 ≡ 0)
  start_of_page table va x h e =
      let r =
        further_done (va % 2 ^ 12) (w.mapping table (page_tag va)) x
          (sym e ∙ w.mapping_page table va h) in
      (r.0, r.1, r.2, w.mapping_aligned table va r.0 r.1)

  pub range_further :
      (a o : ℕ) → a % 2 ^ 12 ≡ 0 → o < 2 ^ 12 → w.find_range (a + o) ≡ w.find_range a
  range_further a o h g =
      let same : page_tag (a + o) ≡ page_tag a = omega arith in
      w.range_page (a + o) ∙ ap w.find_range same ∙ sym (w.range_page a)

  -- What a hit gives is what the translation gives.
  pub Holds-direct :
      (table va : ℕ) (e : TlbEntry)
      → va < 2 ^ 32
      → Holds table e
      → e.tag ≡ page_tag va
      → direct table va ≡ done (addresses e va)
  Holds-direct table va e h k tag =
      let o : ℕ = va % 2 ^ 12 in
      let start : page_tag e.tag ≡ page_tag va = omega arith in
      let mapped : w.mapping table va ≡ done (record k.x { phys_addr = k.x.phys_addr + o }) =
        w.mapping_page table va h
        ∙ ap (λ m. further o m) (ap (w.mapping table) (sym start) ∙ k.mapped) in
      let aligned = w.mapping_aligned table e.tag k.x k.mapped in
      let found = range_further k.x.phys_addr o aligned (omega arith) ∙ k.found in
      let low = w.range_start k.x.phys_addr k.rgn k.found in
      let host : (k.rgn.mem_ptr + (k.x.phys_addr + o - k.rgn.start)) % 2 ^ 64
          ≡ (e.host_va_offs_r + va) % 2 ^ 64 =
        omega arith in
      let whole : k.x.phys_addr / 2 ^ 12 * 2 ^ 12 ≡ e.phys_tag = omega arith in
      let joined : bit_or e.phys_tag o ≡ k.x.phys_addr + o =
        ap (λ n. bit_or n o) (sym whole)
        ∙ bit_or-join 12 (k.x.phys_addr / 2 ^ 12) o (omega arith)
        ∙ omega arith in
      rw (mapped, found, k.memory) (ap₂ (λ (a b : ℕ). done (a, b)) host (sym joined))

  -- What the refill writes is what the translation gives.
  pub fetch_entry-Holds :
      (table va : ℕ) (x : Translated) (rgn : AddressMapEntry) (old : TlbEntry)
      → va < 2 ^ 32
      → w.mapping table va ≡ done x
      → w.find_range x.phys_addr ≡ some rgn
      → truth (bit_and rgn.region_type rt_mmio) ≡ false
      → Holds table (fetch_entry rgn x va old)
  unfolding fetch_entry
  fetch_entry-Holds table va x rgn old h m f io =
      let (y, mapped, split, aligned) = start_of_page table va x h m in
      let o : ℕ = va % 2 ^ 12 in
      let phys : x.phys_addr ≡ y.phys_addr + o = ap (λ (z : Translated). z.phys_addr) split in
      let same : page_tag (page_tag va) ≡ page_tag va = omega arith in
      let found : w.find_range y.phys_addr ≡ some rgn =
        sym (range_further y.phys_addr o aligned (omega arith)) ∙ ap w.find_range (sym phys) ∙ f in
      let low = w.range_start y.phys_addr rgn found in
      record {
        x = y;
        rgn = rgn;
        mapped = ap (w.mapping table) same ∙ mapped;
        found = found;
        source = ap (λ (z : Translated). z.from) split;
        memory = io;
        phys = omega arith;
        host = omega arith;
      }
