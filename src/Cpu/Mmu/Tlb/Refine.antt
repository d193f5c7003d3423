-- ===== src/Cpu/Mmu/Tlb/Refine.antt =====
-- The translation of an instruction's address by cpu/ppc/ppcmmu.cpp, with its buffers, is the
-- translation without them.
use chungusppc.Common.{
  ℕ, ◌^◌, ◌<◌, ◌==◌, Bool, true, false, if◌then◌else◌, ◌≡◌, refl, ap, sym, ◌∙◌, arith, Option, none,
  some, truth, bit_and, bit_xor, Bool-cases, inl, inr, ==_iff,
}
use mathlib.Core.Path.{subst}
use chungusppc.Common.Bits.Bounds.{bit_xor-lt}
use chungusppc.Cpu.Mmu.Tlb.{
  TlbEntry, Slot, Tlb, primary, secondary, tlb_invalid_tag, write, same_slot, set_tracked,
  track_translated_entry, promote_tlb_entry, tlb2_target_entry, tlb_index, tlb2_touch_way,
}
use chungusppc.Cpu.Mmu.Tlb.Slots.{
  same_slot_refl, same_slot_eq, SameButAge, target-SameButAge, touch-SameButAge, Found, miss, hit,
  lookup-Found,
}
use chungusppc.Cpu.Mmu.Tlb.Tracked.{IsTracked, age-IsTracked, put-IsTracked}
use chungusppc.Cpu.Mmu.Tlb.Fetch.{
  AddressMapEntry, Translated, Outcome, done, raised, aborted, page_tag, host_offset, rt_mmio,
  fetch_entry, fill, refill_region, refill_walked, itlb2_refill, promoted, fetch_missed, fetch_at,
  mmu_translate_imem,
}
use chungusppc.Cpu.Mmu.Tlb.Coherent.{
  Walker, Holds, IsCoherent, direct, table_of, Holds-direct, fetch_entry-Holds,
}

track-unmarked :
    (at s : Slot) (t : Tlb)
    → set_tracked false ((track_translated_entry at t).entries s) ≡ set_tracked false (t.entries s)
unfolding track_translated_entry
track-unmarked at s t = ground (arith, same_slot_eq s at)

page_valid : {n : ℕ} (va : ℕ) → n ≡ page_tag va → (n == tlb_invalid_tag) ≡ false
page_valid va e = ground arith

munged_lt : (is_le : Bool) (va : ℕ) → va < 2 ^ 32 → (if is_le then bit_xor va 4 else va) < 2 ^ 32
munged_lt true va h = bit_xor-lt 32 va 4 h (omega arith)
munged_lt false va h = h

module _ {E : Type 0} (w : Walker E) where
  Holds-same :
      (table : ℕ) (e f : TlbEntry)
      → record (set_tracked false f) { lru_bits = 0 }
        ≡ record (set_tracked false e) { lru_bits = 0 }
      → Holds w table e
      → Holds w table f
  Holds-same table e f same k =
      let tag : f.tag ≡ e.tag = ap (λ (g : TlbEntry). g.tag) same in
      let phys : f.phys_tag ≡ e.phys_tag = ap (λ (g : TlbEntry). g.phys_tag) same in
      let host : f.host_va_offs_r ≡ e.host_va_offs_r =
        ap (λ (g : TlbEntry). g.host_va_offs_r) same in
      let page = ap page_tag tag in
      record {
        x = k.x;
        rgn = k.rgn;
        mapped = ap (w.mapping table) page ∙ k.mapped;
        found = k.found;
        source = ap (λ (g : TlbEntry). g.flags.from) same ∙ k.source;
        memory = k.memory;
        phys = phys ∙ k.phys;
        host = host ∙ k.host ∙ ap (λ a. host_offset k.rgn a k.x.phys_addr) (sym page);
      }

  age-IsCoherent : (t u : Tlb) → SameButAge t u → IsCoherent w t → IsCoherent w u
  age-IsCoherent t u same c = record {
    holds = λ s valid.
        let tag = ap (λ (e : TlbEntry). e.tag) (same.age s) in
        Holds-same (table_of s) (t.entries s) (u.entries s) (ap (set_tracked false) (same.age s))
          (c.holds s (ap (λ n. n == tlb_invalid_tag) (sym tag) ∙ valid));
  }

  write-Holds :
      (at s : Slot) (e : TlbEntry) (t : Tlb)
      → Holds w (table_of at) e
      → IsCoherent w t
      → ((write at e t.entries s).tag == tlb_invalid_tag) ≡ false
      → Holds w (table_of s) (write at e t.entries s)
  write-Holds at s e t k c = elim (Bool-cases (same_slot s at)) [
    | inl here ↦
        let eq = same_slot_eq s at here in
        rw here (λ valid. subst (λ u. Holds w (table_of u) e) (sym eq) k)
    | inr other ↦ rw other (c.holds s)
  ]

  put-IsCoherent :
      (at : Slot) (e : TlbEntry) (t : Tlb)
      → Holds w (table_of at) e
      → IsCoherent w t
      → IsCoherent w (track_translated_entry at (record t { entries = write at e t.entries }))
  put-IsCoherent at e t k c = record {
    holds = λ s valid.
        let t1 = record t { entries = write at e t.entries } in
        let same = track-unmarked at s t1 in
        let tag = ap (λ (g : TlbEntry). g.tag) same in
        Holds-same (table_of s) (t1.entries s) ((track_translated_entry at t1).entries s)
          (ap (λ (g : TlbEntry). record g { lru_bits = 0 }) same)
          (write-Holds at s e t k c (ap (λ n. n == tlb_invalid_tag) (sym tag) ∙ valid));
  }

  -- The buffers are in order, and the context has not changed.
  abbrev pub IsReady : ℕ → Tlb × E → Type 0
  IsReady table (t, e) = IsTracked t × IsCoherent w t × w.Fixed table e

  -- The refill ends in a slot that holds the page, or as the translation does.
  abbrev Refilled : ℕ → ℕ → Outcome Slot × Tlb × E → Type 0
  Refilled table va (done at, t, e) =
      IsReady table (t, e) × Holds w table (t.entries at) × ((t.entries at).tag ≡ page_tag va)
  Refilled table va (raised ty srr1, t, e) =
      IsReady table (t, e) × (direct w table va ≡ raised ty srr1)
  Refilled table va (aborted, t, e) = IsReady table (t, e) × (direct w table va ≡ aborted)

  abbrev pub Fetched : ℕ → ℕ → Outcome (ℕ × ℕ) × Tlb × E → Type 0
  Fetched table va (r, t, e) = (r ≡ direct w table va) × IsReady table (t, e)

  promoted_lem :
      (table va : ℕ) (r : Outcome Slot × Tlb × E)
      → va < 2 ^ 32
      → Refilled table va r
      → Fetched table va (promoted w.walk w.find_range table va r)
  unfolding promoted promote_tlb_entry
  promoted_lem table va (done at, t, e) h ((tracked, coherent, fixed), k, tag) =
      let here = primary table (tlb_index va) in
      let f = set_tracked ((t.entries here).flags.tlbe_ctx_tracked) (t.entries at) in
      let kf = Holds-same table (t.entries at) f refl k in
      let t1 = record t { entries = write here f t.entries } in
      let written : write here f t.entries here ≡ f = ground (arith, same_slot_refl here) in
      let same = track-unmarked here here t1 ∙ ap (set_tracked false) written in
      let g = (track_translated_entry here t1).entries here in
      let kg = Holds-same table f g (ap (λ (e : TlbEntry). record e { lru_bits = 0 }) same) kf in
      let tag' = ap (λ (e : TlbEntry). e.tag) same ∙ tag in
      (
        sym (Holds-direct w table va g h kg tag'),
        (put-IsTracked t tracked here f refl, put-IsCoherent here f t kf coherent, fixed),
      )
  promoted_lem table va (raised ty srr1, t, e) h (ready, d) = (sym d, ready)
  promoted_lem table va (aborted, t, e) h (ready, d) = (sym d, ready)

  fill-Refilled :
      (table va : ℕ) (x : Translated) (rgn : AddressMapEntry) (t : Tlb) (e : E)
      → va < 2 ^ 32
      → w.mapping table va ≡ done x
      → w.find_range x.phys_addr ≡ some rgn
      → truth (bit_and rgn.region_type rt_mmio) ≡ false
      → IsReady table (t, e)
      → let r = fill (fetch_entry rgn x va) table (page_tag va) t in
        Refilled table va (done r.0, r.1, e)
  unfolding fill fetch_entry tlb2_target_entry
  fill-Refilled table va x rgn t e h m f io (tracked, coherent, fixed) =
      let target = tlb2_target_entry table (page_tag va) t in
      let at = target.0 in
      let t1 = target.1 in
      let age = target-SameButAge table (page_tag va) t in
      let g = fetch_entry rgn x va (t1.entries at) in
      let k = fetch_entry-Holds w table va x rgn (t1.entries at) h m f io in
      let t2 = record t1 { entries = write at g t1.entries } in
      let written : write at g t1.entries at ≡ g = ground (arith, same_slot_refl at) in
      let same = track-unmarked at at t2 ∙ ap (set_tracked false) written in
      (
        (
          put-IsTracked t1 (age-IsTracked t tracked t1 age) at g refl,
          put-IsCoherent at g t1 k (age-IsCoherent t t1 age coherent),
          fixed,
        ),
        Holds-same table g ((track_translated_entry at t2).entries at)
            (ap (λ (b : TlbEntry). record b { lru_bits = 0 }) same) k,
        ap (λ (b : TlbEntry). b.tag) same,
      )

  region-Refilled :
      (table va : ℕ) (x : Translated) (o : Option AddressMapEntry) (t : Tlb) (e : E)
      → va < 2 ^ 32
      → w.mapping table va ≡ done x
      → w.find_range x.phys_addr ≡ o
      → IsReady table (t, e)
      → Refilled table va (refill_region w.walk w.find_range table va x o (t, e))
  unfolding refill_region
  region-Refilled table va x none t e h m f ready = (ready, rw (m, f) refl)
  region-Refilled table va x (some rgn) t e h m f ready =
      elim (Bool-cases (truth (bit_and rgn.region_type rt_mmio))) [
        | inl io ↦ rw io (ready, rw (m, f, io) refl)
        | inr memory ↦ rw memory (fill-Refilled table va x rgn t e h m f memory ready)
      ]

  walked-Refilled :
      (table va : ℕ) (r : Outcome Translated × E) (t : Tlb)
      → va < 2 ^ 32
      → r.0 ≡ w.mapping table va
      → IsReady table (t, r.1)
      → Refilled table va (refill_walked w.walk w.find_range table va r t)
  unfolding refill_walked
  walked-Refilled table va (done x, e) t h m ready =
      region-Refilled table va x (w.find_range x.phys_addr) t e h (sym m) refl ready
  walked-Refilled table va (raised ty srr1, e) t h m ready = (ready, rw (← m) refl)
  walked-Refilled table va (aborted, e) t h m ready = (ready, rw (← m) refl)

  missed_lem :
      (table va : ℕ) (t : Tlb) (r : Option Slot × Tlb) (e : E)
      → va < 2 ^ 32
      → Found table (tlb_index va) (page_tag va) t r
      → IsReady table (t, e)
      → Fetched table va (fetch_missed w.walk w.find_range table va r e)
  unfolding fetch_missed itlb2_refill
  missed_lem table va t _ e h miss (tracked, coherent, fixed) = promoted_lem table va _ h (
      walked-Refilled table va (w.walk va e) t h (w.walk-mapping table va e fixed)
        (tracked, coherent, w.walk-Fixed table va e fixed))
  missed_lem table va t _ e h (hit way tag) (tracked, coherent, fixed) =
      let i = tlb_index va in
      let t1 = tlb2_touch_way way table i t in
      let at = secondary table i way in
      let age = touch-SameButAge way table i t in
      let coherent' = age-IsCoherent t t1 age coherent in
      let tag' : (t1.entries at).tag ≡ page_tag va =
        ap (λ (b : TlbEntry). b.tag) (age.age at) ∙ tag in
      let valid : ((t1.entries at).tag == tlb_invalid_tag) ≡ false = page_valid va tag' in
      promoted_lem table va (done at, t1, e) h
        ((age-IsTracked t tracked t1 age, coherent', fixed), coherent'.holds at valid, tag')

  fetch_lem :
      (table va : ℕ) (t : Tlb) (e : E)
      → va < 2 ^ 32
      → IsReady table (t, e)
      → Fetched table va (fetch_at w.walk w.find_range table va (t, e))
  unfolding fetch_at
  fetch_lem table va t e h (tracked, coherent, fixed) =
      let here = primary table (tlb_index va) in
      elim (Bool-cases ((t.entries here).tag == page_tag va)) [
        | inl found ↦
            let tag = (==_iff _ _).0 found in
            let k = coherent.holds here (page_valid va tag) in
            rw found
              (sym (Holds-direct w table va (t.entries here) h k tag), (tracked, coherent, fixed))
        | inr missed ↦ rw missed (
            missed_lem table va t _ e h (lookup-Found table va (page_tag va) t)
              (tracked, coherent, fixed))
      ]

  -- On buffers in order, and in a context that the walker describes, the translation of an
  -- instruction's address ends as the one without buffers does: with the same addresses on the host and
  -- in physical memory, or with the same exception. The buffers stay in order.
  pub mmu_translate_imem-refines :
      (is_le : Bool) (table vaddr : ℕ) (t : Tlb) (e : E)
      → vaddr < 2 ^ 32
      → IsReady table (t, e)
      → let va = if is_le then bit_xor vaddr 4 else vaddr in
        Fetched table va (mmu_translate_imem w.walk w.find_range is_le table vaddr (t, e))
  unfolding mmu_translate_imem
  mmu_translate_imem-refines is_le table vaddr t e h ready =
      fetch_lem table _ t e (munged_lt is_le vaddr h) ready
