-- ===== src/Cpu/Mmu/Tlb/Tracked.antt =====
-- Entries of cpu/ppc/ppcmmu.cpp that come from a translation are tracked, so that an invalidation
-- reaches them.
use chungusppc.Common.{
  ℕ, ◌==◌, true, false, if◌then◌else◌, ◌≡◌, refl, ap, sym, ◌∙◌, arith, [], ◌∷◌, Bool-cases, inl,
  inr,
}
use chungusppc.Cpu.Mmu.Tlb.{
  Sources, TlbEntry, Slot, Tlb, tlb_invalid_tag, is_some_source, meets, write, set_tracked,
  track_translated_entry, promote_tlb_entry, tlb_invalidate_tracked_entries, invalidate_pending,
  schedule_tlb_invalidation, tlb_flush_pat_page,
}
use chungusppc.Cpu.Mmu.Tlb.Slots.{
  contains, same_slot_refl, same_slot_eq, contains-append, SameButAge,
}
use chungusppc.Cpu.Mmu.Tlb.Invalidate.{loop-tag, loop-listed, loop-marked}

-- A slot that is marked as tracked is in the list, and a valid entry from a translation is marked.
pub record IsTracked (t : Tlb) : Type 0 where
  pub listed :
      (s : Slot) → (t.entries s).flags.tlbe_ctx_tracked ≡ true → contains t.tracked s ≡ true
  pub marked :
      (s : Slot)
      → ((t.entries s).tag == tlb_invalid_tag) ≡ false
      → is_some_source (t.entries s).flags.from ≡ true
      → (t.entries s).flags.tlbe_ctx_tracked ≡ true

module _ (t : Tlb) (k : IsTracked t) where
  pub invalidate-IsTracked :
      (sources : Sources) → IsTracked (tlb_invalidate_tracked_entries sources t)
  unfolding tlb_invalidate_tracked_entries
  invalidate-IsTracked sources = record {
    listed = λ s. loop-listed sources t.tracked s t.entries [] (k.listed s);
    marked = λ s. loop-marked sources t.tracked s t.entries [] (k.marked s);
  }

  -- Exactly the entries of the sources are invalid, and all else stays.
  pub invalidate-tag :
      (sources : Sources) (s : Slot)
      → ((tlb_invalidate_tracked_entries sources t).entries s).tag
        ≡ (if meets (t.entries s).flags.from sources then tlb_invalid_tag else (t.entries s).tag)
  unfolding tlb_invalidate_tracked_entries
  invalidate-tag sources s =
      ground (arith, loop-tag sources t.tracked s t.entries [], k.listed s, k.marked s)

  pub schedule-IsTracked : (sources : Sources) → IsTracked (schedule_tlb_invalidation sources t)
  unfolding schedule_tlb_invalidation
  schedule-IsTracked sources = record { listed = k.listed; marked = k.marked }

  pub flush_page-IsTracked : (ea : ℕ) → IsTracked (tlb_flush_pat_page ea t)
  unfolding tlb_flush_pat_page
  flush_page-IsTracked ea = record {
    listed = λ s. ground (arith, k.listed s);
    marked = λ s. ground (arith, k.marked s);
  }

  pub age-IsTracked : (u : Tlb) → SameButAge t u → IsTracked u
  age-IsTracked u same = record {
    listed = λ s h.
        let flags = ap (λ (e : TlbEntry). e.flags.tlbe_ctx_tracked) (same.age s) in
        ap (λ l. contains l s) same.tracked ∙ k.listed s (sym flags ∙ h);
    marked = λ s. ground (arith, k.marked s, same.age s);
  }

  -- An entry is replaced by one with the same mark, and then tracked.
  pub put-IsTracked :
      (at : Slot) (e : TlbEntry)
      → e.flags.tlbe_ctx_tracked ≡ (t.entries at).flags.tlbe_ctx_tracked
      → IsTracked (track_translated_entry at (record t { entries = write at e t.entries }))
  unfolding track_translated_entry
  put-IsTracked at e same = record {
    listed = λ s. ground (
      arith,
      k.listed s,
      k.marked s,
      same_slot_refl at,
      same_slot_eq s at,
      contains-append t.tracked (at ∷ []) s,
    );
    marked = λ s. ground (arith, k.listed s, k.marked s, same_slot_refl at, same_slot_eq s at);
  }

  pub promote-IsTracked : (at : Slot) (e : TlbEntry) → IsTracked (promote_tlb_entry at e t)
  unfolding promote_tlb_entry
  promote-IsTracked at e =
      put-IsTracked at (set_tracked ((t.entries at).flags.tlbe_ctx_tracked) e) refl

pub pending-IsTracked : (t : Tlb) → IsTracked t → IsTracked (invalidate_pending t)
unfolding invalidate_pending
pending-IsTracked t k = elim (Bool-cases (is_some_source t.pending)) [
  | inl some' ↦
      let done = invalidate-IsTracked t k t.pending in
      rw some' (record { listed = done.listed; marked = done.marked })
  | inr none' ↦ rw none' k
]
