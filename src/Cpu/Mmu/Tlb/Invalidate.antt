-- ===== src/Cpu/Mmu/Tlb/Invalidate.antt =====
-- The loop of cpu/ppc/ppcmmu.cpp that invalidates the tracked entries of some sources.
use chungusppc.Common.{
  ◌==◌, ◌&&◌, ◌||◌, true, false, if◌then◌else◌, ◌≡◌, refl, ap, ◌∙◌, arith, List, [], ◌∷◌,
}
use chungusppc.Cpu.Mmu.Tlb.{
  Sources, TlbEntry, Slot, tlb_invalid_tag, is_some_source, meets, same_slot, set_tracked,
  invalidate_entry, invalidate_loop,
}
use chungusppc.Cpu.Mmu.Tlb.Slots.{contains, same_slot_eq, contains-append}

-- What invalidation leaves alone in an entry
abbrev pub content : TlbEntry → TlbEntry
content e = set_tracked false (record e { tag = 0 })

module _ (sources : Sources) where
  step-content :
      (at s : Slot) (en : Slot → TlbEntry) (kept : List Slot)
      → content ((invalidate_entry sources at (en, kept)).0 s) ≡ content (en s)
  unfolding invalidate_entry
  step-content at s en kept = ground (arith, same_slot_eq s at)

  step-tag :
      (at s : Slot) (en : Slot → TlbEntry) (kept : List Slot)
      → ((invalidate_entry sources at (en, kept)).0 s).tag ≡ (
          if meets (en s).flags.from sources && same_slot s at then tlb_invalid_tag else (en s).tag)
  unfolding invalidate_entry
  step-tag at s en kept = ground (arith, same_slot_eq s at)

  -- An entry that is marked as tracked is in the list.
  step-listed :
      (at s : Slot) (en : Slot → TlbEntry) (kept rest : List Slot)
      → ((en s).flags.tlbe_ctx_tracked ≡ true → (contains kept s || contains (at ∷ rest) s) ≡ true)
      → let r = invalidate_entry sources at (en, kept) in
        (r.0 s).flags.tlbe_ctx_tracked ≡ true → (contains r.1 s || contains rest s) ≡ true
  unfolding invalidate_entry
  step-listed at s en kept rest h =
      ground (arith, same_slot_eq s at, contains-append kept (at ∷ []) s)

  -- A valid entry that comes from a translation is marked as tracked.
  step-marked :
      (at s : Slot) (en : Slot → TlbEntry) (kept : List Slot)
      → (((en s).tag == tlb_invalid_tag) ≡ false
          → is_some_source (en s).flags.from ≡ true
          → (en s).flags.tlbe_ctx_tracked ≡ true)
      → let e = (invalidate_entry sources at (en, kept)).0 s in
        (e.tag == tlb_invalid_tag) ≡ false
        → is_some_source e.flags.from ≡ true
        → e.flags.tlbe_ctx_tracked ≡ true
  unfolding invalidate_entry
  step-marked at s en kept h = ground (arith, same_slot_eq s at)

  pub loop-content :
      (l : List Slot) (s : Slot) (en : Slot → TlbEntry) (kept : List Slot)
      → content ((invalidate_loop sources l (en, kept)).0 s) ≡ content (en s)
  unfolding invalidate_loop
  loop-content [] s en kept = refl
  loop-content (at ∷ l) s en kept =
      let r = invalidate_entry sources at (en, kept) in
      loop-content l s r.0 r.1 ∙ step-content at s en kept

  pub loop-tag :
      (l : List Slot) (s : Slot) (en : Slot → TlbEntry) (kept : List Slot)
      → ((invalidate_loop sources l (en, kept)).0 s).tag
        ≡ (if meets (en s).flags.from sources && contains l s then tlb_invalid_tag else (en s).tag)
  unfolding invalidate_loop
  loop-tag [] s en kept = ground arith
  loop-tag (at ∷ l) s en kept =
      let r = invalidate_entry sources at (en, kept) in
      let from = ap (λ (e : TlbEntry). e.flags.from) (step-content at s en kept) in
      ground (arith, loop-tag l s r.0 r.1, step-tag at s en kept, from)

  pub loop-listed :
      (l : List Slot) (s : Slot) (en : Slot → TlbEntry) (kept : List Slot)
      → ((en s).flags.tlbe_ctx_tracked ≡ true → (contains kept s || contains l s) ≡ true)
      → let r = invalidate_loop sources l (en, kept) in
        (r.0 s).flags.tlbe_ctx_tracked ≡ true → contains r.1 s ≡ true
  unfolding invalidate_loop
  loop-listed [] s en kept h = ground arith
  loop-listed (at ∷ l) s en kept h =
      let r = invalidate_entry sources at (en, kept) in
      loop-listed l s r.0 r.1 (step-listed at s en kept l h)

  pub loop-marked :
      (l : List Slot) (s : Slot) (en : Slot → TlbEntry) (kept : List Slot)
      → (((en s).tag == tlb_invalid_tag) ≡ false
          → is_some_source (en s).flags.from ≡ true
          → (en s).flags.tlbe_ctx_tracked ≡ true)
      → let e = (invalidate_loop sources l (en, kept)).0 s in
        (e.tag == tlb_invalid_tag) ≡ false
        → is_some_source e.flags.from ≡ true
        → e.flags.tlbe_ctx_tracked ≡ true
  unfolding invalidate_loop
  loop-marked [] s en kept h = h
  loop-marked (at ∷ l) s en kept h =
      let r = invalidate_entry sources at (en, kept) in
      loop-marked l s r.0 r.1 (step-marked at s en kept h)
