-- ===== src/Cpu/Mmu/Tlb/Change.antt =====
-- A change of the context of translation in cpu/ppc/ppcmmu.cpp: the entries of the sources that it
-- concerns are scheduled for invalidation, and invalid after the next synchronisation.
use chungusppc.Common.{
  ℕ, zero, suc, ◌==◌, Bool, true, false, if◌then◌else◌, ◌≡◌, refl, ap, sym, ◌∙◌, arith, Bool-cases,
  inl, inr, [],
}
use mathlib.Core.Path.{subst}
use chungusppc.Cpu.Mmu.Tlb.{
  run_actions, do_ctx_sync, Sources, TlbEntry, Slot, Tlb, tlb_invalid_tag, is_some_source, meets,
  join, schedule_tlb_invalidation, invalidate_pending, tlb_invalidate_tracked_entries,
}
use chungusppc.Cpu.Mmu.Tlb.Invalidate.{content, loop-content}
use chungusppc.Cpu.Mmu.Tlb.Tracked.{
  IsTracked, invalidate-tag, schedule-IsTracked, pending-IsTracked,
}
use chungusppc.Cpu.Mmu.Tlb.Fetch.{Translated, done, page_tag, host_offset}
use chungusppc.Cpu.Mmu.Tlb.Coherent.{Walker, Holds, IsCoherent, table_of}

-- The buffers after a change that concerns `sources`, and the next synchronisation
abbrev pub synchronized : Sources → Tlb → Tlb
synchronized sources t = do_ctx_sync (schedule_tlb_invalidation sources t)

-- While sources wait, an action is registered.
abbrev pub IsRegistered : Tlb → Type 0
IsRegistered t = is_some_source t.pending ≡ true → (t.sync_actions == 0) ≡ false

pub invalidated-content :
    (sources : Sources) (t : Tlb) (s : Slot)
    → content ((tlb_invalidate_tracked_entries sources t).entries s) ≡ content (t.entries s)
unfolding tlb_invalidate_tracked_entries
invalidated-content sources t s = loop-content sources t.tracked s t.entries []

pending-entries :
    (t : Tlb)
    → IsTracked t
    → (s : Slot)
    → let e = (invalidate_pending t).entries s in
      (content e ≡ content (t.entries s))
      × (e.tag ≡ (
          if meets (t.entries s).flags.from t.pending then tlb_invalid_tag else (t.entries s).tag))
unfolding invalidate_pending
pending-entries t k s = elim (Bool-cases (is_some_source t.pending)) [
  | inl some' ↦ rw some' (invalidated-content t.pending t s, invalidate-tag t k t.pending s)
  | inr none' ↦ rw none' (refl, ground arith)
]

pending_idle : (t : Tlb) → is_some_source ((invalidate_pending t).pending) ≡ false
unfolding invalidate_pending
pending_idle t = elim (Bool-cases (is_some_source t.pending)) [
  | inl some' ↦ rw some' refl
  | inr none' ↦ rw none' none'
]

spared_lem :
    (b : Bool) (n m : ℕ)
    → n ≡ (if b then tlb_invalid_tag else m)
    → (n == tlb_invalid_tag) ≡ false
    → b ≡ false
spared_lem true n m e valid = ground arith
spared_lem false n m e valid = refl

meets-join : (a b c : Sources) → meets a (join b c) ≡ false → meets a c ≡ false
meets-join a b c h = ground arith

idle_lem : (n : ℕ) (t : Tlb) → is_some_source t.pending ≡ false → run_actions n t ≡ t
unfolding run_actions invalidate_pending
idle_lem zero t idle = refl
idle_lem (suc n) t idle = rw idle (idle_lem n t idle)

run_lem : (n : ℕ) (t : Tlb) → (n == 0) ≡ false → run_actions n t ≡ invalidate_pending t
unfolding run_actions
run_lem zero t h = absurd (cc)
run_lem (suc n) t h = idle_lem n (invalidate_pending t) (pending_idle t)

registered_lem :
    (sources : Sources) (t : Tlb)
    → IsRegistered t
    → ((schedule_tlb_invalidation sources t).sync_actions == 0) ≡ false
unfolding schedule_tlb_invalidation
registered_lem sources t registered = elim (Bool-cases (is_some_source t.pending)) [
  | inl some' ↦ rw some' (registered some')
  | inr none' ↦ rw none' (ground arith)
]

synchronized-eq :
    (sources : Sources) (t : Tlb)
    → IsRegistered t
    → synchronized sources t
      ≡ record (invalidate_pending (schedule_tlb_invalidation sources t)) { sync_actions = 0 }
unfolding do_ctx_sync
synchronized-eq sources t registered =
    let t1 = schedule_tlb_invalidation sources t in
    ap (λ (u : Tlb). record u { sync_actions = 0 })
      (run_lem t1.sync_actions t1 (registered_lem sources t registered))

forget-IsTracked : (t : Tlb) → IsTracked t → IsTracked (record t { sync_actions = 0 })
forget-IsTracked t k = record { listed = k.listed; marked = k.marked }

-- The entries of the sources are invalid, all others keep their tags and contents, and nothing waits.
abbrev pub Flushed : Sources → Tlb → Tlb → Type 0
Flushed sources t u =
    ((s : Slot)
      → let e = u.entries s in
        (content e ≡ content (t.entries s))
        × (e.tag ≡ (
            if meets (t.entries s).flags.from (join t.pending sources)
            then tlb_invalid_tag
            else (t.entries s).tag)))
    × IsTracked u
    × (is_some_source u.pending ≡ false)

-- Where the buffers are tracked and an action is registered while sources wait, the entries whose source
-- is concerned by the change, or by an earlier one that still waited, are invalid after the
-- synchronisation. All others keep their tags, and nothing else changes but the marks; nothing waits
-- any more.
pub synchronized-IsFlushed :
    (sources : Sources) (t : Tlb)
    → IsTracked t
    → IsRegistered t
    → Flushed sources t (synchronized sources t)
unfolding schedule_tlb_invalidation
synchronized-IsFlushed sources t k registered =
    let t1 = schedule_tlb_invalidation sources t in
    let k1 = schedule-IsTracked t k sources in
    subst (Flushed sources t) (sym (synchronized-eq sources t registered)) (
      λ s. pending-entries t1 k1 s,
      forget-IsTracked (invalidate_pending t1) (pending-IsTracked t1 k1),
      pending_idle t1,
    )

module _ {E : Type 0} (w v : Walker E) (sources : Sources) where
  -- The new context differs from the old one in translations of the given sources only.
  pub record DiffersIn : Type 0 where
    pub kept :
        (table va : ℕ) (x : Translated)
        → w.mapping table va ≡ done x
        → meets x.from sources ≡ false
        → v.mapping table va ≡ done x
    pub ranges : (a : ℕ) → v.find_range a ≡ w.find_range a

  carry-Holds :
      DiffersIn
      → (table : ℕ) (e f : TlbEntry) → content f ≡ content e
      → f.tag ≡ e.tag
      → meets e.flags.from sources ≡ false
      → Holds w table e
      → Holds v table f
  carry-Holds d table e f same tag other k =
      let page = ap page_tag tag in
      let from = ap (λ (g : TlbEntry). g.flags.from) same in
      let spared : meets k.x.from sources ≡ false =
        ap (λ a. meets a sources) (sym k.source) ∙ other in
      record {
        x = k.x;
        rgn = k.rgn;
        mapped = ap (v.mapping table) page ∙ d.kept table _ k.x k.mapped spared;
        found = d.ranges _ ∙ k.found;
        source = from ∙ k.source;
        memory = k.memory;
        phys = ap (λ (g : TlbEntry). g.phys_tag) same ∙ k.phys;
        host =
            ap (λ (g : TlbEntry). g.host_va_offs_r) same
            ∙ k.host
            ∙ ap (λ a. host_offset k.rgn a k.x.phys_addr) (sym page);
      }

  -- Where buffers are tracked and hold what the old context says, and an action is registered while
  -- sources wait, they hold what the new context says after `do_ctx_sync`, if the two differ only in
  -- translations of the sources that were scheduled. They are tracked again, and nothing waits.
  pub synchronized-IsCoherent :
      (t : Tlb)
      → DiffersIn
      → IsTracked t
      → IsRegistered t
      → IsCoherent w t
      → IsTracked (synchronized sources t)
        × IsRegistered (synchronized sources t)
        × IsCoherent v (synchronized sources t)
  synchronized-IsCoherent t d k registered c =
      let flushed = synchronized-IsFlushed sources t k registered in
      (
        flushed.1,
        λ waits. absurd (cc (flushed.2, waits)),
        record {
          holds = λ s valid.
              let e = t.entries s in
              let r = flushed.0 s in
              let gone : meets e.flags.from (join t.pending sources) ≡ false =
                spared_lem _ _ _ r.1 valid in
              let tag = r.1 ∙ ap (λ b. if b then tlb_invalid_tag else e.tag) gone in
              carry-Holds d (table_of s) e _ r.0 tag
                (meets-join e.flags.from t.pending sources gone)
                (c.holds s (ap (λ n. n == tlb_invalid_tag) (sym tag) ∙ valid));
        },
      )
