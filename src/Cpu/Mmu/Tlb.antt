-- ===== src/Cpu/Mmu/Tlb.antt =====
-- The software translation lookaside buffers of cpu/ppc/ppcmmu.cpp. The arrays of one `TLBType` are
-- one function from slots to entries: a slot has the number of the array (1 to 3, for `mode1` to
-- `mode3`), the index, and in a secondary buffer the way. The bits of `flags` are Booleans; of the union
-- only the side is kept that PAGE_MEM or PAGE_IO selects.
pub mod Fetch
pub mod Slots
pub mod Invalidate
pub mod Tracked
pub mod Coherent
pub mod Refine
pub mod Change
pub mod Recency
use chungusppc.Common.{
  ℕ, zero, suc, ◌+◌, ◌-◌, ◌*◌, ◌/◌, ◌%◌, ◌^◌, ◌==◌, ltb, not, ◌&&◌, ◌||◌, Bool, true, false,
  if◌then◌else◌, bit_and, Option, none, some, List, [], ◌∷◌, ◌++◌, ◌>>>◌,
}

-- The sources of an entry, TLBE_FROM_BAT and TLBE_FROM_PAT, as a mask
pub record Sources : Type 0 where
  pub bat : Bool
  pub pat : Bool

pub record TlbFlags : Type 0 where
  pub page_mem : Bool
  pub page_io : Bool
  pub page_nophys : Bool
  pub from : Sources
  pub page_writable : Bool
  pub pte_set_c : Bool
  pub tlbe_ctx_tracked : Bool

pub record TlbEntry : Type 0 where
  pub tag : ℕ
  pub flags : TlbFlags
  pub lru_bits : ℕ
  pub host_va_offs_r : ℕ
  pub host_va_offs_w : ℕ
  pub rgn_desc : ℕ
  pub dev_base_va : ℕ
  pub phys_tag : ℕ

pub data Slot : Type 0 where
  primary : ℕ → ℕ → Slot
  secondary : ℕ → ℕ → ℕ → Slot

-- `tracked` is `gTrackedIEntries` or `gTrackedDEntries`, `pending` the pending sources, and
-- `sync_actions` counts the invalidations that wait for the next context synchronisation.
pub record Tlb : Type 0 where
  pub entries : Slot → TlbEntry
  pub tracked : List Slot
  pub pending : Sources
  pub sync_actions : ℕ

abbrev pub tlb_invalid_tag : ℕ
tlb_invalid_tag = 0xffff_ffff

abbrev pub no_source : Sources
no_source = record { bat = false; pat = false }

abbrev pub any_source : Sources
any_source = record { bat = true; pat = true }

abbrev pub pat_source : Sources
pat_source = record { bat = false; pat = true }

abbrev pub is_some_source : Sources → Bool
is_some_source a = a.bat || a.pat

-- a & b, as a condition
abbrev pub meets : Sources → Sources → Bool
meets a b = (a.bat && b.bat) || (a.pat && b.pat)

-- a | b
abbrev pub join : Sources → Sources → Sources
join a b = record { bat = a.bat || b.bat; pat = a.pat || b.pat }

-- Equality of pointers to entries
abbrev pub same_slot : Slot → Slot → Bool
same_slot (primary t i) (primary u j) = t == u && i == j
same_slot (secondary t i v) (secondary u j w) = t == u && i == j && v == w
same_slot (primary t i) (secondary u j w) = false
same_slot (secondary t i v) (primary u j) = false

abbrev pub write : Slot → TlbEntry → (Slot → TlbEntry) → Slot → TlbEntry
write at e entries s = if same_slot s at then e else entries s

abbrev pub set_tracked : Bool → TlbEntry → TlbEntry
set_tracked b e = record e { flags = record e.flags { tlbe_ctx_tracked = b } }

unfoldable pub track_translated_entry : Slot → Tlb → Tlb
track_translated_entry at t =
    let e = t.entries at in
    if not (is_some_source e.flags.from) || e.flags.tlbe_ctx_tracked then t else record t {
      entries = write at (set_tracked true e) t.entries;
      tracked = t.tracked ++ at ∷ [];
    }

-- The body of the loop over the tracked entries; `retained` are those before `retained_count`.
unfoldable pub invalidate_entry :
    Sources → Slot → (Slot → TlbEntry) × List Slot → (Slot → TlbEntry) × List Slot
invalidate_entry sources at (entries, retained) =
    let e = entries at in
    if meets e.flags.from sources
    then (write at (set_tracked false (record e { tag = tlb_invalid_tag })) entries, retained)
    else if is_some_source e.flags.from
    then (entries, retained ++ at ∷ [])
    else (write at (set_tracked false e) entries, retained)

unfoldable pub invalidate_loop :
    Sources → List Slot → (Slot → TlbEntry) × List Slot → (Slot → TlbEntry) × List Slot
invalidate_loop sources [] r = r
invalidate_loop sources (at ∷ rest) r = invalidate_loop sources rest (invalidate_entry sources at r)

unfoldable pub tlb_invalidate_tracked_entries : Sources → Tlb → Tlb
tlb_invalidate_tracked_entries sources t =
    let r = invalidate_loop sources t.tracked (t.entries, []) in
    record t { entries = r.0; tracked = r.1 }

-- The action that runs at a context synchronisation
unfoldable pub invalidate_pending : Tlb → Tlb
invalidate_pending t =
    if not (is_some_source t.pending)
    then t
    else record (tlb_invalidate_tracked_entries t.pending t) { pending = no_source }

unfoldable pub schedule_tlb_invalidation : Sources → Tlb → Tlb
schedule_tlb_invalidation sources_to_invalidate t = record t {
  sync_actions = if is_some_source t.pending then t.sync_actions else t.sync_actions + 1;
  pending = join t.pending sources_to_invalidate;
}

-- `do_ctx_sync`, of the actions that one kind of buffers has registered
unfoldable pub run_actions : ℕ → Tlb → Tlb
unfolding invalidate_pending
run_actions zero t = t
run_actions (suc n) t = run_actions n (invalidate_pending t)

unfoldable pub do_ctx_sync : Tlb → Tlb
unfolding run_actions
do_ctx_sync t = record (run_actions t.sync_actions t) { sync_actions = 0 }

-- The slots of the index of `ea` in the arrays of the two translated modes
covers : ℕ → Slot → Bool
covers i (primary u j) = (u == 2 || u == 3) && j == i
covers i (secondary u j w) = (u == 2 || u == 3) && j == i && ltb w 4

unfoldable pub tlb_flush_pat_page : ℕ → Tlb → Tlb
unfolding covers
tlb_flush_pat_page ea t = record t {
  entries = λ s.
      let e = t.entries s in
      if covers ((ea >>> 12) % 4096) s && e.tag == ea / 2 ^ 12 * 2 ^ 12 && e.flags.from.pat
      then record e { tag = tlb_invalid_tag }
      else e;
}

-- `tlb_flush_all_pat`, of one of the two kinds of buffers
unfoldable pub tlb_flush_all_pat : Tlb → Tlb
tlb_flush_all_pat t = tlb_invalidate_tracked_entries pat_source t

unfoldable pub promote_tlb_entry : Slot → TlbEntry → Tlb → Tlb
promote_tlb_entry at e t = track_translated_entry at (record t {
  entries = write at (set_tracked ((t.entries at).flags.tlbe_ctx_tracked) e) t.entries;
})

-- The recency bits of way `w` after way `way` was used
unfoldable pub touched_bits : ℕ → ℕ → ℕ → ℕ
touched_bits way w lru_bits =
    if ltb way 2
    then if ltb w 2 then if way == w then 3 else 2 else bit_and lru_bits 1
    else if ltb w 2
    then bit_and lru_bits 1
    else if way == w
    then 3
    else 2

touch_slot : ℕ → ℕ → ℕ → (Slot → TlbEntry) → Slot → TlbEntry
unfolding touched_bits
touch_slot way table i entries (primary u j) = entries (primary u j)
touch_slot way table i entries (secondary u j w) =
    let e = entries (secondary u j w) in
    if u == table && j == i && ltb w 4
    then record e { lru_bits = touched_bits way w e.lru_bits }
    else e

unfoldable pub tlb2_touch_way : ℕ → ℕ → ℕ → Tlb → Tlb
unfolding touch_slot
tlb2_touch_way way table i t = record t { entries = touch_slot way table i t.entries }

abbrev pub tlb_index : ℕ → ℕ
tlb_index va = (va >>> 12) % 4096

-- The way that is filled next: the first invalid one, or else the first one that was used least
-- recently
unfoldable pub target_way : ℕ → ℕ → Tlb → ℕ
target_way table i t =
    let e = λ (w : ℕ). t.entries (secondary table i w) in
    if (e 0).tag == tlb_invalid_tag
    then 0
    else if (e 1).tag == tlb_invalid_tag
    then 1
    else if (e 2).tag == tlb_invalid_tag
    then 2
    else if (e 3).tag == tlb_invalid_tag
    then 3
    else if (e 0).lru_bits == 0
    then 0
    else if (e 1).lru_bits == 0
    then 1
    else if (e 2).lru_bits == 0
    then 2
    else 3

unfoldable pub tlb2_target_entry : ℕ → ℕ → Tlb → Slot × Tlb
tlb2_target_entry table gp_va t =
    let i = tlb_index gp_va in
    let way = target_way table i t in (secondary table i way, tlb2_touch_way way table i t)

-- The way of a set that holds a tag
unfoldable pub matching_way : ℕ → ℕ → ℕ → Tlb → Option ℕ
matching_way table i tag t =
    let e = λ (w : ℕ). t.entries (secondary table i w) in
    if (e 0).tag == tag
    then some 0
    else if (e 1).tag == tag
    then some 1
    else if (e 2).tag == tag
    then some 2
    else if (e 3).tag == tag
    then some 3
    else none

unfoldable pub touch_match : ℕ → ℕ → Option ℕ → Tlb → Option Slot × Tlb
unfolding tlb2_touch_way
touch_match table i none t = (none, t)
touch_match table i (some w) t = (some (secondary table i w), tlb2_touch_way w table i t)

unfoldable pub lookup_secondary_tlb : ℕ → ℕ → ℕ → Tlb → Option Slot × Tlb
unfolding touch_match
lookup_secondary_tlb table guest_va tag t =
    let i = tlb_index guest_va in touch_match table i (matching_way table i tag t) t
