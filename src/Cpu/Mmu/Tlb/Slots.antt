-- ===== src/Cpu/Mmu/Tlb/Slots.antt =====
-- Slots of the lookaside buffers of cpu/ppc/ppcmmu.cpp: their equality, and lists of them.
use chungusppc.Common.{
  ℕ, ◌||◌, Bool, true, false, ◌≡◌, refl, arith, List, [], ◌∷◌, ◌++◌, Option, none, some,
}
use chungusppc.Cpu.Mmu.Tlb.{
  TlbEntry, Tlb, Slot, primary, secondary, same_slot, tlb2_touch_way, tlb2_target_entry,
  lookup_secondary_tlb, matching_way, tlb_index, touch_match,
}

abbrev pub contains : List Slot → Slot → Bool
contains [] s = false
contains (at ∷ rest) s = same_slot s at || contains rest s

pub same_slot_refl : (s : Slot) → same_slot s s ≡ true
same_slot_refl (primary t i) = ground arith
same_slot_refl (secondary t i w) = ground arith

pub same_slot_eq : (s u : Slot) → same_slot s u ≡ true → s ≡ u
same_slot_eq (primary t i) (primary u j) h = ground arith
same_slot_eq (secondary t i v) (secondary u j w) h = ground arith
same_slot_eq (primary t i) (secondary u j w) h = cc
same_slot_eq (secondary t i v) (primary u j) h = cc

pub contains-append :
    (l m : List Slot) (s : Slot) → contains (l ++ m) s ≡ (contains l s || contains m s)
contains-append [] m s = refl
contains-append (at ∷ l) m s = ground (arith, contains-append l m s)

-- The entry without its recency bits
abbrev pub ageless : TlbEntry → TlbEntry
ageless e = record e { lru_bits = 0 }

pub touch-ageless :
    (way table i : ℕ) (t : Tlb) (s : Slot)
    → ageless ((tlb2_touch_way way table i t).entries s) ≡ ageless (t.entries s)
unfolding tlb2_touch_way
touch-ageless way table i t (primary u j) = refl
touch-ageless way table i t (secondary u j w) = ground arith

-- Two buffers that differ in recency only
pub record SameButAge (t u : Tlb) : Type 0 where
  pub age : (s : Slot) → ageless (u.entries s) ≡ ageless (t.entries s)
  pub tracked : u.tracked ≡ t.tracked
  pub pending : u.pending ≡ t.pending

pub touch-SameButAge : (way table i : ℕ) (t : Tlb) → SameButAge t (tlb2_touch_way way table i t)
unfolding tlb2_touch_way
touch-SameButAge way table i t = record {
  age = touch-ageless way table i t;
  tracked = refl;
  pending = refl;
}

pub target-SameButAge : (table va : ℕ) (t : Tlb) → SameButAge t (tlb2_target_entry table va t).1
unfolding tlb2_target_entry
target-SameButAge table va t = touch-SameButAge _ _ _ t

pub matching_way-tag :
    (table i tag w : ℕ) (t : Tlb)
    → matching_way table i tag t ≡ some w
    → (t.entries (secondary table i w)).tag ≡ tag
unfolding matching_way
matching_way-tag table i tag w t h = ground arith

-- What a lookup in the secondary buffer gives: nothing, or a way that holds the tag, used just now
pub data Found (table i tag : ℕ) (t : Tlb) : Option Slot × Tlb → Type 0 where
  miss : Found table i tag t (none, t)
  hit :
      (w : ℕ)
      → (t.entries (secondary table i w)).tag ≡ tag
      → Found table i tag t (some (secondary table i w), tlb2_touch_way w table i t)

touch_match-Found :
    (table i tag : ℕ) (t : Tlb) (o : Option ℕ)
    → matching_way table i tag t ≡ o
    → Found table i tag t (touch_match table i o t)
unfolding touch_match
touch_match-Found table i tag t none h = miss
touch_match-Found table i tag t (some w) h = hit w (matching_way-tag table i tag w t h)

pub lookup-Found :
    (table va tag : ℕ) (t : Tlb)
    → Found table (tlb_index va) tag t (lookup_secondary_tlb table va tag t)
unfolding lookup_secondary_tlb
lookup-Found table va tag t =
    touch_match-Found table (tlb_index va) tag t (matching_way table (tlb_index va) tag t) refl
