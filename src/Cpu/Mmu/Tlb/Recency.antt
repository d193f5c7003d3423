-- ===== src/Cpu/Mmu/Tlb/Recency.antt =====
-- Which way of a secondary buffer cpu/ppc/ppcmmu.cpp replaces.
use chungusppc.Common.{
  ℕ, ◌+◌, ◌%◌, ◌==◌, ltb, not, ◌&&◌, true, false, if◌then◌else◌, ◌≡◌, ◌≤◌, ◌<◌, refl, ap, ◌∙◌,
  arith, bit_and, inl, inr, Bool-cases,
}
use chungusppc.Common.Bits.Merge.{bit_and-mask}
use chungusppc.Cpu.Mmu.Tlb.Slots.{touch-ageless}
use chungusppc.Cpu.Mmu.Tlb.{
  TlbEntry, Tlb, secondary, tlb_invalid_tag, touched_bits, tlb2_touch_way, target_way,
}

abbrev pub lru : Tlb → ℕ → ℕ → ℕ → ℕ
lru t table i w = (t.entries (secondary table i w)).lru_bits

-- In each pair of ways, one at least was not the last one used of the pair.
abbrev pub IsAged : Tlb → Type 0
IsAged t =
    (table i : ℕ)
    → (lru t table i 0 % 2 + lru t table i 1 % 2 ≤ 1)
      × (lru t table i 2 % 2 + lru t table i 3 % 2 ≤ 1)

low_bit : (n : ℕ) → bit_and n 1 ≡ n % 2
low_bit n = bit_and-mask 1 n

lru-touch :
    (way table i table' i' w : ℕ) (t : Tlb)
    → w < 4
    → lru (tlb2_touch_way way table i t) table' i' w ≡ (
        if table' == table && i' == i
        then touched_bits way w (lru t table' i' w)
        else lru t table' i' w)
unfolding tlb2_touch_way
lru-touch way table i table' i' w t h = ground arith

module _ (way : ℕ) (h : way < 4) (l0 l1 l2 l3 : ℕ) where
  pairs_lem :
      (l0 % 2 + l1 % 2 ≤ 1)
      → (l2 % 2 + l3 % 2 ≤ 1)
      → (touched_bits way 0 l0 % 2 + touched_bits way 1 l1 % 2 ≤ 1)
        × (touched_bits way 2 l2 % 2 + touched_bits way 3 l3 % 2 ≤ 1)
  unfolding touched_bits
  pairs_lem p q = ground (arith, low_bit l0, low_bit l1, low_bit l2, low_bit l3)

touch-IsAged :
    (way table i : ℕ) (t : Tlb) → way < 4 → IsAged t → IsAged (tlb2_touch_way way table i t)
touch-IsAged way table i t h aged table' i' =
    let l = lru t table' i' in
    let a = λ (w : ℕ) (hw : w < 4). lru-touch way table i table' i' w t hw in
    let p = pairs_lem way h (l 0) (l 1) (l 2) (l 3) (aged table' i').0 (aged table' i').1 in
    rw (a 0 (omega arith), a 1 (omega arith), a 2 (omega arith), a 3 (omega arith))
      (elim (Bool-cases (table' == table && i' == i)) [
        | inl here ↦ rw here p
        | inr other ↦ rw other (aged table' i')
      ])

abbrev pub IsFull : Tlb → ℕ → ℕ → Type 0
IsFull t table i =
    (w : ℕ) → w < 4 → ((t.entries (secondary table i w)).tag == tlb_invalid_tag) ≡ false

victim_by : ℕ → ℕ → ℕ → ℕ
victim_by b0 b1 b2 = if b0 == 0 then 0 else if b1 == 0 then 1 else if b2 == 0 then 2 else 3

target_way-full :
    (table i : ℕ) (t : Tlb)
    → IsFull t table i
    → target_way table i t ≡ victim_by (lru t table i 0) (lru t table i 1) (lru t table i 2)
unfolding target_way victim_by
target_way-full table i t full =
    rw (full 0 (omega arith), full 1 (omega arith), full 2 (omega arith), full 3 (omega arith)) refl

victim_other :
    (way l0 l1 l2 : ℕ)
    → way < 4
    → l0 % 2 + l1 % 2 ≤ 1
    → ltb (victim_by (touched_bits way 0 l0) (touched_bits way 1 l1) (touched_bits way 2 l2)) 2
      ≡ not (ltb way 2)
unfolding victim_by touched_bits
victim_other way l0 l1 l2 h p = ground (arith, low_bit l0, low_bit l1, low_bit l2)

touch-IsFull :
    (way table i : ℕ) (t : Tlb) → IsFull t table i → IsFull (tlb2_touch_way way table i t) table i
touch-IsFull way table i t full w h =
    let tag =
      ap (λ (e : TlbEntry). e.tag == tlb_invalid_tag)
        (touch-ageless way table i t (secondary table i w)) in
    tag ∙ full w h

-- After the use of one of the four ways of a set, of two pairs that each hold one at most that was used
-- last of its pair, the pairs are so again; and if the set is full, the way that is replaced next is one
-- of the pair that was not used.
pub touch-victim :
    (way table i : ℕ) (t : Tlb)
    → way < 4
    → IsAged t
    → IsFull t table i
    → let u = tlb2_touch_way way table i t in
      IsAged u × (ltb (target_way table i u) 2 ≡ not (ltb way 2))
touch-victim way table i t h aged full =
    let u = tlb2_touch_way way table i t in
    let l = lru t table i in
    let bits = λ (w : ℕ) (hw : w < 4). lru-touch way table i table i w t hw in
    let here : (table == table && i == i) ≡ true = ground arith in
    let victim = target_way-full table i u (touch-IsFull way table i t full) in
    (
      touch-IsAged way table i t h aged,
      rw (victim, bits 0 (omega arith), bits 1 (omega arith), bits 2 (omega arith), here)
          (victim_other way (l 0) (l 1) (l 2) h (aged table i).0),
    )
