-- ===== src/Cpu/Mmu/Tlb603/Pages.antt =====
-- The comparison of effective pages by the 603 (cpu/ppc/ppcmmu.cpp).
use chungusppc.Common.{
  ℕ, ◌+◌, ◌-◌, ◌/◌, ◌%◌, ◌^◌, ◌<◌, ◌==◌, ltb, leb, ◌&&◌, true, ◌≡◌, refl, ap, sym, ◌∙◌, arith, ◌↔◌,
  bit, bit_and, bit_xor, to_nat, min, Bool-cases, inl, inr, ==_iff, all_below, all_below_sound,
}
use native.Mathlib.Nat.{zero-div}
use chungusppc.Common.Bits.{bit-bit_and, bit-bit_xor, bit-lt}
use chungusppc.Common.Bits.Shifts.{bit-shr, bit-mod}
use chungusppc.Common.Bits.Bounds.{bit_and-lt_right, bit_ext}

-- The number of the page in its segment
abbrev pub page_index : ℕ → ℕ
page_index la = la / 2 ^ 12 % 2 ^ 16

page_mask : all_below 32 (λ i. bit 0x0fff_f000 i == to_nat (leb 12 i && ltb i 28)) ≡ true
unfolding all_below
page_mask = refl

page_mask-bit : (i : ℕ) → i < 32 → bit 0x0fff_f000 i ≡ to_nat (leb 12 i && ltb i 28)
page_mask-bit i h =
    (==_iff _ _).0
      (all_below_sound 32 (λ i. bit 0x0fff_f000 i == to_nat (leb 12 i && ltb i 28)) i page_mask h)

index-bit : (a i : ℕ) → i < 16 → bit (page_index a) i ≡ bit a (12 + i)
index-bit a i h = ground (arith, bit-mod 16 (a / 2 ^ 12) i, bit-shr a 12 i)

zero-bit : (i : ℕ) → bit 0 i ≡ 0
zero-bit i = ap (λ n. n % 2) (zero-div (2 ^ i))

common_bits :
    (a b i : ℕ)
    → page_index a ≡ page_index b
    → min (bit (bit_xor a b) i) (to_nat (leb 12 i && ltb i 28)) ≡ 0
common_bits a b i same = elim (Bool-cases (leb 12 i && ltb i 28)) [
  | inl within ↦
      let back : 12 + (i - 12) ≡ i = ground (arith, within) in
      let j = ap (λ n. bit n (i - 12)) same in
      let equal : bit a i ≡ bit b i =
        ap (bit a) (sym back)
        ∙ sym (index-bit a (i - 12) (ground (arith, within)))
        ∙ j
        ∙ index-bit b (i - 12) (ground (arith, within))
        ∙ ap (bit b) back in
      ground (arith, equal, bit-bit_xor i a b, bit-lt a i)
  | inr without ↦ rw without (ground arith)
]

pub same_page_iff :
    (a b : ℕ) → ((bit_and (bit_xor a b) 0x0fff_f000 == 0) ≡ true) ↔ (page_index a ≡ page_index b)
same_page_iff a b = (
  λ same. bit_ext 16 _ _ (omega arith) (omega arith) λ i h.
      let zero' = ap (λ n. bit n (12 + i)) ((==_iff _ _).0 same) in
      let none' : bit 0 (12 + i) ≡ 0 = zero-bit (12 + i) in
      ground (
        arith,
        zero',
        none',
        index-bit a i h,
        index-bit b i h,
        bit-bit_and (12 + i) (bit_xor a b) 0x0fff_f000,
        bit-bit_xor (12 + i) a b,
        page_mask-bit (12 + i),
        bit-lt a (12 + i),
        bit-lt b (12 + i),
      ),
  λ same.
      let agree : (i : ℕ) → min (bit (bit_xor a b) i) (to_nat (leb 12 i && ltb i 28)) ≡ 0 =
        λ i. common_bits a b i same in
      (==_iff _ _).1 (
        bit_ext 32 _ 0 (bit_and-lt_right 32 _ 0x0fff_f000 (omega arith)) (omega arith) λ i h.
          bit-bit_and i (bit_xor a b) 0x0fff_f000
          ∙ ap (λ n. min (bit (bit_xor a b) i) n) (page_mask-bit i h)
          ∙ agree i
          ∙ sym (zero-bit i)),
)
