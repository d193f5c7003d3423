-- ===== src/Cpu/Mmu/Bat/Laws.antt =====
-- The two block address translations of cpu/ppc/ppcmmu.cpp, as the architecture describes them.
use chungusppc.Common.{
  ℕ, ◌-◌, ◌%◌, ◌^◌, ◌<◌, ◌==◌, ltb, ◌&&◌, ◌||◌, Bool, true, false, if◌then◌else◌, ◌≡◌, refl, ap,
  sym, ◌∙◌, arith, ◌↔◌, ◌⊎◌, inl, inr, bit, bit_and, bit_or, not32, truth, ◌<<<◌, ◌>>>◌, to_nat,
}
use mathlib.Core.Path.{subst}
use chungusppc.Common.Bits.{bit-bit_and, bit-lt}
use chungusppc.Common.Bits.Shifts.{bit-shr, bit-mask}
use chungusppc.Common.Bits.Bounds.{bit_and-lt_right}
use chungusppc.Common.Bits.Merge.{bit_and-mask}
use chungusppc.Cpu.State.{State}
use chungusppc.Cpu.Machine.EntryMsr.{truth-bit_and}
use chungusppc.Cpu.Mmu.Bat.{
  PpcBatEntry, BatResult, bat_search, block_mask, ppc_entry, ppc_block_address_translation,
  user_mode,
}
use chungusppc.Cpu.Mmu.Bat.Search.{Searched, bat_search_lem}
use chungusppc.Cpu.Mmu.Bat.Blocks.{block_mask-bit, mask_iff, block_bit}

-- The address bits that a block leaves open: `free`. All others are those of the upper register.
abbrev pub Covers : (ℕ → Bool) → ℕ → ℕ → Type 0
Covers free upper la = (i : ℕ) → i < 32 → free i ≡ false → bit la i ≡ bit upper i

-- The physical address takes the open bits from the logical one, and the others from the lower register.
abbrev pub IsPhys : (ℕ → Bool) → ℕ → ℕ → ℕ → Type 0
IsPhys free lower la phys =
    (i : ℕ) → i < 32 → bit phys i ≡ (if free i then bit la i else bit lower i)

-- A result that comes from the first of four blocks that matches, or a miss if none does
abbrev pub FirstBlock : (ℕ → Type 0) → (ℕ → BatResult → Type 0) → BatResult → Type 0
FirstBlock Matches Gives r =
    ((k : ℕ) × (k < 4) × Matches k × ((j : ℕ) → j < k → ¬ Matches j) × (r.hit ≡ true) × Gives k r)
    ⊎ (((j : ℕ) → j < 4 → ¬ Matches j) × (r.hit ≡ false))

pub first_block :
    (test : ℕ → Bool) (result : ℕ → BatResult) (Matches : ℕ → Type 0)
    (Gives : ℕ → BatResult → Type 0)
    → ((k : ℕ) → (test k ≡ true) ↔ Matches k)
    → ((k : ℕ) → (result k).hit ≡ true)
    → ((k : ℕ) → test k ≡ true → Gives k (result k))
    → FirstBlock Matches Gives (bat_search test result 4 0)
first_block test result Matches Gives decides hits gives = found (bat_search_lem test result 4 0)
  where
    refuse : (j : ℕ) → test j ≡ false → ¬ Matches j
    refuse j off m = cc ((decides j).1 m)

    found :
        Searched test result 4 0 (bat_search test result 4 0)
        → FirstBlock Matches Gives (bat_search test result 4 0)
    found (inl (k, lt, (le, on, before), e)) = inl (
      k,
      lt,
      (decides k).0 on,
      λ j h. refuse j (before j (omega arith) h),
      ap (λ (r : BatResult). r.hit) e ∙ hits k,
      subst (Gives k) (sym e) (gives k on),
    )
    found (inr (all, e)) =
        inr (λ j h. refuse j (all j (omega arith) h), ap (λ (r : BatResult). r.hit) e)

-- A block of the 601 leaves open the 17 low bits, and those of its size mask.
abbrev pub open_601 : ℕ → ℕ → Bool
open_601 lower i = ltb i 17 || (ltb i 23 && bit lower (i - 17) == 1)

-- Other processors have the mask of the length in bits 2 to 12 of the upper register.
abbrev pub open_ppc : ℕ → ℕ → Bool
open_ppc upper i = ltb i 17 || (ltb i 28 && bit upper (i - 15) == 1)

pub open_601-mask :
    (lower i : ℕ)
    → i < 32
    → bit (block_mask (bit_and lower 0x3f)) i ≡ (if open_601 lower i then 0 else 1)
open_601-mask lower i h = ground (
  arith,
  block_mask-bit (bit_and lower 0x3f) i (omega (arith, bit_and-lt_right 6 lower 0x3f)) h,
  bit-bit_and (i - 17) lower 0x3f,
  bit-mask 6 (i - 17),
  bit-lt lower (i - 17),
)

open_ppc-mask :
    (upper i : ℕ)
    → i < 32
    → bit (block_mask (bit_and (upper >>> 2) 0x7ff)) i ≡ (if open_ppc upper i then 0 else 1)
open_ppc-mask upper i h = ground (
  arith,
  block_mask-bit (bit_and (upper >>> 2) 0x7ff) i
      (omega (arith, bit_and-lt_right 11 (upper >>> 2) 0x7ff)) h,
  bit-bit_and (i - 17) (upper >>> 2) 0x7ff,
  bit-shr upper 2 (i - 17),
  bit-mask 11 (i - 17),
  bit-lt upper (i - 15),
)

-- The block that the two registers describe, in user or supervisor mode, holds the address.
abbrev pub MatchesPpc : Bool → ℕ → ℕ → Type 0
MatchesPpc user upper la =
    (bit upper (if user then 0 else 1) ≡ 1) × Covers (open_ppc upper) upper la

abbrev pub GivesPpc : ℕ → ℕ → ℕ → BatResult → Type 0
GivesPpc upper lower la r = (r.prot ≡ lower % 4) × IsPhys (open_ppc upper) lower la r.phys

abbrev pub is_user : State → Bool
is_user s = bit s.msr 14 == 1

pub user_mode_lem : (s : State) → user_mode s ≡ to_nat (is_user s)
user_mode_lem s = ap to_nat (truth-bit_and 14 s.msr)

access_test :
    (user : Bool) (upper : ℕ)
    → truth (bit_and (bit_and upper 3) (bit_or ((1 - to_nat user) <<< 1) (to_nat user)))
      ≡ (bit upper (if user then 0 else 1) == 1)
access_test true upper =
    truth-bit_and 0 (bit_and upper 3) ∙ ground (arith, bit-bit_and 0 upper 3, bit-lt upper 0)
access_test false upper =
    truth-bit_and 1 (bit_and upper 3) ∙ ground (arith, bit-bit_and 1 upper 3, bit-lt upper 1)

pub and_iff :
    {A B : Type 0} (a b : Bool) → (a ≡ true) ↔ A → (b ≡ true) ↔ B → ((a && b) ≡ true) ↔ (A × B)
and_iff true b f g = (λ h. (f.0 refl, g.0 h), λ p. g.1 p.1)
and_iff false b f g = (λ h. absurd (cc), λ p. f.1 p.0)

pub block_iff :
    (free : ℕ → Bool) (m : ℕ)
    → m < 2 ^ 32
    → ((i : ℕ) → i < 32 → bit m i ≡ (if free i then 0 else 1))
    → (upper la : ℕ) → ((bit_and la m == bit_and upper m) ≡ true) ↔ Covers free upper la
block_iff free m lt e upper la = (
  λ same i h off. (mask_iff m lt la upper).0 same i h (ground (arith, e i h)),
  λ covers. (mask_iff m lt la upper).1 (λ i h one. covers i h (ground (arith, e i h))),
)

pub block_phys_lem :
    (free : ℕ → Bool) (m : ℕ)
    → m < 2 ^ 32
    → ((i : ℕ) → i < 32 → bit m i ≡ (if free i then 0 else 1))
    → (lower la : ℕ) → IsPhys free lower la (bit_or (bit_and lower m) (bit_and la (not32 m)))
block_phys_lem free m lt e lower la i h = ground (arith, block_bit m lt lower la i h, e i h)

-- With the entries that four pairs of registers describe, the translation gives the first block that is
-- valid in the mode of the processor and covers the address, with its protection and the physical
-- address of its open bits; and a miss where there is none.
pub ppc_block_address_translation-FirstBlock :
    (s : State) (upper lower : ℕ → ℕ) (old : ℕ → PpcBatEntry) (la : ℕ)
    → FirstBlock
        (λ k. MatchesPpc (is_user s) (upper k) la)
        (λ k r. GivesPpc (upper k) (lower k) la r)
        (ppc_block_address_translation s (λ k. ppc_entry (upper k) (lower k) (old k)) la)
unfolding ppc_block_address_translation ppc_entry
ppc_block_address_translation-FirstBlock s upper lower old la =
    first_block _ _ (λ k. MatchesPpc (is_user s) (upper k) la)
      (λ k r. GivesPpc (upper k) (lower k) la r)
      (λ k.
        let test : truth
              (bit_and (bit_and (upper k) 3) (bit_or ((1 - user_mode s) <<< 1) (user_mode s)))
            ≡ (bit (upper k) (if is_user s then 0 else 1) == 1) =
          rw (user_mode_lem s) (access_test (is_user s) (upper k)) in
        and_iff _ _ (ground (arith, test)) (
          block_iff (open_ppc (upper k)) (mask k) (omega arith) (open_ppc-mask (upper k)) (upper k)
            la))
      (λ k. refl)
      λ k on. (
        bit_and-mask 2 (lower k),
        block_phys_lem (open_ppc (upper k)) (mask k) (omega arith) (open_ppc-mask (upper k))
            (lower k) la,
      )
  where
    mask : ℕ → ℕ
    mask k = block_mask (bit_and (upper k >>> 2) 0x7ff)
