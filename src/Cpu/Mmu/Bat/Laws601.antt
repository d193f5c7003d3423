-- ===== src/Cpu/Mmu/Bat/Laws601.antt =====
-- The block address translation of the 601 (cpu/ppc/ppcmmu.cpp), as its architecture describes it.
use chungusppc.Common.{
  ℕ, ◌+◌, ◌*◌, ◌/◌, ◌%◌, ◌^◌, ◌≤◌, ◌<◌, ◌==◌, not, ◌&&◌, ◌||◌, Bool, true, false, if◌then◌else◌,
  ◌≡◌, refl, ap, sym, ◌∙◌, arith, bit, bit_and, bit_or, truth, ◌<<<◌, ◌>>>◌, ==_iff, to_nat,
  all_below, all_below_sound, Bool-cases, inl, inr,
}
use mathlib.Core.Path.{ap₂, subst}
use chungusppc.Common.Bits.Merge.{bit_and-mask}
use chungusppc.Common.Bits.Halves.{bit_or-join}
use chungusppc.Cpu.State.{State}
use chungusppc.Cpu.Machine.EntryMsr.{truth-bit_and}
use chungusppc.Cpu.Mmu.Bat.{
  PpcBatEntry, BatResult, ppc_entry, ppc_block_address_translation, block_mask, mpc601_entry,
  invalidate, access_conv, bat_key, mpc601_block_address_translation, user_mode, in_block,
  block_phys,
}
use chungusppc.Cpu.Mmu.Bat.Laws.{
  Covers, IsPhys, FirstBlock, first_block, open_601, open_601-mask, is_user, user_mode_lem, and_iff,
  block_iff, block_phys_lem, MatchesPpc, GivesPpc, ppc_block_address_translation-FirstBlock,
}

-- The entry that a pair of registers leaves in the arrays: bit 6 of the lower one makes it valid.
abbrev pub entry_601 : ℕ → ℕ → PpcBatEntry → PpcBatEntry
entry_601 upper lower old =
    if truth (bit_and lower 0x40) then mpc601_entry upper lower else invalidate old

abbrev pub Matches601 : ℕ → ℕ → ℕ → Type 0
Matches601 upper lower la = (bit lower 6 ≡ 1) × Covers (open_601 lower) upper la

-- The key of the mode, Ku or Ks of the upper register
abbrev pub key_601 : Bool → ℕ → Bool
key_601 user upper = bit upper (if user then 2 else 3) == 1

-- The protection 0 refuses all accesses, 1 those that write, and 2 none.
abbrev pub Gives601 : Bool → ℕ → ℕ → ℕ → BatResult → Type 0
Gives601 user upper lower la r =
    ((r.prot == 0) ≡ (key_601 user upper && upper % 4 == 0))
    × ((r.prot == 2) ≡ (upper % 4 == 2 || (not (key_601 user upper) && not (upper % 4 == 3))))
    × (r.prot ≤ 2)
    × IsPhys (open_601 lower) lower la r.phys

key_table : all_below 4 (λ a. bat_key a 1 == a % 2 && bat_key a 0 == a / 2) ≡ true
unfolding all_below bat_key
key_table = refl

bat_key_lem :
    (user : Bool) (upper : ℕ)
    → bat_key (bit_and (upper >>> 2) 3) (to_nat user) ≡ to_nat (key_601 user upper)
bat_key_lem user upper =
    let a = bit_and (upper >>> 2) 3 in
    let value = bit_and-mask 2 (upper >>> 2) in
    let h =
      all_below_sound 4 (λ a. bat_key a 1 == a % 2 && bat_key a 0 == a / 2) a key_table
        (omega (arith, value)) in
    key_cases user upper a value h
  where
    key_cases :
        (user : Bool) (upper a : ℕ)
        → a ≡ (upper >>> 2) % 4
        → (bat_key a 1 == a % 2 && bat_key a 0 == a / 2) ≡ true
        → bat_key a (to_nat user) ≡ to_nat (key_601 user upper)
    key_cases true upper a e h = ground arith
    key_cases false upper a e h = ground arith

conv_lem :
    (key : Bool) (pp : ℕ)
    → pp < 4
    → let prot = access_conv (bit_or (to_nat key <<< 2) pp) in
      ((prot == 0) ≡ (key && pp == 0))
      × ((prot == 2) ≡ (pp == 2 || (not key && not (pp == 3))))
      × (prot ≤ 2)
unfolding access_conv
conv_lem key pp h = rw (bit_or-join 2 (to_nat key) pp h) (conv_cases key pp h)
  where
    conv_cases :
        (key : Bool) (pp : ℕ)
        → pp < 4
        → let prot = access_conv (to_nat key * 2 ^ 2 + pp) in
          ((prot == 0) ≡ (key && pp == 0))
          × ((prot == 2) ≡ (pp == 2 || (not key && not (pp == 3))))
          × (prot ≤ 2)
    conv_cases true pp h = ground arith
    conv_cases false pp h = ground arith

abbrev mask_601 : ℕ → ℕ
mask_601 lower = block_mask (bit_and lower 0x3f)

test_601 :
    (upper lower : ℕ) (old : PpcBatEntry) (la : ℕ)
    → ((entry_601 upper lower old).valid && in_block (entry_601 upper lower old) la)
      ≡ (bit lower 6 == 1 && bit_and la (mask_601 lower) == bit_and upper (mask_601 lower))
unfolding mpc601_entry
test_601 upper lower old la = ground (arith, truth-bit_and 6 lower)

valid_601 :
    (upper lower : ℕ) (old : PpcBatEntry) (b : Bool)
    → ((entry_601 upper lower old).valid && b) ≡ true
    → entry_601 upper lower old ≡ mpc601_entry upper lower
unfolding mpc601_entry
valid_601 upper lower old b h = elim (Bool-cases (truth (bit_and lower 0x40))) [
  | inl on ↦ rw on refl
  | inr off ↦ absurd (ground (arith, off))
]

gives_601 :
    (s : State) (upper lower la : ℕ)
    → let e = mpc601_entry upper lower in
      Gives601 (is_user s) upper lower la (record {
        hit = true;
        prot = access_conv (bit_or (bat_key e.access (user_mode s) <<< 2) e.prot);
        phys = block_phys e la;
      })
unfolding mpc601_entry
gives_601 s upper lower la =
    let user = is_user s in
    let key : bat_key (bit_and (upper >>> 2) 3) (user_mode s) ≡ to_nat (key_601 user upper) =
      ap (bat_key (bit_and (upper >>> 2) 3)) (user_mode_lem s) ∙ bat_key_lem user upper in
    let pp : bit_and upper 3 ≡ upper % 4 = bit_and-mask 2 upper in
    let (none', all', small) = conv_lem (key_601 user upper) (upper % 4) (omega arith) in
    let prot : access_conv
          (bit_or (bat_key (bit_and (upper >>> 2) 3) (user_mode s) <<< 2) (bit_and upper 3))
        ≡ access_conv (bit_or (to_nat (key_601 user upper) <<< 2) (upper % 4)) =
      ap₂ (λ (a b : ℕ). access_conv (bit_or (a <<< 2) b)) key pp in
    (
      ap (λ n. n == 0) prot ∙ none',
      ap (λ n. n == 2) prot ∙ all',
      subst (λ n. n ≤ 2) (sym prot) small,
      block_phys_lem (open_601 lower) (mask_601 lower) (omega arith) (open_601-mask lower) lower la,
    )

-- With the entries that four pairs of registers describe, and where the segment of the address is no
-- direct-store segment, the translation of the 601 gives the first block that is valid and covers the
-- address. It refuses all accesses or writes by the key of the mode and the protection bits, and gives
-- the physical address of the open bits. It misses where no block matches.
pub mpc601_block_address_translation-FirstBlock :
    (s : State) (upper lower : ℕ → ℕ) (old : ℕ → PpcBatEntry) (la : ℕ)
    → bit (s.sr (la / 2 ^ 28 % 16)) 31 ≡ 0
    → FirstBlock
        (λ k. Matches601 (upper k) (lower k) la)
        (λ k r. Gives601 (is_user s) (upper k) (lower k) la r)
        (mpc601_block_address_translation s (λ k. entry_601 (upper k) (lower k) (old k)) la)
unfolding mpc601_block_address_translation
mpc601_block_address_translation-FirstBlock s upper lower old la memory =
    let segment : truth (bit_and (s.sr ((la >>> 28) % 16)) 0x8000_0000) ≡ false =
      truth-bit_and 31 (s.sr ((la >>> 28) % 16)) ∙ ground arith in
    rw segment (
      first_block _ _ (λ k. Matches601 (upper k) (lower k) la)
        (λ k r. Gives601 (is_user s) (upper k) (lower k) la r)
        (λ k. rw (test_601 (upper k) (lower k) (old k) la) (
          and_iff _ _ (==_iff _ _) (
            block_iff (open_601 (lower k)) (mask_601 (lower k)) (omega arith)
              (open_601-mask (lower k)) (upper k) la)))
        (λ k. refl)
        λ k on.
          rw (valid_601 (upper k) (lower k) (old k) _ on) (gives_601 s (upper k) (lower k) la))

-- With the entries that four pairs of registers describe, either translation gives the first block that
-- is valid and covers the address, with the physical address of its open bits, and misses where there is
-- none. PowerPC blocks are valid by the mode of the processor and keep their protection; those of the
-- 601 are valid by a bit of their own, and refuse all accesses or writes by the key of the mode and the
-- protection bits, where the segment of the address is no direct-store segment.
pub block_translations-FirstBlock :
    (s : State) (upper lower : ℕ → ℕ) (old : ℕ → PpcBatEntry) (la : ℕ)
    → bit (s.sr (la / 2 ^ 28 % 16)) 31 ≡ 0
    → FirstBlock
        (λ k. MatchesPpc (is_user s) (upper k) la)
        (λ k r. GivesPpc (upper k) (lower k) la r)
        (ppc_block_address_translation s (λ k. ppc_entry (upper k) (lower k) (old k)) la)
      × FirstBlock
          (λ k. Matches601 (upper k) (lower k) la)
          (λ k r. Gives601 (is_user s) (upper k) (lower k) la r)
          (mpc601_block_address_translation s (λ k. entry_601 (upper k) (lower k) (old k)) la)
block_translations-FirstBlock s upper lower old la memory = (
  ppc_block_address_translation-FirstBlock s upper lower old la,
  mpc601_block_address_translation-FirstBlock s upper lower old la memory,
)
