-- ===== src/Cpu/Mmu/Bat/Search.antt =====
-- The search through the block address translation entries of cpu/ppc/ppcmmu.cpp finds the first.
use chungusppc.Common.{
  ℕ, zero, suc, ◌+◌, ◌≤◌, ◌<◌, Bool, true, false, ◌≡◌, refl, ◌⊎◌, inl, inr, Bool-cases, ==_iff,
  ◌==◌, ap, sym, ◌∙◌, arith,
}
use chungusppc.Cpu.Mmu.Bat.{BatResult, bat_miss, bat_search}

module _ (test : ℕ → Bool) (result : ℕ → BatResult) where
  -- Entry `k` is the first of those from `i` on that the test accepts.
  abbrev pub IsFirst : ℕ → ℕ → Type 0
  IsFirst i k = (i ≤ k) × (test k ≡ true) × ((j : ℕ) → i ≤ j → j < k → test j ≡ false)

  abbrev pub Searched : ℕ → ℕ → BatResult → Type 0
  Searched n i r =
      ((k : ℕ) × (k < i + n) × IsFirst i k × (r ≡ result k))
      ⊎ (((j : ℕ) → i ≤ j → j < i + n → test j ≡ false) × (r ≡ bat_miss))

  from_next : (i j : ℕ) → test i ≡ false → i ≤ j → (i + 1 ≤ j → test j ≡ false) → test j ≡ false
  from_next i j here h later = elim (Bool-cases (i == j)) [
    | inl same ↦ ap test (sym ((==_iff i j).0 same)) ∙ here
    | inr other ↦ later (ground arith)
  ]

  skip : (n i : ℕ) {r : BatResult} → test i ≡ false → Searched n (i + 1) r → Searched (suc n) i r
  skip n i here (inl (k, lt, (le, yes', before), e)) =
      inl
        (k, omega arith, (omega arith, yes', λ j h g. from_next i j here h (λ l. before j l g)), e)
  skip n i here (inr (all, e)) = inr (λ j h g. from_next i j here h (λ l. all j l (omega arith)), e)

  -- The first entry that the test accepts, or a miss if there is none.
  pub bat_search_lem : (n i : ℕ) → Searched n i (bat_search test result n i)
  unfolding bat_search
  bat_search_lem zero i = inr (λ j h g. absurd (omega arith), refl)
  bat_search_lem (suc n) i = elim (Bool-cases (test i)) [
    | inl here ↦
        inl (i, omega arith, (omega arith, here, λ j h g. absurd (omega arith)), rw here refl)
    | inr not_here ↦ rw not_here (skip n i not_here (bat_search_lem n (i + 1)))
  ]
