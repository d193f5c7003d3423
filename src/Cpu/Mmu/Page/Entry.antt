-- ===== src/Cpu/Mmu/Page/Entry.antt =====
-- The use of a page table entry (cpu/ppc/ppcmmu.cpp): protection, and the reference and change bits.
use chungusppc.Common.{
  ℕ, zero, suc, ◌+◌, ◌*◌, ◌%◌, ◌<◌, ◌==◌, not, ◌&&◌, ◌||◌, Bool, true, false, if◌then◌else◌, ◌≡◌,
  ◌≢◌, refl, ap, sym, ◌∙◌, arith, bit, bit_and, bit_or, bit_xor, truth, to_nat, ==_iff, Bool-cases,
  inl, inr, Option, none, some, ◌>>>◌,
}
use chungusppc.Common.Bits.{bit-bit_or, bit-lt}
use chungusppc.Common.Bits.Shifts.{bit-mask, bit-pow}
use chungusppc.Common.Bits.Merge.{bit_and-mask}
use chungusppc.Cpu.Mmu.Page.{read_dword, search_pteg, pat_key, is_refused, update_rc}

-- The key of the mode: Kp or Ks of the segment register
abbrev pub segment_key : Bool → ℕ → Bool
segment_key user sr_val = bit sr_val (if user then 29 else 30) == 1

choose :
    (user : Bool) (p k : ℕ)
    → p < 2
    → k < 2
    → bit_or (bit_and p (to_nat user)) (bit_and k (bit_xor (to_nat user) 1))
      ≡ (if user then p else k)
choose true zero zero h g = refl
choose true zero (suc zero) h g = refl
choose true (suc zero) zero h g = refl
choose true (suc zero) (suc zero) h g = refl
choose false zero zero h g = refl
choose false zero (suc zero) h g = refl
choose false (suc zero) zero h g = refl
choose false (suc zero) (suc zero) h g = refl
choose user (suc (suc p)) k h g = absurd (omega arith)
choose user zero (suc (suc k)) h g = absurd (omega arith)
choose user (suc zero) (suc (suc k)) h g = absurd (omega arith)

pub pat_key_lem :
    (user : Bool) (sr_val : ℕ) → pat_key sr_val (to_nat user) ≡ to_nat (segment_key user sr_val)
pat_key_lem user sr_val =
    let p = bit_and-mask 1 (sr_val >>> 29) in
    let k = bit_and-mask 1 (sr_val >>> 30) in
    choose user (bit_and (sr_val >>> 29) 1) (bit_and (sr_val >>> 30) 1) (omega (arith, p))
      (omega (arith, k))
    ∙ key_of user p k
  where
    key_of :
        (user : Bool)
        → bit_and (sr_val >>> 29) 1 ≡ (sr_val >>> 29) % 2
        → bit_and (sr_val >>> 30) 1 ≡ (sr_val >>> 30) % 2
        → (if user then bit_and (sr_val >>> 29) 1 else bit_and (sr_val >>> 30) 1)
          ≡ to_nat (segment_key user sr_val)
    key_of true p k = ground arith
    key_of false p k = ground arith

-- Reads are permitted unless the key is set and PP is 0. Writes are permitted where PP is 2, and with
-- a clear key where PP is not 3.
abbrev pub permits : Bool → ℕ → Bool → Bool
permits key pp write =
    if write then pp == 2 || (not key && not (pp == 3)) else not key || not (pp == 0)

pub is_refused_lem :
    (key : Bool) (pp is_write : ℕ)
    → pp < 4
    → is_refused (to_nat key) pp is_write ≡ not (permits key pp (truth is_write))
unfolding is_refused
is_refused_lem true pp is_write h = ground arith
is_refused_lem false pp is_write h = ground arith

-- The memory after an access through the entry at `p`: the reference bit is set, the change bit for a
-- store, and nothing else changes.
pub record IsUsed (p : ℕ) (write : Bool) (mem mem' : ℕ → ℕ) : Type 0 where
  pub referenced : (i : ℕ) → bit (mem' (p + 6)) i ≡ (if i == 0 then 1 else bit (mem (p + 6)) i)
  pub changed :
      (i : ℕ) → bit (mem' (p + 7)) i ≡ (if write && i == 7 then 1 else bit (mem (p + 7)) i)
  pub others : (a : ℕ) → a ≢ p + 6 → a ≢ p + 7 → mem' a ≡ mem a

pub update_rc-IsUsed :
    (p is_write : ℕ) (mem : ℕ → ℕ) → IsUsed p (truth is_write) mem (update_rc p is_write mem)
unfolding update_rc
update_rc-IsUsed p is_write mem = record {
  referenced =
      λ i. ground (arith, bit-bit_or i (mem (p + 6)) 1, bit-mask 1 i, bit-lt (mem (p + 6)) i);
  changed =
      λ i. ground (arith, bit-bit_or i (mem (p + 7)) 0x80, bit-pow 7 i, bit-lt (mem (p + 7)) i);
  others = λ a h g. ground arith;
}

-- The search finds the first entry of the group with the word, or there is none.
abbrev pub Searched : (ℕ → ℕ) → ℕ → ℕ → ℕ → Option ℕ → Type 0
Searched mem check n a none = (k : ℕ) → k < n → read_dword mem (a + 8 * k) ≢ check
Searched mem check n a (some p) =
    (k : ℕ) × (k < n)
    × (p ≡ a + 8 * k)
    × (read_dword mem p ≡ check)
    × ((j : ℕ) → j < k → read_dword mem (a + 8 * j) ≢ check)

pub search_pteg-Searched :
    (mem : ℕ → ℕ) (check n a : ℕ) → Searched mem check n a (search_pteg mem check n a)
unfolding search_pteg
search_pteg-Searched mem check zero a = λ k h. absurd (omega arith)
search_pteg-Searched mem check (suc n) a = elim (Bool-cases (check == read_dword mem a)) [
  | inl here ↦
      let same : read_dword mem a ≡ check = sym ((==_iff _ _).0 here) in
      rw here (0, omega arith, omega arith, same, λ j h. absurd (omega arith))
  | inr other ↦ rw other (
      later (search_pteg mem check n (a + 8)) (differs other)
        (search_pteg-Searched mem check n (a + 8)))
]
  where
    differs : (check == read_dword mem a) ≡ false → read_dword mem a ≢ check
    differs other e = absurd (ground (arith, other, e))

    at_next :
        (k : ℕ) → read_dword mem (a + 8 + 8 * k) ≢ check → read_dword mem (a + 8 * suc k) ≢ check
    at_next k ne e = ne (ap (read_dword mem) (omega arith) ∙ e)

    at_start : read_dword mem a ≢ check → read_dword mem (a + 8 * 0) ≢ check
    at_start ne e = ne (ap (read_dword mem) (omega arith) ∙ e)

    none_of :
        (k n : ℕ)
        → read_dword mem a ≢ check
        → ((j : ℕ) → j < n → read_dword mem (a + 8 + 8 * j) ≢ check)
        → k < suc n
        → read_dword mem (a + 8 * k) ≢ check
    none_of zero n ne all h = at_start ne
    none_of (suc k) n ne all h = at_next k (all k (omega arith))

    later :
        (o : Option ℕ)
        → read_dword mem a ≢ check
        → Searched mem check n (a + 8) o
        → Searched mem check (suc n) a o
    later none ne all = λ k h. none_of k n ne all h
    later (some p) ne (k, lt, at, same, before) =
        (suc k, omega arith, omega arith, same, λ j h. none_of j k ne before h)
