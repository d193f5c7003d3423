-- ===== src/Cpu/Memory/Laws.antt =====
-- The round trip of the multiple stores and loads, in memory that is made of bytes.
use chungusppc.Common.{
  ℕ, zero, suc, ◌+◌, ◌-◌, ◌*◌, ◌%◌, ◌^◌, ◌<◌, ◌≤◌, ◌≡◌, ◌⊎◌, refl, ap, sym, ◌∙◌, arith, leb,
  if◌then◌else◌, bit_and, u32, inl, inr, Bool-cases,
}
use native.Mathlib.Nat.{mod-eq_of_lt}
use chungusppc.Common.Bits.Merge.{bit_and-mask}
use chungusppc.Cpu.State.{State, IsWord, set_gpr}
use chungusppc.Cpu.Decode.{reg_d}
use chungusppc.Cpu.Memory.{done, got, Mmu, ea_simm, after_read, after_write}
use chungusppc.Cpu.Memory.Load.{lmw, lmw_loop}
use chungusppc.Cpu.Memory.Store.{stmw, stmw_loop, cut}

-- The word in the four bytes at an address, the highest first
abbrev pub word_at : (ℕ → ℕ) → ℕ → ℕ
word_at b a = b a * 2 ^ 24 + b (a + 1) * 2 ^ 16 + b (a + 2) * 2 ^ 8 + b (a + 3)

-- The states agree in all that the translation of addresses depends on.
abbrev pub SameContext : State → State → Type 0
SameContext c s =
    (s.msr ≡ c.msr)
    × (s.spr ≡ c.spr)
    × (s.sr ≡ c.sr)
    × (s.is_601 ≡ c.is_601)
    × (s.is_603 ≡ c.is_603)

-- In the context `c`, the addresses from `lo` up to `hi` are memory: a word is read from its four bytes
-- and written to them, and nothing faults. `Ready` is what the memory management unit relies on and
-- keeps; it may change at every access.
pub record IsRam {M : Type 0} (mmu : Mmu M) (bytes : M → ℕ → ℕ) (Ready : M → Type 0) (c : State)
    (lo hi : ℕ) : Type 0 where
  pub below : hi < 2 ^ 32
  pub reads :
      (op ea : ℕ) (s : State) (m : M)
      → SameContext c s
      → Ready m
      → lo ≤ ea
      → ea + 4 ≤ hi
      → (m' : M) × (mmu.read 4 op ea s m ≡ (got (word_at (bytes m) ea), m'))
        × Ready m'
        × ((j : ℕ) → lo ≤ j → j < hi → bytes m' j ≡ bytes m j)
  pub writes :
      (op ea v : ℕ) (s : State) (m : M)
      → SameContext c s
      → Ready m
      → lo ≤ ea
      → ea + 4 ≤ hi
      → v < 2 ^ 32
      → (m' : M) × (mmu.write 4 op ea v s m ≡ (got tt, m'))
        × Ready m'
        × (word_at (bytes m') ea ≡ v)
        × ((j : ℕ) → lo ≤ j → j < hi → (j < ea) ⊎ (ea + 4 ≤ j) → bytes m' j ≡ bytes m j)

pub word_at-same :
    (b c : ℕ → ℕ) (a : ℕ) → ((j : ℕ) → a ≤ j → j < a + 4 → b j ≡ c j) → word_at b a ≡ word_at c a
word_at-same b c a same =
    rw
      (
        same a (omega arith) (omega arith),
        same (a + 1) (omega arith) (omega arith),
        same (a + 2) (omega arith) (omega arith),
        same (a + 3) (omega arith) (omega arith),
      )
      refl

-- Words and registers agree from the first on, if they do at the first and after it.
from_first :
    (f g : ℕ → ℕ) (n ea reg : ℕ)
    → f ea ≡ g reg
    → ((k : ℕ) → k < n → f (ea + 4 + 4 * k) ≡ g (reg + 1 + k))
    → (k : ℕ) → k < suc n
    → f (ea + 4 * k) ≡ g (reg + k)
from_first f g n ea reg e rest zero l =
    let address : ea + 4 * 0 ≡ ea = omega arith in
    let register : reg + 0 ≡ reg = omega arith in ap f address ∙ e ∙ ap g (sym register)
from_first f g n ea reg e rest (suc k) l =
    let address : ea + 4 * suc k ≡ ea + 4 + 4 * k = omega arith in
    let register : reg + suc k ≡ reg + 1 + k = omega arith in
    ap f address ∙ rest k (omega arith) ∙ ap g (sym register)

module _ {M : Type 0} (mmu : Mmu M) (bytes : M → ℕ → ℕ) (Ready : M → Type 0) (c : State) (lo hi : ℕ)
    (ram : IsRam mmu bytes Ready c lo hi) where
  next_address : (n ea : ℕ) → ea + 4 * suc n ≤ hi → u32 (ea + 4) ≡ ea + 4
  next_address n ea h = let b = ram.below in omega arith

  -- The words that the loop stores, and the lower bytes that it keeps.
  stored :
      (n reg ea op : ℕ) (s : State) (m : M)
      → SameContext c s
      → Ready m
      → lo ≤ ea
      → ea + 4 * n ≤ hi
      → (m' : M) × (stmw_loop mmu n reg ea op s m ≡ done s m')
        × Ready m'
        × ((k : ℕ) → k < n → word_at (bytes m') (ea + 4 * k) ≡ cut 4 (s.gpr (reg + k)))
        × ((j : ℕ) → lo ≤ j → j < ea → bytes m' j ≡ bytes m j)
  unfolding stmw_loop after_write
  stored zero reg ea op s m same ready low h =
      (m, refl, ready, λ k l. absurd (omega arith), λ j p l. refl)
  stored (suc n) reg ea op s m same ready low h =
      let w = ram.writes op ea (cut 4 (s.gpr reg)) s m same ready low (omega arith) (omega arith) in
      let rest = stored n (reg + 1) (ea + 4) op s w.0 same w.2 (omega arith) (omega arith) in
      let first =
        word_at-same (bytes rest.0) (bytes w.0) ea (λ j p l. rest.4 j (omega arith) (omega arith))
        ∙ w.3 in
      (
        rest.0,
        ap (λ t. after_write t (λ m1. stmw_loop mmu n (reg + 1) (u32 (ea + 4)) op s m1)) w.1
            ∙ ap (λ t. stmw_loop mmu n (reg + 1) t op s w.0) (next_address n ea h)
            ∙ rest.1,
        rest.2,
        from_first (word_at (bytes rest.0)) (λ r. cut 4 (s.gpr r)) n ea reg first rest.3,
        λ j p l. rest.4 j p (omega arith) ∙ w.4 j p (omega arith) (inl l),
      )

  -- The registers that the loop loads, and the lower ones that it keeps.
  loaded :
      (n reg ea op : ℕ) (s : State) (m : M)
      → SameContext c s
      → Ready m
      → lo ≤ ea
      → ea + 4 * n ≤ hi
      → (s' : State) × (m' : M) × (lmw_loop mmu n reg ea op s m ≡ done s' m')
        × ((k : ℕ) → k < n → word_at (bytes m) (ea + 4 * k) ≡ s'.gpr (reg + k))
        × ((j : ℕ) → j < reg → s'.gpr j ≡ s.gpr j)
  unfolding lmw_loop after_read
  loaded zero reg ea op s m same ready low h =
      (s, m, refl, λ k l. absurd (omega arith), λ j l. refl)
  loaded (suc n) reg ea op s m same ready low h =
      let w = ram.reads op ea s m same ready low (omega arith) in
      let s1 = set_gpr s reg (word_at (bytes m) ea) in
      let rest = loaded n (reg + 1) (ea + 4) op s1 w.0 same w.2 (omega arith) (omega arith) in
      let first : s1.gpr reg ≡ word_at (bytes m) ea = ground arith in
      let kept = λ (k : ℕ) (l : k < n).
        word_at-same (bytes m) (bytes w.0) (ea + 4 + 4 * k)
          (λ j p t. sym (w.3 j (omega arith) (omega arith))) in
      (
        rest.0,
        rest.1,
        ap
              (λ t.
                after_read t
                  (λ v m1. lmw_loop mmu n (reg + 1) (u32 (ea + 4)) op (set_gpr s reg v) m1))
              w.1
            ∙ ap (λ t. lmw_loop mmu n (reg + 1) t op s1 w.0) (next_address n ea h)
            ∙ rest.2,
        from_first (word_at (bytes m)) rest.0.gpr n ea reg (sym (rest.4 reg (omega arith) ∙ first))
            (λ k l. kept k l ∙ rest.3 k l),
        λ j l. rest.4 j (omega arith) ∙ ground arith,
      )

  restored :
      (s t : State) (reg ea : ℕ) (f : ℕ → ℕ) (t' : State)
      → IsWord s
      → ((k : ℕ) → k < 32 - reg → f (ea + 4 * k) ≡ cut 4 (s.gpr (reg + k)))
      → ((k : ℕ) → k < 32 - reg → f (ea + 4 * k) ≡ t'.gpr (reg + k))
      → ((j : ℕ) → j < reg → t'.gpr j ≡ t.gpr j)
      → (r : ℕ) → r < 32
      → t'.gpr r ≡ (if leb reg r then s.gpr r else t.gpr r)
  restored s t reg ea f t' w st ld keep r h = elim (Bool-cases (leb reg r)) [
    | inl p ↦
        let k = r - reg in
        let index : reg + k ≡ r = ground arith in
        let small : k < 32 - reg = ground arith in
        rw p (
          ap t'.gpr (sym index)
          ∙ sym (ld k small)
          ∙ st k small
          ∙ mod-eq_of_lt (w.gpr_lt (reg + k))
          ∙ ap s.gpr index)
    | inr p ↦ rw p (keep r (ground arith))
  ]

  -- At an aligned address, where the words from it on are memory, `stmw` ends without a fault, and an
  -- `lmw` from the same address with the same first register, in whatever state of the same context,
  -- restores every register from that one on and keeps the lower ones.
  pub lmw-stmw :
      (s t : State) (op op' : ℕ) (m : M)
      → IsWord s
      → SameContext c s
      → SameContext c t
      → Ready m
      → reg_d op ≡ reg_d op'
      → ea_simm s op ≡ ea_simm t op'
      → ea_simm s op % 4 ≡ 0
      → lo ≤ ea_simm s op
      → ea_simm s op + 4 * (32 - reg_d op) ≤ hi
      → (m' m'' : M) × (t' : State) × (stmw mmu s op m ≡ done s m')
        × (lmw mmu t op' m' ≡ done t' m'')
        × ((r : ℕ) → r < 32 → t'.gpr r ≡ (if leb (reg_d op) r then s.gpr r else t.gpr r))
  unfolding stmw lmw
  lmw-stmw s t op op' m w here there ready e same aligned low bound =
      let n = 32 - reg_d op in
      let ea = ea_simm s op in
      let st = stored n (reg_d op) ea op s m here ready low bound in
      let ld = loaded n (reg_d op) ea op' t st.0 there st.2 low bound in
      let low_bits : bit_and ea 3 ≡ 0 = bit_and-mask 2 ea ∙ aligned in
      (
        st.0,
        ld.1,
        ld.0,
        rw low_bits st.1,
        rw (← e, ← same) ld.2,
        restored s t (reg_d op) ea (word_at (bytes st.0)) ld.0 w st.3 ld.3 ld.4,
      )
