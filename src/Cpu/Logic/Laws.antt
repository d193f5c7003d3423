-- ===== src/Cpu/Logic/Laws.antt =====
-- The logical instructions, bit by bit, and the count of leading zeros.
use chungusppc.Common.{
  ℕ, zero, suc, ◌+◌, ◌-◌, ◌*◌, ◌/◌, ◌%◌, ◌^◌, ◌≤◌, ◌<◌, ◌≡◌, ◌≢◌, refl, ap, ◌∙◌, arith, Bool, true,
  false, ◌==◌, if◌then◌else◌, bit, truth, to_nat, ◌&&◌, ◌||◌, not,
}
use native.Mathlib.Decide.{dec_lt}
use native.Mathlib.Nat.{pow-suc, div-eq_of_lt, div-eq_of_lt-le}
use chungusppc.Common.{bit_and, bit_or, bit_xor, not32, inl, inr, Bool-cases}
use chungusppc.Common.Bits.{bit-bit_and, bit-bit_or, bit-bit_xor}
use chungusppc.Common.Bits.Bounds.{bit_and-lt, bit_or-lt, bit_xor-lt}
use chungusppc.Common.Bits.Shifts.{bit-complement, bit_and-pow, two-pow-pos, halve_pow}
use chungusppc.Cpu.State.{State, IsWord}
use chungusppc.Cpu.Decode.{reg_a, reg_b, reg_d}
use chungusppc.Cpu.Write.{IsWrite, IsWrite-end}
use chungusppc.Cpu.Logic.{LogicalFun, logical, logical_result, cntlzw, cntlzw_loop}

-- The truth table of each function, on the bits of rS and rB.
abbrev pub truth_table : LogicalFun → Bool → Bool → Bool
truth_table LogicalFun.and x y = x && y
truth_table LogicalFun.andc x y = x && not y
truth_table LogicalFun.eqv x y = if x then y else not y
truth_table LogicalFun.nand x y = not (x && y)
truth_table LogicalFun.nor x y = not (x || y)
truth_table LogicalFun.or x y = x || y
truth_table LogicalFun.orc x y = x || not y
truth_table LogicalFun.xor x y = if x then not y else y

module _ (x y i : ℕ) (hx : x < 2 ^ 32) (hy : y < 2 ^ 32) (h : i < 32) where
  pub logical_result-bit :
      (f : LogicalFun)
      → bit (logical_result f x y) i ≡ to_nat (truth_table f (bit x i == 1) (bit y i == 1))
  unfolding logical_result
  logical_result-bit LogicalFun.and = ground (arith, bit-bit_and i x y)
  logical_result-bit LogicalFun.andc =
      ground (arith, bit-bit_and i x (not32 y), bit-complement 32 y i hy h)
  logical_result-bit LogicalFun.eqv =
      ground
        (arith, bit-bit_xor i x y, bit-complement 32 (bit_xor x y) i (bit_xor-lt 32 x y hx hy) h)
  logical_result-bit LogicalFun.nand =
      ground (arith, bit-bit_and i x y, bit-complement 32 (bit_and x y) i (bit_and-lt 32 x y hx) h)
  logical_result-bit LogicalFun.nor =
      ground (arith, bit-bit_or i x y, bit-complement 32 (bit_or x y) i (bit_or-lt 32 x y hx hy) h)
  logical_result-bit LogicalFun.or = ground (arith, bit-bit_or i x y)
  logical_result-bit LogicalFun.orc =
      ground (arith, bit-bit_or i x (not32 y), bit-complement 32 y i hy h)
  logical_result-bit LogicalFun.xor = ground (arith, bit-bit_xor i x y)

-- On a state of machine words, each logical instruction gives rA the word whose bits its truth table
-- says from those of rS and rB; CR0 describes it where Rc is set, and nothing else changes.
logical-IsWrite :
    (f : LogicalFun) (rec : Bool) (s : State) (op : ℕ)
    → IsWord s
    → (v : ℕ) × IsWrite rec (reg_a op) v s (logical f rec s op)
      × ((i : ℕ)
          → i < 32
          → bit v i
            ≡ to_nat
                (truth_table f (bit (s.gpr (reg_d op)) i == 1) (bit (s.gpr (reg_b op)) i == 1)))
unfolding logical
logical-IsWrite f rec s op w = (
  logical_result f (s.gpr (reg_d op)) (s.gpr (reg_b op)),
  IsWrite-end rec (reg_a op) _ s,
  λ i h.
      logical_result-bit (s.gpr (reg_d op)) (s.gpr (reg_b op)) i (w.gpr_lt (reg_d op))
        (w.gpr_lt (reg_b op)) h f,
)

-- `n` zeros stand before the highest bit of the word `x`, and all its bits are zeros if `n` is 32.
abbrev pub IsLeading : ℕ → ℕ → Type 0
IsLeading x n = (n ≤ 32) × (x < 2 ^ (32 - n)) × (x ≢ 0 → 2 ^ (31 - n) ≤ x)

high_bit_set : (k x : ℕ) → x < 2 ^ suc k → truth (bit_and x (2 ^ k)) ≡ true → 2 ^ k ≤ x
high_bit_set k x b e = elim (dec_lt x (2 ^ k)) [
  | yes p ↦ absurd (ground (arith, bit_and-pow k x, div-eq_of_lt p))
  | no p ↦ omega arith
]

high_bit_clear : (k x : ℕ) → x < 2 ^ suc k → truth (bit_and x (2 ^ k)) ≡ false → x < 2 ^ k
high_bit_clear k x b e = elim (dec_lt x (2 ^ k)) [
  | yes p ↦ p
  | no p ↦
      let one_time : x / 2 ^ k ≡ 1 =
        div-eq_of_lt-le {k = 1} (2 ^ k) (omega arith) (omega (arith, pow-suc 2 k)) in
      absurd (
        ground
          (arith, bit_and-pow k x, one_time, two-pow-pos k, ap (λ (t : ℕ). t % 2 * 2 ^ k) one_time))
]

module _ (fuel mask lead x : ℕ) where
  cntlzw_done : mask ≡ 0 → cntlzw_loop (suc fuel) mask lead x ≡ lead
  unfolding cntlzw_loop
  cntlzw_done e = ground arith

  cntlzw_hit : truth (bit_and x mask) ≡ true → cntlzw_loop (suc fuel) mask lead x ≡ lead
  unfolding cntlzw_loop
  cntlzw_hit t = ground arith

  cntlzw_miss :
      0 < mask
      → truth (bit_and x mask) ≡ false
      → cntlzw_loop (suc fuel) mask lead x ≡ cntlzw_loop fuel (mask / 2) (lead + 1) x
  unfolding cntlzw_loop
  cntlzw_miss e t = ground arith

IsLeading-at : (k lead x : ℕ) → lead + k ≡ 31 → 2 ^ k ≤ x → x < 2 ^ suc k → IsLeading x lead
IsLeading-at k lead x e low high =
    let top : 32 - lead ≡ suc k = omega arith in
    let bottom : 31 - lead ≡ k = omega arith in (omega arith, rw top high, λ ne. rw bottom low)

-- The loop with its mask at bit `k`, on enough fuel, when no higher bit is set.
cntlzw_loop_lem :
    (fuel k lead x : ℕ)
    → lead + k ≡ 31
    → k + 2 ≤ fuel
    → x < 2 ^ suc k
    → IsLeading x (cntlzw_loop fuel (2 ^ k) lead x)
cntlzw_loop_lem zero k lead x el h b = absurd (omega arith)
cntlzw_loop_lem (suc zero) k lead x el h b = absurd (omega arith)
cntlzw_loop_lem (suc (suc fuel)) zero lead x el h b = elim (Bool-cases (truth (bit_and x 1))) [
  | inl t ↦
      rw (cntlzw_hit (suc fuel) 1 lead x t) (IsLeading-at 0 lead x el (high_bit_set 0 x b t) b)
  | inr t ↦
      let end : cntlzw_loop (suc (suc fuel)) 1 lead x ≡ 32 =
        cntlzw_miss (suc fuel) 1 lead x (omega arith) t
        ∙ cntlzw_done fuel (1 / 2) (lead + 1) x refl
        ∙ omega arith in
      let none_left : x < 1 = high_bit_clear 0 x b t in
      rw end (omega arith, none_left, λ ne. absurd (ne (omega arith)))
]
cntlzw_loop_lem (suc (suc fuel)) (suc k) lead x el h b =
    elim (Bool-cases (truth (bit_and x (2 ^ suc k)))) [
      | inl t ↦
          rw (cntlzw_hit (suc fuel) (2 ^ suc k) lead x t)
            (IsLeading-at (suc k) lead x el (high_bit_set (suc k) x b t) b)
      | inr t ↦ rw (cntlzw_miss (suc fuel) (2 ^ suc k) lead x (two-pow-pos (suc k)) t) (
          rw (halve_pow k) (
            cntlzw_loop_lem (suc fuel) k (lead + 1) x (omega arith) (omega arith)
              (high_bit_clear (suc k) x b t)))
    ]

-- On a state of machine words, `cntlzw` counts the zeros before the highest bit of rS, 32 of them if it
-- is 0; CR0 describes the count where Rc is set, and nothing else changes.
cntlzw-IsWrite :
    (rec : Bool) (s : State) (op : ℕ)
    → IsWord s
    → (n : ℕ) × IsWrite rec (reg_a op) n s (cntlzw rec s op) × IsLeading (s.gpr (reg_d op)) n
unfolding cntlzw
cntlzw-IsWrite rec s op w = (
  cntlzw_loop 33 (2 ^ 31) 0 (s.gpr (reg_d op)),
  IsWrite-end rec (reg_a op) _ s,
  cntlzw_loop_lem 33 31 0 (s.gpr (reg_d op)) refl (omega arith) (w.gpr_lt (reg_d op)),
)

-- On a state of machine words, each logical instruction gives rA the word whose bits its truth table
-- says from those of rS and rB, and `cntlzw` counts the zeros before the highest bit of rS, 32 of them if it is
-- 0; CR0 describes the result where Rc is set, and nothing else changes.
pub register_logic_lem :
    (f : LogicalFun) (rec : Bool) (s : State) (op : ℕ)
    → IsWord s
    → ((v : ℕ) × IsWrite rec (reg_a op) v s (logical f rec s op)
        × ((i : ℕ)
            → i < 32
            → bit v i
              ≡ to_nat
                  (truth_table f (bit (s.gpr (reg_d op)) i == 1) (bit (s.gpr (reg_b op)) i == 1))))
      × ((n : ℕ) × IsWrite rec (reg_a op) n s (cntlzw rec s op) × IsLeading (s.gpr (reg_d op)) n)
register_logic_lem f rec s op w = (logical-IsWrite f rec s op w, cntlzw-IsWrite rec s op w)
