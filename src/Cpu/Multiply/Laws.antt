-- ===== src/Cpu/Multiply/Laws.antt =====
-- The two words of a product, and the bounds on the product of two words.
use chungusppc.Common.{
  ℕ, suc, ◌+◌, ◌-◌, ◌*◌, ◌/◌, ◌%◌, ◌^◌, ◌≤◌, ◌<◌, ◌≡◌, ap, arith, Bool, false, u32, ltb, Bool-cases,
  inl, inr, ◌⊎◌,
}
use chungusppc.Common.Int.{
  ℤ, pos, negsuc, pos_part, neg_part, sub_ℕ, signed32, shr_ℤ, wrap_ℤ, ◌+ℤ◌, ◌*ℤ◌,
}
use chungusppc.Cpu.State.{State, IsWord}
use chungusppc.Cpu.Decode.{reg_a, reg_b, reg_d}
use chungusppc.Cpu.Arith.Spec.{overflows}
use chungusppc.Cpu.Write.{IsWrite, IsWrite-end}
use chungusppc.Cpu.Multiply.{mulhwu, mulhw, mullw, differs_from_int32}

-- The number that two words stand for, the high one with its sign.
abbrev pub double_word : ℕ → ℕ → ℤ
double_word hi lo = signed32 hi *ℤ pos (2 ^ 32) +ℤ pos lo

-- Any number of 64 bits is put together again from its words.
pub words_lem :
    (p : ℤ)
    → pos_part p ≤ 2 ^ 63 - 1
    → neg_part p ≤ 2 ^ 63
    → double_word (wrap_ℤ 32 (shr_ℤ p 32)) (wrap_ℤ 32 p) ≡ p
unfolding ◌*ℤ◌ ◌+ℤ◌
words_lem (pos n) h g = ground arith
words_lem (negsuc n) h g = ground arith

square_bound : (x y : ℕ) → x ≤ 2 ^ 31 → y ≤ 2 ^ 31 → x * y ≤ 2 ^ 62
square_bound x y h g = grind arith

abbrev pub IsSmall : ℤ → Type 0
IsSmall z = (pos_part z ≤ 2 ^ 31) × (neg_part z ≤ 2 ^ 31)

pub product_bound :
    (a b : ℤ)
    → IsSmall a
    → IsSmall b
    → (pos_part (a *ℤ b) ≤ 2 ^ 63 - 1) × (neg_part (a *ℤ b) ≤ 2 ^ 63)
unfolding ◌*ℤ◌
product_bound (pos a) (pos b) h g = ground (arith, square_bound a b)
product_bound (pos a) (negsuc b) h g = ground (arith, square_bound a (suc b))
product_bound (negsuc a) (pos b) h g = ground (arith, square_bound (suc a) b)
product_bound (negsuc a) (negsuc b) h g = ground (arith, square_bound (suc a) (suc b))

pub signed32-IsSmall : (a : ℕ) → a < 2 ^ 32 → IsSmall (signed32 a)
signed32-IsSmall a h = ground arith

pub overflow_test : (p : ℤ) → differs_from_int32 p ≡ overflows p
unfolding differs_from_int32
overflow_test (pos n) = ground arith
overflow_test (negsuc n) = ground arith

-- On a state of machine words, `mulhw` and `mullw` give the two words of the signed product of rA and
-- rB; CR0 describes the word where Rc is set, and nothing else changes.
mulhw-mullw :
    (rec : Bool) (s : State) (op : ℕ)
    → IsWord s
    → (hi lo : ℕ) × IsWrite rec (reg_d op) hi s (mulhw rec s op)
      × IsWrite rec (reg_d op) lo s (mullw rec false s op)
      × (double_word hi lo ≡ signed32 (s.gpr (reg_a op)) *ℤ signed32 (s.gpr (reg_b op)))
unfolding mulhw mullw
mulhw-mullw rec s op w =
    let a = signed32-IsSmall _ (w.gpr_lt (reg_a op)) in
    let b = signed32-IsSmall _ (w.gpr_lt (reg_b op)) in
    let bounds = product_bound _ _ a b in
    (
      wrap_ℤ 32 (shr_ℤ (signed32 (s.gpr (reg_a op)) *ℤ signed32 (s.gpr (reg_b op))) 32),
      wrap_ℤ 32 (signed32 (s.gpr (reg_a op)) *ℤ signed32 (s.gpr (reg_b op))),
      IsWrite-end rec (reg_d op) _ s,
      IsWrite-end rec (reg_d op) _ s,
      words_lem _ bounds.0 bounds.1,
    )

signed32-cases :
    (a : ℕ)
    → a < 2 ^ 32
    → (signed32 a ≡ pos a) ⊎ ((n : ℕ) × (signed32 a ≡ negsuc n) × (a + suc n ≡ 2 ^ 32))
signed32-cases a h = elim (Bool-cases (ltb a (2 ^ 31))) [
  | inl t ↦ inl (rw t)
  | inr t ↦ inr (2 ^ 32 - a - 1, rw t, omega arith)
]

wrap_sub :
    (p q r m k : ℕ) → p + 2 ^ 32 * m ≡ r + q + 2 ^ 32 * k → wrap_ℤ 32 (sub_ℕ p q) ≡ r % 2 ^ 32
wrap_sub p q r m k e = ground arith

pub low_word :
    (a b : ℕ) → a < 2 ^ 32 → b < 2 ^ 32 → wrap_ℤ 32 (signed32 a *ℤ signed32 b) ≡ a * b % 2 ^ 32
unfolding ◌*ℤ◌
low_word a b ha hb = elim (signed32-cases a ha) [
  | inl p ↦ elim (signed32-cases b hb) [
    | inl q ↦ rw (p, q) (wrap_sub _ _ (a * b) 0 0 (omega arith))
    | inr (n, q, e) ↦ rw (p, q) (wrap_sub _ _ (a * b) a 0 (omega (arith, ap (λ (t : ℕ). a * t) e)))
  ]
  | inr (m, p, d) ↦ elim (signed32-cases b hb) [
    | inl q ↦ rw (p, q) (wrap_sub _ _ (a * b) b 0 (omega (arith, ap (λ (t : ℕ). t * b) d)))
    | inr (n, q, e) ↦
        rw (p, q)
          (wrap_sub _ _ (a * b) (a + b) (2 ^ 32)
            (omega (arith, ap (λ (t : ℕ). a * t) e, ap (λ (t : ℕ). t * suc n) d)))
  ]
]

word_product : (a b : ℕ) → a < 2 ^ 32 → b < 2 ^ 32 → a * b < 2 ^ 64
word_product a b ha hb = grind arith

-- On a state of machine words, `mulhwu` gives the high word of the unsigned product of rA and rB, and
-- `mullw` its low word; CR0 describes the word where Rc is set, and nothing else changes.
mulhwu-mullw :
    (rec : Bool) (s : State) (op : ℕ)
    → IsWord s
    → (hi lo : ℕ) × IsWrite rec (reg_d op) hi s (mulhwu rec s op)
      × IsWrite rec (reg_d op) lo s (mullw rec false s op)
      × (hi * 2 ^ 32 + lo ≡ s.gpr (reg_a op) * s.gpr (reg_b op))
unfolding mulhwu mullw
mulhwu-mullw rec s op w =
    let a = s.gpr (reg_a op) in
    let b = s.gpr (reg_b op) in
    let ha = w.gpr_lt (reg_a op) in
    let hb = w.gpr_lt (reg_b op) in
    (
      u32 (a * b / 2 ^ 32),
      wrap_ℤ 32 (signed32 a *ℤ signed32 b),
      IsWrite-end rec (reg_d op) _ s,
      IsWrite-end rec (reg_d op) _ s,
      omega (arith, low_word a b ha hb, word_product a b ha hb),
    )

-- On a state of machine words, `mulhw` and `mullw` give the two words of the signed product of rA and
-- rB, and `mulhwu` and `mullw` those of the unsigned product; CR0 describes the word where Rc is set, and
-- nothing else changes.
pub products-IsWrite :
    (rec : Bool) (s : State) (op : ℕ)
    → IsWord s
    → ((hi lo : ℕ) × IsWrite rec (reg_d op) hi s (mulhw rec s op)
        × IsWrite rec (reg_d op) lo s (mullw rec false s op)
        × (double_word hi lo ≡ signed32 (s.gpr (reg_a op)) *ℤ signed32 (s.gpr (reg_b op))))
      × ((hi lo : ℕ) × IsWrite rec (reg_d op) hi s (mulhwu rec s op)
          × IsWrite rec (reg_d op) lo s (mullw rec false s op)
          × (hi * 2 ^ 32 + lo ≡ s.gpr (reg_a op) * s.gpr (reg_b op)))
products-IsWrite rec s op w = (mulhw-mullw rec s op w, mulhwu-mullw rec s op w)
