-- ===== src/Common/Bits/Halves.antt =====
-- The high and the low half of a word: kept by a mask, joined by `|`.
use chungusppc.Common.{
  ℕ, zero, suc, ◌+◌, ◌*◌, ◌/◌, ◌^◌, ◌<◌, ◌≡◌, ◌∙◌, ap, sym, arith, bit_and, bit_or,
}
use native.Mathlib.Nat.{pow-suc, div-div-eq-div-mul}
use chungusppc.Common.Bits.Step.{bit_and_step, bit_or_step, bit_or-zero, bit_or-zero_left}

twice_lem : (q p : ℕ) → q * (p * 2) ≡ q * p * 2
twice_lem q p = grind arith

shl_suc : (k q : ℕ) → q * 2 ^ suc k ≡ q * 2 ^ k * 2
shl_suc k q =
    let power : 2 ^ suc k ≡ 2 ^ k * 2 = omega (arith, pow-suc 2 k) in
    ap (λ p. q * p) power ∙ twice_lem q (2 ^ k)

shr_suc : (k x : ℕ) → x / 2 ^ suc k ≡ x / 2 / 2 ^ k
shr_suc k x =
    let power : 2 ^ suc k ≡ 2 * 2 ^ k = omega (arith, pow-suc 2 k) in
    ap (λ p. x / p) power ∙ sym (div-div-eq-div-mul x 2 (2 ^ k))

-- Bits from `k` on joined with bits below `k`
pub bit_or-join : (k q v : ℕ) → v < 2 ^ k → bit_or (q * 2 ^ k) v ≡ q * 2 ^ k + v
bit_or-join zero q v h =
    let none_below : v ≡ 0 = omega arith in
    let whole : q * 2 ^ 0 ≡ q = omega arith in rw (none_below, whole) (bit_or-zero q ∙ omega arith)
bit_or-join (suc k) q v h =
    let double = shl_suc k q in
    let rest = bit_or-join k q (v / 2) (omega (arith, pow-suc 2 k)) in
    let half : q * 2 ^ k * 2 / 2 ≡ q * 2 ^ k = omega arith in
    rw (double, bit_or_step (q * 2 ^ k * 2) v, half, rest) (omega arith)

pub bit_or-join_right : (k q v : ℕ) → v < 2 ^ k → bit_or v (q * 2 ^ k) ≡ q * 2 ^ k + v
bit_or-join_right zero q v h =
    let none_below : v ≡ 0 = omega arith in
    rw none_below (bit_or-zero_left (q * 2 ^ 0) ∙ omega arith)
bit_or-join_right (suc k) q v h =
    let double = shl_suc k q in
    let rest = bit_or-join_right k q (v / 2) (omega (arith, pow-suc 2 k)) in
    let half : q * 2 ^ k * 2 / 2 ≡ q * 2 ^ k = omega arith in
    rw (double, bit_or_step v (q * 2 ^ k * 2), half, rest) (omega arith)

-- The bits from `k` on
pub bit_and-high :
    (k m x : ℕ) → bit_and (x / 2 ^ k) m ≡ x / 2 ^ k → bit_and x (m * 2 ^ k) ≡ x / 2 ^ k * 2 ^ k
bit_and-high zero m x h =
    let whole : x / 2 ^ 0 ≡ x = omega arith in
    let mask : m * 2 ^ 0 ≡ m = omega arith in
    ap (λ n. bit_and x n) mask ∙ ap (λ n. bit_and n m) (sym whole) ∙ h ∙ omega arith
bit_and-high (suc k) m x h =
    let half : m * 2 ^ k * 2 / 2 ≡ m * 2 ^ k = omega arith in
    let rest =
      bit_and-high k m (x / 2) (ap (λ n. bit_and n m) (sym (shr_suc k x)) ∙ h ∙ shr_suc k x) in
    rw
      (
        shl_suc k m,
        shl_suc k (x / 2 ^ suc k),
        shr_suc k x,
        bit_and_step x (m * 2 ^ k * 2),
        half,
        rest,
      )
      (omega arith)
