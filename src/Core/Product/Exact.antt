-- ===== src/Core/Product/Exact.antt =====
-- The two parts that core/mathutils.h computes make up the product, none of it lost.
use chungusppc.Common.{ℕ, ◌+◌, ◌-◌, ◌*◌, ◌/◌, ◌%◌, ◌^◌, ◌≤◌, ◌<◌, ◌≡◌, ap, ◌∙◌, arith}
use chungusppc.Core.Product.{Product, u32xu64, u32xu64_whole, u64xu64}

-- `lo` has `k` bits and `hi` has `h` bits; together they are `n`.
abbrev pub IsParts : ℕ → ℕ → ℕ → Product → Type 0
IsParts h k n p = (p.hi * 2 ^ k + p.lo ≡ n) × (p.hi < 2 ^ h) × (p.lo < 2 ^ k)

pub times_bound : (a b : ℕ) (m n : ℕ) → a ≤ m → b ≤ n → a * b ≤ m * n
times_bound a b m n h g = grind arith

spread_lem : (a q r : ℕ) → q * a * 2 ^ 32 + r * a ≡ a * (q * 2 ^ 32 + r)
spread_lem a q r = grind arith

split_lem : (a b : ℕ) → b / 2 ^ 32 * a * 2 ^ 32 + b % 2 ^ 32 * a ≡ a * b
split_lem a b =
    let whole : b / 2 ^ 32 * 2 ^ 32 + b % 2 ^ 32 ≡ b = omega arith in
    spread_lem a (b / 2 ^ 32) (b % 2 ^ 32) ∙ ap (λ n. a * n) whole

pub u32xu64-IsParts : (a b : ℕ) → a < 2 ^ 32 → b < 2 ^ 64 → IsParts 32 64 (a * b) (u32xu64 a b)
unfolding u32xu64
u32xu64-IsParts a b h g =
    let low = times_bound (b % 2 ^ 32) a (2 ^ 32 - 1) (2 ^ 32 - 1) (omega arith) (omega arith) in
    let high = times_bound (b / 2 ^ 32) a (2 ^ 32 - 1) (2 ^ 32 - 1) (omega arith) (omega arith) in
    let whole = split_lem a b in ground (arith, low, high, whole)

pub u32xu64_whole-IsParts :
    (a b : ℕ) → a < 2 ^ 32 → b < 2 ^ 64 → IsParts 64 32 (a * b) (u32xu64_whole a b)
unfolding u32xu64_whole
u32xu64_whole-IsParts a b h g =
    let low = times_bound (b % 2 ^ 32) a (2 ^ 32 - 1) (2 ^ 32 - 1) (omega arith) (omega arith) in
    let high = times_bound (b / 2 ^ 32) a (2 ^ 32 - 1) (2 ^ 32 - 1) (omega arith) (omega arith) in
    let whole = split_lem a b in ground (arith, low, high, whole)

pub u64xu64-IsParts : (a b : ℕ) → a < 2 ^ 64 → b < 2 ^ 64 → IsParts 64 64 (a * b) (u64xu64 a b)
unfolding u64xu64
u64xu64-IsParts a b h g =
    let low = u32xu64-IsParts (b % 2 ^ 32) a (omega arith) h in
    let high = u32xu64_whole-IsParts (b / 2 ^ 32 % 2 ^ 32) a (omega arith) h in
    let same : b / 2 ^ 32 % 2 ^ 32 ≡ b / 2 ^ 32 = omega arith in
    let top = ap (λ n. n * a) same in
    let whole = split_lem a b in
    let bound = times_bound a b (2 ^ 64 - 1) (2 ^ 64 - 1) (omega arith) (omega arith) in
    ground (arith, low, high, top, whole, bound)

-- The products of a word `w` with a double word `b`, and of two double words, put the whole product
-- into their two parts, each within its width.
products-IsParts :
    (w a b : ℕ)
    → w < 2 ^ 32
    → a < 2 ^ 64
    → b < 2 ^ 64
    → IsParts 32 64 (w * b) (u32xu64 w b)
      × IsParts 64 32 (w * b) (u32xu64_whole w b)
      × IsParts 64 64 (a * b) (u64xu64 a b)
products-IsParts w a b h g k =
    (u32xu64-IsParts w b h k, u32xu64_whole-IsParts w b h k, u64xu64-IsParts a b g k)
