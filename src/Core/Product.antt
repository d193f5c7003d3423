-- ===== src/Core/Product.antt =====
-- core/mathutils.h: the products of 96 and 128 bits, as a high and a low part.
pub mod Exact
mod Tests
use chungusppc.Common.{ℕ, ◌+◌, ◌*◌, ◌%◌, ◌^◌, u32, u64, ltb, if◌then◌else◌, ◌>>>◌, ◌<<<◌}

-- The references `hi` and `lo` that a product is left in
pub record Product : Type 0 where
  pub hi : ℕ
  pub lo : ℕ

-- _u32xu64 with a high part of 32 bits
unfoldable pub u32xu64 : ℕ → ℕ → Product
u32xu64 a b =
    let p0 = u64 (b % 2 ^ 32 * a) in
    let p1 = u64 ((b >>> 32) * a) in
    let lo = u64 (p0 + u64 (p1 <<< 32)) in
    record { hi = u32 ((p1 >>> 32) + (if ltb lo p0 then 1 else 0)); lo = lo }

-- _u32xu64 with a low part of 32 bits
unfoldable pub u32xu64_whole : ℕ → ℕ → Product
u32xu64_whole a b =
    let p0 = u64 (b % 2 ^ 32 * a) in
    let p1 = u64 ((b >>> 32) * a) in record { hi = u64 ((p0 >>> 32) + p1); lo = u32 p0 }

unfoldable pub u64xu64 : ℕ → ℕ → Product
u64xu64 a b =
    let p0 = u32xu64 (u32 b) a in
    let p1 = u32xu64_whole (u32 (b >>> 32)) a in
    let lo = u64 (p0.lo + u64 (p1.lo <<< 32)) in
    record { hi = u64 (p0.hi + p1.hi + (if ltb lo (p0.lo) then 1 else 0)); lo = lo }
