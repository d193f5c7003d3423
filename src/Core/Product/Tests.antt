-- ===== src/Core/Product/Tests.antt =====
-- Runs of the products of core/mathutils.h, with a carry between the parts.
use chungusppc.Common.{◌≡◌, refl}
use chungusppc.Core.Product.{u32xu64, u32xu64_whole, u64xu64}

u32xu64_largest :
    u32xu64 0xffff_ffff 0xffff_ffff_ffff_ffff
    ≡ record { hi = 0xffff_fffe; lo = 0xffff_ffff_0000_0001 }
unfolding u32xu64
u32xu64_largest = refl

u32xu64_whole_half : u32xu64_whole 0x8000_0000 5 ≡ record { hi = 2; lo = 0x8000_0000 }
unfolding u32xu64_whole
u32xu64_whole_half = refl

u64xu64_largest :
    u64xu64 0xffff_ffff_ffff_ffff 0xffff_ffff_ffff_ffff
    ≡ record { hi = 0xffff_ffff_ffff_fffe; lo = 1 }
unfolding u64xu64 u32xu64 u32xu64_whole
u64xu64_largest = refl
