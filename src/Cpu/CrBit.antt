-- ===== src/Cpu/CrBit.antt =====
-- enum CRx_bit of cpu/ppc/ppcemu.h.
use chungusppc.Common.{ℕ, ◌^◌}

abbrev pub so : ℕ
so = 2 ^ 28

abbrev pub eq : ℕ
eq = 2 ^ 29

abbrev pub gt : ℕ
gt = 2 ^ 30

abbrev pub lt : ℕ
lt = 2 ^ 31
