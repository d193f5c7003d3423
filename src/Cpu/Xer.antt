-- ===== src/Cpu/Xer.antt =====
-- enum XER of cpu/ppc/ppcemu.h.
use chungusppc.Common.{ℕ, ◌^◌}

abbrev pub ca : ℕ
ca = 2 ^ 29

abbrev pub ov : ℕ
ov = 2 ^ 30

abbrev pub so : ℕ
so = 2 ^ 31
