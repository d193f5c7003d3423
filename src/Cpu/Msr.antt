-- ===== src/Cpu/Msr.antt =====
-- enum MSR of cpu/ppc/ppcemu.h.
use chungusppc.Common.{ℕ, ◌^◌}

abbrev pub le : ℕ
le = 2 ^ 0

abbrev pub dr : ℕ
dr = 2 ^ 4

abbrev pub ir : ℕ
ir = 2 ^ 5

abbrev pub ip : ℕ
ip = 2 ^ 6

abbrev pub fp : ℕ
fp = 2 ^ 13

abbrev pub pr : ℕ
pr = 2 ^ 14

abbrev pub ee : ℕ
ee = 2 ^ 15

abbrev pub ile : ℕ
ile = 2 ^ 16

abbrev pub tgpr : ℕ
tgpr = 2 ^ 17

abbrev pub pow : ℕ
pow = 2 ^ 18
