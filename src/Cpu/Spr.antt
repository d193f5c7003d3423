-- ===== src/Cpu/Spr.antt =====
-- enum SPR of cpu/ppc/ppcemu.h.
use chungusppc.Common.{ℕ}

abbrev pub mq : ℕ
mq = 0

abbrev pub xer : ℕ
xer = 1

abbrev pub lr : ℕ
lr = 8

abbrev pub ctr : ℕ
ctr = 9

abbrev pub dsisr : ℕ
dsisr = 18

abbrev pub dar : ℕ
dar = 19

abbrev pub srr0 : ℕ
srr0 = 26

abbrev pub srr1 : ℕ
srr1 = 27

abbrev pub ear : ℕ
ear = 282

abbrev pub hid0 : ℕ
hid0 = 1008

abbrev pub sdr1 : ℕ
sdr1 = 25

-- The registers of the 603 for its software-loaded buffers
abbrev pub dmiss : ℕ
dmiss = 976

abbrev pub dcmp : ℕ
dcmp = 977

abbrev pub hash1 : ℕ
hash1 = 978

abbrev pub hash2 : ℕ
hash2 = 979

abbrev pub imiss : ℕ
imiss = 980

abbrev pub icmp : ℕ
icmp = 981

abbrev pub rpa : ℕ
rpa = 982
