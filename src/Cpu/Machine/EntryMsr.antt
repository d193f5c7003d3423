-- ===== src/Cpu/Machine/EntryMsr.antt =====
-- The machine state register that an exception sets (`ppc_exception_handler` of
-- cpu/ppc/ppcexceptions.cpp), bit by bit.
use chungusppc.Common.{
  ℕ, zero, suc, ◌*◌, ◌^◌, ◌<◌, ◌≡◌, ◌==◌, ◌&&◌, refl, ◌∙◌, ap, Bool, true, false, if◌then◌else◌,
  bit, bit_and, bit_or, not32, truth, to_nat, arith,
}
use chungusppc.Common.Bits.{bit-lt, bit-bit_and, bit-bit_or}
use chungusppc.Common.Bits.Shifts.{bit-pow, bit_and-pow, two-pow-pos}
use chungusppc.Common.Bits.Merge.{bit_clear}
use chungusppc.Cpu.State.{State}
use chungusppc.Cpu.Msr
use chungusppc.Cpu.Machine.Handler.{ExceptType, is_tlb_miss, entry_msr}

positive_test : (b p : ℕ) → b < 2 → 0 < p → truth (b * p) ≡ (b == 1)
positive_test zero p h g = ground arith
positive_test (suc zero) p h g = ground arith
positive_test (suc (suc b)) p h g = absurd (omega arith)

-- A test of one bit of a word.
pub truth-bit_and : (k x : ℕ) → truth (bit_and x (2 ^ k)) ≡ (bit x k == 1)
truth-bit_and k x =
    ap truth (bit_and-pow k x) ∙ positive_test (bit x k) (2 ^ k) (bit-lt x k) (two-pow-pos k)

-- The machine state register before LE is set.
abbrev plain_msr : Bool → Bool → ℕ → ℕ
plain_msr is_603 miss msr =
    let kept = bit_and msr 0xfffb_1041 in
    let regular = bit_and kept (not32 Msr.tgpr) in
    if is_603 then (if miss then bit_or regular Msr.tgpr else regular) else kept

abbrev pub plain_bit : Bool → Bool → ℕ → ℕ → ℕ
plain_bit is_603 miss msr i =
    if is_603 && i == 17 then to_nat miss else if bit 0xfffb_1041 i == 1 then bit msr i else 0

pub kept-bit :
    (msr mask i : ℕ) → bit (bit_and msr mask) i ≡ (if bit mask i == 1 then bit msr i else 0)
kept-bit msr mask i = ground (arith, bit-bit_and i msr mask, bit-lt msr i, bit-lt mask i)

plain_msr-bit :
    (is_603 miss : Bool) (msr i : ℕ)
    → i < 32
    → bit (plain_msr is_603 miss msr) i ≡ plain_bit is_603 miss msr i
plain_msr-bit false miss msr i h = kept-bit msr 0xfffb_1041 i
plain_msr-bit true false msr i h = ground (
  arith,
  bit_clear (bit_and msr 0xfffb_1041) (2 ^ 17) i (omega arith) h,
  bit-pow 17 i,
  kept-bit msr 0xfffb_1041 i,
)
plain_msr-bit true true msr i h = ground (
  arith,
  bit-bit_or i (bit_and (bit_and msr 0xfffb_1041) (not32 Msr.tgpr)) (2 ^ 17),
  bit_clear (bit_and msr 0xfffb_1041) (2 ^ 17) i (omega arith) h,
  bit-pow 17 i,
  kept-bit msr 0xfffb_1041 i,
)

-- Bit i of the new register: LE is that of a 601, or ILE; TGPR of a 603 tells a TLB miss; of the
-- others those that the mask names are kept.
abbrev pub entry_bit : ExceptType → State → ℕ → ℕ
entry_bit ty s i =
    if i == 0
    then bit s.msr (if s.is_601 then 0 else 16)
    else plain_bit s.is_603 (is_tlb_miss ty) s.msr i

flag-bit : (t : Bool) (i : ℕ) → bit (to_nat t) i ≡ (if i == 0 then to_nat t else 0)
flag-bit true i = ground (arith, bit-pow 0 i)
flag-bit false i = ground arith

-- MSR[LE] is set to MSR[ILE].
with_le-bit :
    (m i : ℕ)
    → i < 32
    → bit (bit_or (bit_and m (not32 Msr.le)) (to_nat (truth (bit_and m Msr.ile)))) i
      ≡ (if i == 0 then bit m 16 else bit m i)
with_le-bit m i h = ground (
  arith,
  bit-bit_or i (bit_and m (not32 Msr.le)) (to_nat (truth (bit_and m Msr.ile))),
  bit_clear m (2 ^ 0) i (omega arith) h,
  bit-pow 0 i,
  flag-bit (truth (bit_and m Msr.ile)) i,
  ap to_nat (truth-bit_and 16 m),
)

plain_bit-low : (is_603 miss : Bool) (msr : ℕ) → plain_bit is_603 miss msr 0 ≡ bit msr 0
plain_bit-low true miss msr = refl
plain_bit-low false miss msr = refl

plain_bit-ile : (is_603 miss : Bool) (msr : ℕ) → plain_bit is_603 miss msr 16 ≡ bit msr 16
plain_bit-ile true miss msr = refl
plain_bit-ile false miss msr = refl

pub plain_bit-ip : (is_603 miss : Bool) (msr : ℕ) → plain_bit is_603 miss msr 6 ≡ bit msr 6
plain_bit-ip true miss msr = refl
plain_bit-ip false miss msr = refl

abbrev entry_of : Bool → Bool → Bool → ℕ → ℕ
entry_of is_601 is_603 miss msr =
    let m = plain_msr is_603 miss msr in
    if is_601 then m else bit_or (bit_and m (not32 Msr.le)) (to_nat (truth (bit_and m Msr.ile)))

entry_of-bit :
    (is_601 is_603 miss : Bool) (msr i : ℕ)
    → i < 32
    → bit (entry_of is_601 is_603 miss msr) i
      ≡ (if i == 0 then bit msr (if is_601 then 0 else 16) else plain_bit is_603 miss msr i)
entry_of-bit true is_603 miss msr zero h =
    plain_msr-bit is_603 miss msr 0 h ∙ plain_bit-low is_603 miss msr
entry_of-bit true is_603 miss msr (suc i) h =
    ground (arith, plain_msr-bit is_603 miss msr (suc i) h)
entry_of-bit false is_603 miss msr zero h =
    with_le-bit (plain_msr is_603 miss msr) 0 h
    ∙ plain_msr-bit is_603 miss msr 16 (omega arith)
    ∙ plain_bit-ile is_603 miss msr
entry_of-bit false is_603 miss msr (suc i) h =
    with_le-bit (plain_msr is_603 miss msr) (suc i) h
    ∙ ground (arith, plain_msr-bit is_603 miss msr (suc i) h)

pub entry_msr-bit :
    (ty : ExceptType) (s : State) (i : ℕ) → i < 32 → bit (entry_msr ty s) i ≡ entry_bit ty s i
unfolding entry_msr
entry_msr-bit ty s i h = entry_of-bit s.is_601 s.is_603 (is_tlb_miss ty) s.msr i h
