-- ===== src/Cpu/Effect.antt =====
-- What an instruction promises that writes a general register, XER and MQ, and may record in CR0.
use chungusppc.Common.{
  ℕ, ◌^◌, ◌<◌, ◌≡◌, ◌≢◌, refl, arith, ap, ◌∙◌, Bool, true, false, ◌==◌, if◌then◌else◌, bit, to_nat,
}
use chungusppc.Common.{bit_and, bit_or, not32}
use chungusppc.Common.Bits.{bit-bit_or}
use chungusppc.Common.Bits.Shifts.{bit-pow}
use chungusppc.Common.Bits.Merge.{bit_clear}
use chungusppc.Cpu.State.{State, set_gpr}
use chungusppc.Cpu.Flags.{changecrf0, set_so_ov, clear_ov}
use chungusppc.Cpu.Flags.Bits.{xer_bit, cr0_bit, ov_bit, changecrf0-cr0_bit}
use chungusppc.Cpu.Shift.{set_ca, clear_ca}

-- The bits of XER: kept, with the overflow flags, and with the carry flag.
abbrev pub keep_bits : State → ℕ → ℕ
keep_bits s i = xer_bit s i

abbrev pub ov_bits : Bool → Bool → State → ℕ → ℕ
ov_bits ov t s i = if ov then ov_bit s t i else xer_bit s i

abbrev pub ca_bits : Bool → State → ℕ → ℕ
ca_bits ca s i = if i == 29 then to_nat ca else xer_bit s i

-- `s'` is `s` after register `r` got `v`, MQ got `q` and XER the bits `x`; with `rec`, CR0 describes
-- the number `c`.
pub record IsEffect (rec : Bool) (r v c q : ℕ) (x : ℕ → ℕ) (s s' : State) : Type 0 where
  pub result : s'.gpr r ≡ v
  pub other_gpr : (j : ℕ) → j ≢ r → s'.gpr j ≡ s.gpr j
  pub xer : (i : ℕ) → i < 32 → xer_bit s' i ≡ x i
  pub mq : s'.spr 0 ≡ q
  pub other_spr : (j : ℕ) → j ≢ 0 → j ≢ 1 → s'.spr j ≡ s.spr j
  pub cr : (i : ℕ) → i < 32 → bit s'.cr i ≡ (if rec then cr0_bit s.cr (x 31) c i else bit s.cr i)
  pub keeps :
      (s'.pc ≡ s.pc)
      × (s'.msr ≡ s.msr)
      × (s'.sr ≡ s.sr)
      × (s'.reserve ≡ s.reserve)
      × (s'.next_pc ≡ s.next_pc)
      × (s'.exec_flags ≡ s.exec_flags)

module _ (r v c q : ℕ) (s : State) (x f : ℕ → ℕ) (mq : f 0 ≡ q)
    (bits : (i : ℕ) → i < 32 → bit (f 1) i ≡ x i)
    (other : (j : ℕ) → j ≢ 0 → j ≢ 1 → f j ≡ s.spr j) where
  pub IsEffect-end :
      (rec : Bool)
      → let s1 = record s { spr = f } in
        IsEffect rec r v c q x s (set_gpr (if rec then changecrf0 s1 c else s1) r v)
  unfolding changecrf0
  IsEffect-end true = record {
    result = ground arith;
    other_gpr = λ j ne. ground arith;
    xer = bits;
    mq = mq;
    other_spr = other;
    cr = λ i h.
        changecrf0-cr0_bit (record s { spr = f }) c i h
        ∙ ap (λ t. cr0_bit s.cr t c i) (bits 31 (omega arith));
    keeps = (refl, refl, refl, refl, refl, refl);
  }
  IsEffect-end false = record {
    result = ground arith;
    other_gpr = λ j ne. ground arith;
    xer = bits;
    mq = mq;
    other_spr = other;
    cr = λ i h. refl;
    keeps = (refl, refl, refl, refl, refl, refl);
  }

-- The special registers may have a new MQ before the flags are set.
module _ (r v c q : ℕ) (s : State) (g : ℕ → ℕ) (mq : g 0 ≡ q) (xer : g 1 ≡ s.spr 1)
    (other : (j : ℕ) → j ≢ 0 → j ≢ 1 → g j ≡ s.spr j) where
  pub keep_end :
      (rec : Bool)
      → let s1 = record s { spr = g } in
        IsEffect rec r v c q (keep_bits s) s (set_gpr (if rec then changecrf0 s1 c else s1) r v)
  keep_end rec = IsEffect-end r v c q s (keep_bits s) g mq (λ i h. ap (λ t. bit t i) xer) other rec

  set_so_ov-bit :
      (i : ℕ) → i < 32 → bit (bit_or (g 1) (bit_or (2 ^ 31) (2 ^ 30))) i ≡ ov_bit s true i
  set_so_ov-bit i h = rw xer (
      ground (
        arith,
        bit-bit_or i (s.spr 1) (bit_or (2 ^ 31) (2 ^ 30)),
        bit-bit_or i (2 ^ 31) (2 ^ 30),
        bit-pow 30 i,
        bit-pow 31 i,
      ))

  clear_ov-bit : (i : ℕ) → i < 32 → bit (bit_and (g 1) (not32 (2 ^ 30))) i ≡ ov_bit s false i
  clear_ov-bit i h =
      rw xer (ground (arith, bit_clear (s.spr 1) (2 ^ 30) i (omega arith) h, bit-pow 30 i))

  pub ov_end :
      (rec ov t : Bool)
      → let s1 = record s { spr = g } in
        let s2 = if ov then if t then set_so_ov s1 else clear_ov s1 else s1 in
        IsEffect rec r v c q (ov_bits ov t s) s (set_gpr (if rec then changecrf0 s2 c else s2) r v)
  ov_end rec true true =
      IsEffect-end r v c q s (ov_bits true true s) (set_so_ov (record s { spr = g })).spr mq
        set_so_ov-bit (λ j p n. ground (arith, other j)) rec
  ov_end rec true false =
      IsEffect-end r v c q s (ov_bits true false s) (clear_ov (record s { spr = g })).spr mq
        clear_ov-bit (λ j p n. ground (arith, other j)) rec
  ov_end rec false t = keep_end rec

  pub set_ca-bit : (i : ℕ) → i < 32 → bit (bit_or (g 1) (2 ^ 29)) i ≡ ca_bits true s i
  set_ca-bit i h = rw xer (ground (arith, bit-bit_or i (s.spr 1) (2 ^ 29), bit-pow 29 i))

  pub clear_ca-bit : (i : ℕ) → i < 32 → bit (bit_and (g 1) (not32 (2 ^ 29))) i ≡ ca_bits false s i
  clear_ca-bit i h =
      rw xer (ground (arith, bit_clear (s.spr 1) (2 ^ 29) i (omega arith) h, bit-pow 29 i))

  pub ca_end :
      (rec ca : Bool)
      → let s1 = record s { spr = g } in
        let s2 = if ca then set_ca s1 else clear_ca s1 in
        IsEffect rec r v c q (ca_bits ca s) s (set_gpr (if rec then changecrf0 s2 c else s2) r v)
  ca_end rec true =
      IsEffect-end r v c q s (ca_bits true s) (set_ca (record s { spr = g })).spr mq set_ca-bit
        (λ j p n. ground (arith, other j)) rec
  ca_end rec false =
      IsEffect-end r v c q s (ca_bits false s) (clear_ca (record s { spr = g })).spr mq clear_ca-bit
        (λ j p n. ground (arith, other j)) rec
