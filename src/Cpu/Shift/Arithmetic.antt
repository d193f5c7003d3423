-- ===== src/Cpu/Shift/Arithmetic.antt =====
-- The arithmetic shifts to the right: a floor division of the signed number, with the carry.
use chungusppc.Common.{
  ℕ, ◌+◌, ◌-◌, ◌%◌, ◌^◌, ◌<◌, ◌≡◌, ◌≢◌, refl, ap, sym, ◌∙◌, arith, Bool, true, false, ◌==◌,
  if◌then◌else◌, bit, truth, to_nat, ◌&&◌, min, is_neg,
}
use chungusppc.Common.{bit_and, not32, inl, inr, Bool-cases}
use chungusppc.Common.Int.{signed32, shr_ℤ}
use mathlib.Core.Path.{subst}
use native.Mathlib.Nat.{mod-eq_of_lt}
use chungusppc.Common.Bits.{bit-bit_or}
use chungusppc.Common.Bits.Shifts.{bit_and-pow, bit-pow, pow-add, two-pow-pos}
use chungusppc.Common.Bits.Merge.{bit_and-mask, bit_clear}
use chungusppc.Cpu.State.{State, IsWord, set_gpr}
use chungusppc.Cpu.Decode.{reg_a, reg_b, reg_d}
use chungusppc.Cpu.Flags.{changecrf0}
use chungusppc.Cpu.Flags.Bits.{xer_bit, cr0_bit, changecrf0-cr0_bit}
use chungusppc.Cpu.Shift.{sraw, srawi, sar32, set_ca, clear_ca}
use chungusppc.Cpu.Shift.Amount.{signed32-sar32}

-- `s'` is `s` after register `r` got `v` and XER[CA] the flag `ca`.
pub record IsCarryWrite (rec : Bool) (r v : ℕ) (ca : Bool) (s s' : State) : Type 0 where
  pub result : s'.gpr r ≡ v
  pub other_gpr : (j : ℕ) → j ≢ r → s'.gpr j ≡ s.gpr j
  pub xer : (i : ℕ) → i < 32 → xer_bit s' i ≡ (if i == 29 then to_nat ca else xer_bit s i)
  pub other_spr : (j : ℕ) → j ≢ 1 → s'.spr j ≡ s.spr j
  pub cr :
      (i : ℕ) → i < 32 → bit s'.cr i ≡ (if rec then cr0_bit s.cr (xer_bit s 31) v i else bit s.cr i)
  pub keeps :
      (s'.pc ≡ s.pc)
      × (s'.msr ≡ s.msr)
      × (s'.sr ≡ s.sr)
      × (s'.reserve ≡ s.reserve)
      × (s'.next_pc ≡ s.next_pc)
      × (s'.exec_flags ≡ s.exec_flags)

-- XER with CA cleared, and set again if the flag says so.
abbrev put_ca : Bool → State → State
put_ca ca s = if ca then set_ca (clear_ca s) else clear_ca s

put_ca-xer_bit :
    (ca : Bool) (s : State) (i : ℕ)
    → i < 32
    → xer_bit (put_ca ca s) i ≡ (if i == 29 then to_nat ca else xer_bit s i)
put_ca-xer_bit true s i h = ground (
  arith,
  bit-bit_or i (bit_and (s.spr 1) (not32 (2 ^ 29))) (2 ^ 29),
  bit_clear (s.spr 1) (2 ^ 29) i (omega arith) h,
  bit-pow 29 i,
)
put_ca-xer_bit false s i h =
    ground (arith, bit_clear (s.spr 1) (2 ^ 29) i (omega arith) h, bit-pow 29 i)

IsCarryWrite-end :
    (rec ca : Bool) (r v : ℕ) (s : State)
    → let s1 = put_ca ca s in
      IsCarryWrite rec r v ca s (set_gpr (if rec then changecrf0 s1 v else s1) r v)
unfolding changecrf0
IsCarryWrite-end true true r v s = record {
  result = ground arith;
  other_gpr = λ j ne. ground arith;
  xer = put_ca-xer_bit true s;
  other_spr = λ j ne. ground arith;
  cr = λ i h.
      changecrf0-cr0_bit (put_ca true s) v i h
      ∙ ap (λ t. cr0_bit s.cr t v i) (put_ca-xer_bit true s 31 (omega arith));
  keeps = (refl, refl, refl, refl, refl, refl);
}
IsCarryWrite-end true false r v s = record {
  result = ground arith;
  other_gpr = λ j ne. ground arith;
  xer = put_ca-xer_bit false s;
  other_spr = λ j ne. ground arith;
  cr = λ i h.
      changecrf0-cr0_bit (put_ca false s) v i h
      ∙ ap (λ t. cr0_bit s.cr t v i) (put_ca-xer_bit false s 31 (omega arith));
  keeps = (refl, refl, refl, refl, refl, refl);
}
IsCarryWrite-end false true r v s = record {
  result = ground arith;
  other_gpr = λ j ne. ground arith;
  xer = put_ca-xer_bit true s;
  other_spr = λ j ne. ground arith;
  cr = λ i h. refl;
  keeps = (refl, refl, refl, refl, refl, refl);
}
IsCarryWrite-end false false r v s = record {
  result = ground arith;
  other_gpr = λ j ne. ground arith;
  xer = put_ca-xer_bit false s;
  other_spr = λ j ne. ground arith;
  cr = λ i h. refl;
  keeps = (refl, refl, refl, refl, refl, refl);
}

lost_bits : (d n : ℕ) → truth (bit_and d (2 ^ n - 1)) ≡ truth (d % 2 ^ n)
lost_bits d n = ap truth (bit_and-mask n d)

-- On a state of machine words, `srawi` divides rS, as a signed number, by a power of two and rounds
-- down; XER[CA] tells that rS is negative and that bits were lost, CR0 describes the result where Rc is
-- set, and nothing else changes.
srawi-IsCarryWrite :
    (rec : Bool) (s : State) (op : ℕ)
    → IsWord s
    → let x = s.gpr (reg_d op) in
      let n = reg_b op in
      (v : ℕ) × (signed32 v ≡ shr_ℤ (signed32 x) n)
      × IsCarryWrite rec (reg_a op) v (is_neg x && truth (x % 2 ^ n)) s (srawi rec s op)
unfolding srawi
srawi-IsCarryWrite rec s op w =
    let x = s.gpr (reg_d op) in
    let n = reg_b op in
    let whole =
      IsCarryWrite-end rec (is_neg x && truth (bit_and x (2 ^ n - 1))) (reg_a op) (sar32 x n) s in
    (
      sar32 x n,
      signed32-sar32 x n (w.gpr_lt (reg_d op)),
      subst (λ t. IsCarryWrite rec (reg_a op) (sar32 x n) (is_neg x && t) s (srawi rec s op))
          (lost_bits x n) whole,
    )

abbrev sraw_ca : ℕ → ℕ → Bool
sraw_ca x b =
    if truth (bit_and b 0x20)
    then truth (sar32 x 31)
    else is_neg x && truth (bit_and x (2 ^ bit_and b 0x1f - 1))

abbrev sraw_result : ℕ → ℕ → ℕ
sraw_result x b = if truth (bit_and b 0x20) then sar32 x 31 else sar32 x (bit_and b 0x1f)

sraw_carry : (x b : ℕ) → x < 2 ^ 32 → sraw_ca x b ≡ (is_neg x && truth (x % 2 ^ (b % 64)))
sraw_carry x b h = rw (bit_and-mask 5 b) (elim (Bool-cases (truth (bit_and b 0x20))) [
  | inl t ↦
      let high : b % 64 ≡ 32 + b % 32 = ground (arith, bit_and-pow 5 b) in
      let whole : x % 2 ^ (32 + b % 32) ≡ x =
        mod-eq_of_lt (omega (arith, pow-add 32 (b % 32), two-pow-pos (b % 32))) in
      rw (t, high, whole) (ground arith)
  | inr t ↦
      let low : b % 64 ≡ b % 32 = ground (arith, bit_and-pow 5 b) in
      rw (t, low, lost_bits x (b % 32))
])

sraw_value :
    (x b : ℕ) → x < 2 ^ 32 → signed32 (sraw_result x b) ≡ shr_ℤ (signed32 x) (min (b % 64) 31)
sraw_value x b h = rw (bit_and-mask 5 b) (elim (Bool-cases (truth (bit_and b 0x20))) [
  | inl t ↦
      let n : min (b % 64) 31 ≡ 31 = ground (arith, bit_and-pow 5 b) in
      rw (t, n) (signed32-sar32 x 31 h)
  | inr t ↦
      let n : min (b % 64) 31 ≡ b % 32 = ground (arith, bit_and-pow 5 b) in
      rw (t, n) (signed32-sar32 x (b % 32) h)
])

sraw-eq :
    (rec : Bool) (s : State) (op : ℕ)
    → let x = s.gpr (reg_d op) in
      let b = s.gpr (reg_b op) in
      let s1 = put_ca (sraw_ca x b) s in
      let v = sraw_result x b in
      sraw rec s op ≡ set_gpr (if rec then changecrf0 s1 v else s1) (reg_a op) v
unfolding sraw
sraw-eq rec s op = elim (Bool-cases (truth (bit_and (s.gpr (reg_b op)) 0x20))) [
  | inl t ↦ rw t
  | inr t ↦ rw t
]

-- On a state of machine words, `sraw` divides the signed rS by the power of two of rB modulo 64, and
-- rounds down; an amount of 32 or more leaves only the sign. XER[CA] tells that rS is negative and that
-- bits were lost, CR0 describes the result where Rc is set, and nothing else changes.
sraw-IsCarryWrite :
    (rec : Bool) (s : State) (op : ℕ)
    → IsWord s
    → let x = s.gpr (reg_d op) in
      let n = s.gpr (reg_b op) % 64 in
      (v : ℕ) × (signed32 v ≡ shr_ℤ (signed32 x) (min n 31))
      × IsCarryWrite rec (reg_a op) v (is_neg x && truth (x % 2 ^ n)) s (sraw rec s op)
unfolding sraw
sraw-IsCarryWrite rec s op w =
    let x = s.gpr (reg_d op) in
    let b = s.gpr (reg_b op) in
    let h = w.gpr_lt (reg_d op) in
    let v = sraw_result x b in
    let whole : IsCarryWrite rec (reg_a op) v (sraw_ca x b) s (sraw rec s op) =
      subst (IsCarryWrite rec (reg_a op) v (sraw_ca x b) s) (sym (sraw-eq rec s op))
        (IsCarryWrite-end rec (sraw_ca x b) (reg_a op) v s) in
    (
      v,
      sraw_value x b h,
      subst (λ t. IsCarryWrite rec (reg_a op) v t s (sraw rec s op)) (sraw_carry x b h) whole,
    )

-- On a state of machine words, `srawi` divides the signed rS by the power of two of its field, and
-- `sraw` by that of rB modulo 64, and they round down; an amount of 32 or more leaves only the sign.
-- XER[CA] tells that rS is negative and that bits were lost, CR0 describes the result where Rc is
-- set, and nothing else changes.
pub sra-IsCarryWrite :
    (rec : Bool) (s : State) (op : ℕ)
    → IsWord s
    → let x = s.gpr (reg_d op) in
      let n = reg_b op in
      let m = s.gpr (reg_b op) % 64 in
      ((v : ℕ) × (signed32 v ≡ shr_ℤ (signed32 x) n)
        × IsCarryWrite rec (reg_a op) v (is_neg x && truth (x % 2 ^ n)) s (srawi rec s op))
      × ((v : ℕ) × (signed32 v ≡ shr_ℤ (signed32 x) (min m 31))
          × IsCarryWrite rec (reg_a op) v (is_neg x && truth (x % 2 ^ m)) s (sraw rec s op))
sra-IsCarryWrite rec s op w = (srawi-IsCarryWrite rec s op w, sraw-IsCarryWrite rec s op w)
