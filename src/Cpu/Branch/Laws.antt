-- ===== src/Cpu/Branch/Laws.antt =====
-- When a conditional branch is taken, where it goes, and what it leaves in CTR and LR.
use chungusppc.Common.{
  ℕ, ◌+◌, ◌-◌, ◌*◌, ◌/◌, ◌%◌, ◌^◌, ◌<◌, ltb, ◌≡◌, ◌≢◌, refl, ap, ◌∙◌, arith, Bool, true, false,
  ◌==◌, if◌then◌else◌, bit, truth, to_nat, ◌&&◌, ◌||◌, not,
}
use chungusppc.Common.{bit_and, bit_or, u32, not32, sub32}
use mathlib.Core.Path.{subst₃, ap₂}
use chungusppc.Common.Bits.Step.{bit_or_step, bit_or-zero, bit_and_step}
use chungusppc.Common.Bits.Merge.{bit_and-mask}
use chungusppc.Common.Bits.Shifts.{bit_and-pow}
use chungusppc.Common.Bits.Bounds.{bit_and-lt_right}
use chungusppc.Cpu.State.{State, set_spr}
use chungusppc.Cpu.Spr
use chungusppc.Cpu.Condition.Single.{cr_flag, masked_bit}
use chungusppc.Cpu.Branch.{bc, bclr, br_bd, br_bo, br_bi, ctr_ok, cnd_ok, exef_branch}

-- The five bits of BO, the first being the most significant.
abbrev pub bo_bit : ℕ → ℕ → Bool
bo_bit op i = bit (br_bo op) (4 - i) == 1

abbrev same : Bool → Bool → Bool
same x y = if x then y else not y

-- The PowerPC rule: BO[2] ignores CTR, else BO[3] says whether it has to be zero; BO[0] ignores the
-- condition, else BO[1] says whether the bit BI has to be set.
abbrev pub taken : ℕ → ℕ → State → Bool
taken op ctr s =
    (bo_bit op 2 || same (bo_bit op 3) (ctr == 0))
    && (bo_bit op 0 || same (bo_bit op 1) (cr_flag s (br_bi op)))

or_truth : (x : ℕ) (t : Bool) → truth (bit_or x (to_nat t)) ≡ (truth x || t)
or_truth x true = ground (arith, bit_or_step x 1)
or_truth x false = ground (arith, bit_or-zero x)

ctr_ok-eq : (op ctr : ℕ) → ctr_ok (br_bo op) ctr ≡ (bo_bit op 2 || same (bo_bit op 3) (ctr == 0))
unfolding ctr_ok
ctr_ok-eq op ctr =
    or_truth (bit_and (br_bo op) 4) _
    ∙ ground (arith, bit_and-pow 2 (br_bo op), bit_and-pow 1 (br_bo op))

cnd_ok-eq :
    (op : ℕ) (s : State)
    → cnd_ok (br_bo op) (br_bi op) s.cr ≡ (bo_bit op 0 || same (bo_bit op 1) (cr_flag s (br_bi op)))
unfolding cnd_ok
cnd_ok-eq op s =
    or_truth (bit_and (br_bo op) 16) _
    ∙ ground (
      arith,
      bit_and-pow 4 (br_bo op),
      bit_and-pow 3 (br_bo op),
      masked_bit s (br_bi op) (bit_and-lt_right 5 _ 0x1f (omega arith)),
    )

-- CTR after a branch that counts it down unless BO[2] is set.
abbrev pub counted : ℕ → State → ℕ
counted op s = if bo_bit op 2 then s.spr Spr.ctr else sub32 (s.spr Spr.ctr) 1

-- After a branch: where the next instruction is, if it was taken, and CTR and LR.
pub record IsBranch (is_taken l : Bool) (target ctr : ℕ) (s s' : State) : Type 0 where
  pub next_pc : s'.next_pc ≡ (if is_taken then target else s.next_pc)
  pub flags : s'.exec_flags ≡ (if is_taken then exef_branch else s.exec_flags)
  pub ctr_spr : s'.spr Spr.ctr ≡ ctr
  pub lr_spr : s'.spr Spr.lr ≡ (if l then (s.pc + 4) % 2 ^ 32 else s.spr Spr.lr)
  pub other_spr : (r : ℕ) → r ≢ 8 → r ≢ 9 → s'.spr r ≡ s.spr r
  pub keeps :
      (s'.gpr ≡ s.gpr)
      × (s'.cr ≡ s.cr)
      × (s'.pc ≡ s.pc)
      × (s'.msr ≡ s.msr)
      × (s'.sr ≡ s.sr)
      × (s'.reserve ≡ s.reserve)

pub bo_test : (op : ℕ) → truth (bit_and (br_bo op) 4) ≡ bo_bit op 2
bo_test op = ground (arith, bit_and-pow 2 (br_bo op))

-- `bc` and `bclr` after their count: the two tests at the counted CTR.
abbrev finish : Bool → Bool → ℕ → State → State
finish t l target s1 =
    let s2 = if t then record s1 { next_pc = target; exec_flags = exef_branch } else s1 in
    if l then record s2 { spr = λ j. if j == 8 then u32 (s2.pc + 4) else s2.spr j } else s2

pub finish-IsBranch :
    (t l : Bool) (target : ℕ) (s : State) (f : ℕ → ℕ)
    → (f 8 ≡ s.spr 8)
    → ((r : ℕ) → r ≢ 8 → r ≢ 9 → f r ≡ s.spr r)
    → IsBranch t l target (f 9) s (finish t l target (record s { spr = f }))
finish-IsBranch true true target s f lr other = record {
  next_pc = refl;
  flags = refl;
  ctr_spr = refl;
  lr_spr = refl;
  other_spr = λ r p q. ground (arith, other r);
  keeps = (refl, refl, refl, refl, refl, refl);
}
finish-IsBranch true false target s f lr other = record {
  next_pc = refl;
  flags = refl;
  ctr_spr = refl;
  lr_spr = lr;
  other_spr = λ r p q. ground (arith, other r);
  keeps = (refl, refl, refl, refl, refl, refl);
}
finish-IsBranch false true target s f lr other = record {
  next_pc = refl;
  flags = refl;
  ctr_spr = refl;
  lr_spr = refl;
  other_spr = λ r p q. ground (arith, other r);
  keeps = (refl, refl, refl, refl, refl, refl);
}
finish-IsBranch false false target s f lr other = record {
  next_pc = refl;
  flags = refl;
  ctr_spr = refl;
  lr_spr = lr;
  other_spr = λ r p q. ground (arith, other r);
  keeps = (refl, refl, refl, refl, refl, refl);
}

-- CTR is counted down unless `keep`; the test and the target see the new CTR.
unfoldable pub counting : State → Bool → State
counting s keep = if keep then s else set_spr s Spr.ctr (sub32 (s.spr Spr.ctr) 1)

module _ (l : Bool) (s : State) (test : State → Bool) (target : State → ℕ) where
  pub count-IsBranch :
      (keep : Bool)
      → let s1 = counting s keep in
        IsBranch (test s1) l (target s1) (s1.spr Spr.ctr) s (finish (test s1) l (target s1) s1)
  unfolding counting
  count-IsBranch true = finish-IsBranch (test s) l (target s) s s.spr refl (λ r p q. refl)
  count-IsBranch false =
      let s1 = set_spr s Spr.ctr (sub32 (s.spr Spr.ctr) 1) in
      finish-IsBranch (test s1) l (target s1) s s1.spr refl (λ r p q. ground arith)

pub replace :
    {t t' l : Bool} {a a' c c' : ℕ} {s s' : State}
    → t ≡ t'
    → a ≡ a'
    → c ≡ c'
    → IsBranch t l a c s s'
    → IsBranch t' l a' c' s s'
replace {l = l} {s = s} {s' = s'} p q r h = subst₃ (λ t a c. IsBranch t l a c s s') p q r h

pub test-eq :
    (op ctr : ℕ) (s : State)
    → (ctr_ok (br_bo op) ctr && cnd_ok (br_bo op) (br_bi op) s.cr) ≡ taken op ctr s
test-eq op ctr s = ap₂ (λ x y. x && y) (ctr_ok-eq op ctr) (cnd_ok-eq op s)

pub counting-ctr :
    (op : ℕ) (s : State) (keep : Bool)
    → keep ≡ bo_bit op 2
    → (counting s keep).spr Spr.ctr ≡ counted op s
unfolding counting
counting-ctr op s keep e = rw (← e) (by_cases keep)
  where
    by_cases :
        (keep : Bool)
        → (if keep then s else set_spr s Spr.ctr (sub32 (s.spr Spr.ctr) 1)).spr Spr.ctr
          ≡ (if keep then s.spr Spr.ctr else sub32 (s.spr Spr.ctr) 1)
    by_cases true = refl
    by_cases false = refl

pub counting-keeps :
    (s : State) (keep : Bool)
    → let s1 = counting s keep in (s1.cr ≡ s.cr) × (s1.pc ≡ s.pc) × (s1.spr Spr.lr ≡ s.spr Spr.lr)
unfolding counting
counting-keeps s true = (refl, refl, refl)
counting-keeps s false = (refl, refl, refl)

count_test :
    (op : ℕ) (s : State) (keep : Bool)
    → keep ≡ bo_bit op 2
    → let s1 = counting s keep in
      (ctr_ok (br_bo op) (s1.spr Spr.ctr) && cnd_ok (br_bo op) (br_bi op) s1.cr)
      ≡ taken op (counted op s) s
count_test op s keep e =
    ap₂ (λ x y. ctr_ok (br_bo op) x && cnd_ok (br_bo op) (br_bi op) y) (counting-ctr op s keep e)
      (counting-keeps s keep).0
    ∙ test-eq op (counted op s) s

pub aligned : (op : ℕ) → op < 2 ^ 32 → bit_and op (not32 3) ≡ op / 4 * 4
aligned op h =
    let high : bit_and (op / 2 / 2) (2 ^ 30 - 1) ≡ op / 2 / 2 % 2 ^ 30 =
      bit_and-mask 30 (op / 2 / 2) in
    omega (arith, bit_and_step op (not32 3), bit_and_step (op / 2) (2 ^ 31 - 2), high)

-- The displacement of 16 bits, a multiple of four, as a word
abbrev pub short_displacement : ℕ → ℕ
short_displacement op =
    let d = op % 2 ^ 16 / 4 * 4 in if ltb d (2 ^ 15) then d else d + 2 ^ 32 - 2 ^ 16

br_bd-eq : (op : ℕ) → op < 2 ^ 32 → br_bd op ≡ short_displacement op
unfolding br_bd
br_bd-eq op h = rw (aligned op h) (ground arith)

-- `bc` counts CTR down unless BO[2] is set, is taken by the PowerPC rule for BO and BI at the new CTR,
-- goes to the displacement, from the instruction unless AA is set, and links if LK is set; nothing else changes.
bc-IsBranch :
    (l a : Bool) (s : State) (op : ℕ)
    → op < 2 ^ 32
    → let ctr = counted op s in
      IsBranch
        (taken op ctr s)
        l
        (if a then short_displacement op else (s.pc + short_displacement op) % 2 ^ 32)
        ctr
        s
        (bc l a s op)
unfolding bc counting
bc-IsBranch l a s op h =
    let keep = truth (bit_and (br_bo op) 4) in
    replace (count_test op s keep (bo_test op))
      (ap₂ (λ (p d : ℕ). if a then d else u32 (p + d)) (counting-keeps s keep).1 (br_bd-eq op h))
      (counting-ctr op s keep (bo_test op))
      (count-IsBranch l s
        (λ z. ctr_ok (br_bo op) (z.spr Spr.ctr) && cnd_ok (br_bo op) (br_bi op) z.cr)
        (λ z. if a then br_bd op else u32 (z.pc + br_bd op)) keep)

-- `bclr` counts CTR down unless BO[2] is set, is taken by the PowerPC rule for BO and BI at the new CTR,
-- goes to the word that LR points into before it is linked, and links if LK is set; nothing else
-- changes.
bclr-IsBranch :
    (l : Bool) (s : State) (op : ℕ)
    → let ctr = counted op s in
      IsBranch (taken op ctr s) l (bit_and (s.spr Spr.lr) (not32 3)) ctr s (bclr l s op)
unfolding bclr counting
bclr-IsBranch l s op =
    let keep = truth (bit_and (br_bo op) 4) in
    replace (count_test op s keep (bo_test op))
      (ap (λ p. bit_and p (not32 3)) (counting-keeps s keep).2)
      (counting-ctr op s keep (bo_test op))
      (count-IsBranch l s
        (λ z. ctr_ok (br_bo op) (z.spr Spr.ctr) && cnd_ok (br_bo op) (br_bi op) z.cr)
        (λ z. bit_and (z.spr Spr.lr) (not32 3)) keep)

-- For an opcode of 32 bits, `bc` and `bclr` count CTR down unless BO[2] is set and are taken by the PowerPC rule for BO and BI at the
-- new CTR. `bc` goes to the signed displacement of its low 16 bits, from the instruction unless AA is set, and `bclr` to the
-- word that LR points into before it is linked; they link if LK is set, and nothing else changes.
pub conditional-IsBranch :
    (l a : Bool) (s : State) (op : ℕ)
    → op < 2 ^ 32
    → let ctr = counted op s in
      IsBranch
        (taken op ctr s)
        l
        (if a then short_displacement op else (s.pc + short_displacement op) % 2 ^ 32)
        ctr
        s
        (bc l a s op)
      × IsBranch (taken op ctr s) l (bit_and (s.spr Spr.lr) (not32 3)) ctr s (bclr l s op)
conditional-IsBranch l a s op h = (bc-IsBranch l a s op h, bclr-IsBranch l s op)
