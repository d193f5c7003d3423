-- ===== src/Cpu/Branch/Targets.antt =====
-- Where the unconditional branch goes, and the branch to CTR.
use chungusppc.Common.{
  ℕ, ◌+◌, ◌-◌, ◌*◌, ◌/◌, ◌%◌, ◌^◌, ◌<◌, ◌≡◌, refl, ap, ◌∙◌, arith, Bool, true, false, ltb,
  if◌then◌else◌, truth, ◌&&◌, bit_and, u32, not32, sub32,
}
use chungusppc.Cpu.State.{State}
use chungusppc.Cpu.Spr
use chungusppc.Cpu.Branch.{b, bcctr, adr_li, br_bo, br_bi, ctr_ok, cnd_ok}
use chungusppc.Cpu.Branch.Laws.{
  IsBranch, count-IsBranch, counting, counting-ctr, counting-keeps, counted, taken, test-eq,
  replace, bo_test, aligned,
}

-- The displacement of 26 bits, a multiple of four, as a word.
abbrev pub displacement : ℕ → ℕ
displacement op = let d = op % 2 ^ 26 / 4 * 4 in if ltb d (2 ^ 25) then d else d + 2 ^ 32 - 2 ^ 26

adr_li-eq : (op : ℕ) → op < 2 ^ 32 → adr_li op ≡ displacement op
unfolding adr_li
adr_li-eq op h = rw (aligned op h) (ground arith)

-- For an opcode of 32 bits, `b` goes to the displacement, from the instruction unless AA is set, links
-- if LK is set, and keeps CTR and all else.
b-IsBranch :
    (l a : Bool) (s : State) (op : ℕ)
    → op < 2 ^ 32
    → let d = displacement op in
      IsBranch true l (if a then d else (s.pc + d) % 2 ^ 32) (s.spr Spr.ctr) s (b l a s op)
unfolding b
b-IsBranch l a s op h = replace refl (target a) refl (whole l)
  where
    target :
        (a : Bool)
        → (if a then adr_li op else u32 (s.pc + adr_li op))
          ≡ (if a then displacement op else (s.pc + displacement op) % 2 ^ 32)
    target a = rw (adr_li-eq op h) refl

    whole :
        (l : Bool)
        → IsBranch true l
            (if a then adr_li op else u32 (s.pc + adr_li op))
            (s.spr Spr.ctr)
            s
            (b l a s op)
    whole true = record {
      next_pc = refl;
      flags = refl;
      ctr_spr = refl;
      lr_spr = refl;
      other_spr = λ r p q. ground arith;
      keeps = (refl, refl, refl, refl, refl, refl);
    }
    whole false = record {
      next_pc = refl;
      flags = refl;
      ctr_spr = refl;
      lr_spr = refl;
      other_spr = λ r p q. refl;
      keeps = (refl, refl, refl, refl, refl, refl);
    }

module _ (l : Bool) (s : State) (op : ℕ) where
  abbrev ctr : ℕ
  ctr = s.spr Spr.ctr

  abbrev at_ctr : State → ℕ
  at_ctr z = bit_and ctr (not32 3)

  abbrev test_with : ℕ → State → Bool
  test_with c z = ctr_ok (br_bo op) c && cnd_ok (br_bo op) (br_bi op) z.cr

  bcctr_plain : IsBranch (taken op ctr s) l (bit_and ctr (not32 3)) ctr s (bcctr l false s op)
  unfolding bcctr counting
  bcctr_plain =
      replace (test-eq op ctr s) refl refl (count-IsBranch l s (test_with ctr) at_ctr true)

  bcctr_counting :
      IsBranch
        (taken op (sub32 ctr 1) s)
        l
        (bit_and ctr (not32 3))
        (counted op s)
        s
        (bcctr l true s op)
  unfolding bcctr counting
  bcctr_counting =
      let keep = truth (bit_and (br_bo op) 4) in
      let new = sub32 ctr 1 in
      replace
        (ap (λ c. ctr_ok (br_bo op) new && cnd_ok (br_bo op) (br_bi op) c) (counting-keeps s keep).0
          ∙ test-eq op new s)
        refl (counting-ctr op s keep (bo_test op)) (count-IsBranch l s (test_with new) at_ctr keep)

-- `bcctr` goes to the word that the old CTR points into. On a 601 it counts CTR down unless BO[2] is
-- set and is taken by the PowerPC rule at CTR - 1; elsewhere it keeps CTR and is taken by the rule at
-- CTR. It links if LK is set, and changes nothing else.
bcctr-IsBranch :
    (l : Bool) (s : State) (op : ℕ)
    → let ctr = s.spr Spr.ctr in
      let target = bit_and ctr (not32 3) in
      IsBranch (taken op ctr s) l target ctr s (bcctr l false s op)
      × IsBranch (taken op (sub32 ctr 1) s) l target (counted op s) s (bcctr l true s op)
bcctr-IsBranch l s op = (bcctr_plain l s op, bcctr_counting l s op)

-- For an opcode of 32 bits, `b` goes to the displacement, from the instruction unless AA is set, and
-- keeps CTR. `bcctr` goes to the word that the old CTR points into: on a 601 it counts CTR down unless BO[2]
-- is set and is taken by the PowerPC rule at CTR - 1; elsewhere it keeps CTR and is taken by the rule at
-- CTR. Both link if LK is set, and change nothing else.
pub far-IsBranch :
    (l a : Bool) (s : State) (op : ℕ)
    → op < 2 ^ 32
    → let d = displacement op in
      let ctr = s.spr Spr.ctr in
      let target = bit_and ctr (not32 3) in
      IsBranch true l (if a then d else (s.pc + d) % 2 ^ 32) ctr s (b l a s op)
      × (IsBranch (taken op ctr s) l target ctr s (bcctr l false s op)
          × IsBranch (taken op (sub32 ctr 1) s) l target (counted op s) s (bcctr l true s op))
far-IsBranch l a s op h = (b-IsBranch l a s op h, bcctr-IsBranch l s op)
