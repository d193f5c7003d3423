-- ===== src/Cpu/Condition/Fields.antt =====
-- The comparisons, `mcrf`, `mtcrf` and `mcrxr`: which fields of the condition register they write.
use chungusppc.Common.{
  ℕ, ◌+◌, ◌-◌, ◌*◌, ◌/◌, ◌%◌, ◌^◌, ◌≤◌, ◌<◌, ◌≡◌, ◌≢◌, refl, ap, sym, ◌∙◌, arith, Bool, true, ◌==◌,
  if◌then◌else◌, bit, to_nat, ◌&&◌, ltb, leb,
}
use chungusppc.Common.{bit_and, bit_or, u8, not32, all_below, all_below_sound, ==_iff}
use chungusppc.Common.Int.{signed32, ltb_ℤ}
use native.Mathlib.Nat.{div-le_self, mod-eq_of_lt, mul-div_left}
use chungusppc.Common.Bits.{bit-bit_or, bit-bit_and}
use chungusppc.Common.Bits.Step.{bit_and_step}
use chungusppc.Common.Bits.Shifts.{
  bit_and-pow, bit-shr, bit-shl, bit-mask, bit-mod, pow-add, two-pow-pos,
}
use chungusppc.Common.Bits.Merge.{bit_and-mask, bit_clear, bit_merge}
use chungusppc.Cpu.State.{State, IsWord}
use chungusppc.Cpu.Decode.{reg_a, reg_b, reg_d, crf_d, crf_s, simm, uimm}
use chungusppc.Cpu.Flags.Bits.{xer_bit}
use chungusppc.Cpu.Condition.{
  put_crf, xercon, cmp, cmpi, cmpl, cmpli, mcrf, mtcrf, mtcrf_mask, mcrxr,
}

-- The field whose first bit PowerPC numbers `crf` holds the four bits of `t`; all else is kept.
pub record IsFieldWrite (crf t : ℕ) (s s' : State) : Type 0 where
  pub cr :
      (i : ℕ)
      → i < 32
      → bit s'.cr i
        ≡ (if leb 28 (crf + i) && leb (crf + i) 31 then bit t (crf + i - 28) else bit s.cr i)
  pub gpr : s'.gpr ≡ s.gpr
  pub spr : s'.spr ≡ s.spr
  pub keeps :
      (s'.pc ≡ s.pc)
      × (s'.msr ≡ s.msr)
      × (s'.sr ≡ s.sr)
      × (s'.reserve ≡ s.reserve)
      × (s'.next_pc ≡ s.next_pc)
      × (s'.exec_flags ≡ s.exec_flags)

-- `0xf0000000 >> crf`
field_mask-bit :
    (crf i : ℕ) → bit (0xf000_0000 / 2 ^ crf) i ≡ to_nat (leb 28 (crf + i) && leb (crf + i) 31)
field_mask-bit crf i =
    ground (arith, bit-shr 0xf000_0000 crf i, bit-shl 15 28 (crf + i), bit-mask 4 (crf + i - 28))

field_mask-lt : (crf : ℕ) → 0xf000_0000 / 2 ^ crf < 2 ^ 32
field_mask-lt crf = omega (arith, div-le_self 0xf000_0000 (2 ^ crf))

small_bit : (t j : ℕ) → t < 16 → 4 ≤ j → bit t j ≡ 0
small_bit t j h g =
    ap (λ x. bit x j) (sym (mod-eq_of_lt {n = t} {m = 2 ^ 4} h)) ∙ bit-mod 4 t j ∙ ground arith

put_field-bit :
    (cr crf t i : ℕ)
    → t < 16
    → i < 32
    → bit (bit_or (bit_and cr (not32 (0xf000_0000 / 2 ^ crf))) (t * 2 ^ 28 / 2 ^ crf)) i
      ≡ (if leb 28 (crf + i) && leb (crf + i) 31 then bit t (crf + i - 28) else bit cr i)
put_field-bit cr crf t i h g = ground (
  arith,
  bit-bit_or i (bit_and cr (not32 (0xf000_0000 / 2 ^ crf))) (t * 2 ^ 28 / 2 ^ crf),
  bit_clear cr (0xf000_0000 / 2 ^ crf) i (field_mask-lt crf) g,
  field_mask-bit crf i,
  bit-shr (t * 2 ^ 28) crf i,
  bit-shl t 28 (crf + i),
  small_bit t (crf + i - 28) h,
)

-- The four bits of a comparison: less, greater, equal, and XER[SO].
abbrev pub cmp_field : Bool → Bool → ℕ → ℕ
cmp_field equal greater so = (if equal then 2 else if greater then 4 else 8) + so

xercon-eq : (s : State) → xercon s ≡ xer_bit s 31 * 2 ^ 28
xercon-eq s = ground (arith, bit_and-pow 31 (s.spr 1))

cmp_word :
    (s : State) (equal greater : Bool)
    → (if equal then 2 ^ 29 else if greater then 2 ^ 30 else 2 ^ 31) + xercon s
      ≡ cmp_field equal greater (xer_bit s 31) * 2 ^ 28
cmp_word s equal greater = ground (arith, xercon-eq s)

put_crf-IsFieldWrite :
    (s : State) (crf : ℕ) (equal greater : Bool)
    → IsFieldWrite crf
        (cmp_field equal greater (xer_bit s 31))
        s
        (put_crf s crf (if equal then 2 ^ 29 else if greater then 2 ^ 30 else 2 ^ 31))
unfolding put_crf
put_crf-IsFieldWrite s crf equal greater = record {
  cr = λ i h.
      ap (λ x. bit (bit_or (bit_and s.cr (not32 (0xf000_0000 / 2 ^ crf))) (x / 2 ^ crf)) i)
        (cmp_word s equal greater)
      ∙ put_field-bit s.cr crf (cmp_field equal greater (xer_bit s 31)) i (ground arith) h;
  gpr = refl;
  spr = refl;
  keeps = (refl, refl, refl, refl, refl, refl);
}

-- `cmp` and `cmpi` compare signed numbers, `cmpl` and `cmpli` unsigned ones; each puts the outcome
-- with XER[SO] into the field that the opcode names and changes nothing else.
pub compares-IsFieldWrite :
    (s : State) (op : ℕ)
    → let so = xer_bit s 31 in
      let a = s.gpr (reg_a op) in
      let b = s.gpr (reg_b op) in
      IsFieldWrite (crf_d op) (cmp_field (a == b) (ltb_ℤ (signed32 b) (signed32 a)) so) s (cmp s op)
      × IsFieldWrite
          (crf_d op)
          (cmp_field (a == simm op) (ltb_ℤ (signed32 (simm op)) (signed32 a)) so)
          s
          (cmpi s op)
      × IsFieldWrite (crf_d op) (cmp_field (a == b) (ltb b a) so) s (cmpl s op)
      × IsFieldWrite (crf_d op) (cmp_field (a == uimm op) (ltb (uimm op) a) so) s (cmpli s op)
unfolding cmp cmpi cmpl cmpli
compares-IsFieldWrite s op = (
  put_crf-IsFieldWrite s (crf_d op) _ _,
  put_crf-IsFieldWrite s (crf_d op) _ _,
  put_crf-IsFieldWrite s (crf_d op) _ _,
  put_crf-IsFieldWrite s (crf_d op) _ _,
)

crf-le : (x : ℕ) → bit_and x 0x1c ≤ 28
crf-le x = omega (arith, bit_and_step x 28, bit_and_step (x / 2) 14, bit_and-mask 3 (x / 2 / 2))

shl_into_field : (x crf : ℕ) → crf ≤ 28 → bit_and x 0xf * 2 ^ (28 - crf) ≡ x % 16 * 2 ^ 28 / 2 ^ crf
shl_into_field x crf h =
    let whole : 28 - crf + crf ≡ 28 = omega arith in
    let power : 2 ^ 28 ≡ 2 ^ (28 - crf) * 2 ^ crf =
      ap (λ (t : ℕ). 2 ^ t) (sym whole) ∙ pow-add (28 - crf) crf in
    rw (bit_and-mask 4 x) (
      sym (mul-div_left (x % 16 * 2 ^ (28 - crf)) (two-pow-pos crf))
      ∙ ap (λ t. t / 2 ^ crf) (omega (arith, ap (λ (t : ℕ). x % 16 * t) power)))

-- `mcrf` copies the field of the condition register that the opcode names as the source into the other
-- one that it names, and changes nothing else.
mcrf-IsFieldWrite :
    (s : State) (op : ℕ) → IsFieldWrite (crf_d op) (s.cr / 2 ^ (28 - crf_s op) % 16) s (mcrf s op)
unfolding mcrf
mcrf-IsFieldWrite s op = record {
  cr = λ i h.
      ap (λ x. bit (bit_or (bit_and s.cr (not32 (0xf000_0000 / 2 ^ crf_d op))) x) i)
        (shl_into_field (s.cr / 2 ^ (28 - crf_s op)) (crf_d op) (crf-le (op / 2 ^ 21)))
      ∙ put_field-bit s.cr (crf_d op) (s.cr / 2 ^ (28 - crf_s op) % 16) i (omega arith) h;
  gpr = refl;
  spr = refl;
  keeps = (refl, refl, refl, refl, refl, refl);
}

mtcrf_table :
    all_below 256 (λ crm. all_below 32 (λ i. bit (mtcrf_mask crm) i == bit crm (i / 4))) ≡ true
unfolding all_below mtcrf_mask
mtcrf_table = refl

mtcrf_mask-bit : (crm i : ℕ) → crm < 256 → i < 32 → bit (mtcrf_mask crm) i ≡ bit crm (i / 4)
mtcrf_mask-bit crm i h g = (==_iff _ _).0 (
    all_below_sound 32 _ i
      (all_below_sound 256 (λ c. all_below 32 (λ j. bit (mtcrf_mask c) j == bit c (j / 4))) crm
        mtcrf_table h)
      g)

mtcrf_range : all_below 256 (λ crm. ltb (mtcrf_mask crm) (2 ^ 32)) ≡ true
unfolding all_below mtcrf_mask
mtcrf_range = refl

pub mtcrf_mask-lt : (crm : ℕ) → crm < 256 → mtcrf_mask crm < 2 ^ 32
mtcrf_mask-lt crm h =
    let t : ltb (mtcrf_mask crm) (2 ^ 32) ≡ true =
      all_below_sound 256 (λ c. ltb (mtcrf_mask c) (2 ^ 32)) crm mtcrf_range h in
    ground arith

-- `mtcrf` takes each field whose bit of the mask CRM is set from rS, and keeps the others and the rest
-- of the state.
pub mtcrf-bit :
    (s : State) (op i : ℕ)
    → i < 32
    → let crm = op / 2 ^ 12 % 256 in
      (bit (mtcrf s op).cr i
        ≡ (if bit crm (i / 4) == 1 then bit (s.gpr (reg_d op)) i else bit s.cr i))
      × (mtcrf s op ≡ record s { cr = (mtcrf s op).cr })
unfolding mtcrf
mtcrf-bit s op i h =
    let crm = u8 (bit_and (op / 2 ^ 12) 0xff) in
    let same : crm ≡ op / 2 ^ 12 % 256 = omega (arith, bit_and-mask 8 (op / 2 ^ 12)) in
    (
      bit_merge s.cr (s.gpr (reg_d op)) (mtcrf_mask crm) i (mtcrf_mask-lt crm (omega arith)) h
          ∙ ap (λ t. if t == 1 then bit (s.gpr (reg_d op)) i else bit s.cr i)
              (mtcrf_mask-bit crm i (omega arith) h ∙ ap (λ c. bit c (i / 4)) same),
      refl,
    )

-- On a state of machine words, `mcrxr` moves the four highest bits of XER into the field that the opcode
-- names, clears them, and keeps the other fields, the general and the other special registers.
mcrxr-bit :
    (s : State) (op i : ℕ)
    → IsWord s
    → i < 32
    → let xer = s.spr 1 in
      let s' = mcrxr s op in
      let crf = crf_d op in
      (bit s'.cr i
        ≡ (if leb 28 (crf + i) && leb (crf + i) 31 then bit xer (crf + i) else bit s.cr i))
      × (s'.spr 1 ≡ xer % 2 ^ 28)
      × (s'.gpr ≡ s.gpr)
      × ((r : ℕ) → r ≢ 1 → s'.spr r ≡ s.spr r)
unfolding mcrxr
mcrxr-bit s op i w h = (
  ground (
    arith,
    bit-bit_or i (bit_and s.cr (not32 (0xf000_0000 / 2 ^ crf_d op)))
        (bit_and (s.spr 1) 0xf000_0000 / 2 ^ crf_d op),
    bit_clear s.cr (0xf000_0000 / 2 ^ crf_d op) i (field_mask-lt (crf_d op)) h,
    field_mask-bit (crf_d op) i,
    bit-shr (bit_and (s.spr 1) 0xf000_0000) (crf_d op) i,
    bit-bit_and (crf_d op + i) (s.spr 1) 0xf000_0000,
    bit-shr 0xf000_0000 (crf_d op) i,
  ),
  bit_and-mask 28 (s.spr 1),
  refl,
  λ r ne. ground arith,
)

-- On a state of machine words, `mcrf` copies the field of the condition register that the opcode
-- names as the source into the other one that it names, and changes nothing else; `mtcrf` takes
-- each field whose bit of the mask CRM is set from rS, and keeps the others and the rest of the
-- state; `mcrxr` moves the four highest bits of XER into the field that the opcode names, clears
-- them, and keeps the other fields, the general and the other special registers.
pub field_moves_lem :
    (s : State) (op i : ℕ)
    → IsWord s
    → i < 32
    → let crm = op / 2 ^ 12 % 256 in
      let s' = mcrxr s op in
      let crf = crf_d op in
      IsFieldWrite (crf_d op) (s.cr / 2 ^ (28 - crf_s op) % 16) s (mcrf s op)
      × ((bit (mtcrf s op).cr i
            ≡ (if bit crm (i / 4) == 1 then bit (s.gpr (reg_d op)) i else bit s.cr i))
          × (mtcrf s op ≡ record s { cr = (mtcrf s op).cr }))
      × ((bit s'.cr i ≡ (
            if leb 28 (crf + i) && leb (crf + i) 31 then bit (s.spr 1) (crf + i) else bit s.cr i))
          × (s'.spr 1 ≡ s.spr 1 % 2 ^ 28)
          × (s'.gpr ≡ s.gpr)
          × ((r : ℕ) → r ≢ 1 → s'.spr r ≡ s.spr r))
field_moves_lem s op i w h = (mcrf-IsFieldWrite s op, mtcrf-bit s op i h, mcrxr-bit s op i w h)
