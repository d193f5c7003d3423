-- ===== src/Cpu/Condition/Family.antt =====
-- The instructions that write fields of the condition register (cpu/ppc/ppcopcodes.cpp).
use chungusppc.Common.{
  ℕ, ◌+◌, ◌-◌, ◌/◌, ◌%◌, ◌^◌, ◌<◌, ◌≡◌, ◌≢◌, ◌==◌, if◌then◌else◌, bit, ◌&&◌, ltb, leb,
}
use chungusppc.Common.Int.{signed32, ltb_ℤ}
use chungusppc.Cpu.State.{State, IsWord}
use chungusppc.Cpu.Decode.{reg_a, reg_b, reg_d, crf_d, crf_s, simm, uimm}
use chungusppc.Cpu.Flags.Bits.{xer_bit}
use chungusppc.Cpu.Condition.{cmp, cmpi, cmpl, cmpli, mcrf, mtcrf, mcrxr}
use chungusppc.Cpu.Condition.Fields.{
  IsFieldWrite, cmp_field, compares-IsFieldWrite, field_moves_lem,
}

-- `cmp` and `cmpi` compare signed numbers, `cmpl` and `cmpli` unsigned ones; each puts the outcome
-- with XER[SO] into the field that the opcode names and changes nothing else.
-- On a state of machine words, `mcrf` copies the field of the condition register that the opcode
-- names as the source into the other one that it names, and changes nothing else; `mtcrf` takes
-- each field whose bit of the mask CRM is set from rS, and keeps the others and the rest of the
-- state; `mcrxr` moves the four highest bits of XER into the field that the opcode names, clears
-- them, and keeps the other fields, the general and the other special registers.
pub fields_lem :
    (s : State) (op i : ℕ)
    → IsWord s
    → i < 32
    → (let so = xer_bit s 31 in
        let a = s.gpr (reg_a op) in
        let b = s.gpr (reg_b op) in
        IsFieldWrite
          (crf_d op)
          (cmp_field (a == b) (ltb_ℤ (signed32 b) (signed32 a)) so)
          s
          (cmp s op)
        × IsFieldWrite
            (crf_d op)
            (cmp_field (a == simm op) (ltb_ℤ (signed32 (simm op)) (signed32 a)) so)
            s
            (cmpi s op)
        × IsFieldWrite (crf_d op) (cmp_field (a == b) (ltb b a) so) s (cmpl s op)
        × IsFieldWrite (crf_d op) (cmp_field (a == uimm op) (ltb (uimm op) a) so) s (cmpli s op))
      × (let crm = op / 2 ^ 12 % 256 in
          let s' = mcrxr s op in
          let crf = crf_d op in
          IsFieldWrite (crf_d op) (s.cr / 2 ^ (28 - crf_s op) % 16) s (mcrf s op)
          × ((bit (mtcrf s op).cr i
                ≡ (if bit crm (i / 4) == 1 then bit (s.gpr (reg_d op)) i else bit s.cr i))
              × (mtcrf s op ≡ record s { cr = (mtcrf s op).cr }))
          × ((bit s'.cr i ≡ (
                if leb 28 (crf + i) && leb (crf + i) 31
                then bit (s.spr 1) (crf + i)
                else bit s.cr i))
              × (s'.spr 1 ≡ s.spr 1 % 2 ^ 28)
              × (s'.gpr ≡ s.gpr)
              × ((r : ℕ) → r ≢ 1 → s'.spr r ≡ s.spr r)))
fields_lem s op i w h = (compares-IsFieldWrite s op, field_moves_lem s op i w h)
