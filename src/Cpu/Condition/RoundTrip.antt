-- ===== src/Cpu/Condition/RoundTrip.antt =====
-- Saving and restoring the condition register.
use chungusppc.Common.{ℕ, ◌/◌, ◌%◌, ◌^◌, ◌<◌, ◌≡◌, ap, ◌∙◌, arith, bit, bit_and, u8}
use chungusppc.Common.Bits.Bounds.{bit_ext}
use chungusppc.Common.Bits.Shifts.{bit-mask}
use chungusppc.Common.Bits.Merge.{merge-lt}
use chungusppc.Cpu.State.{State, IsWord}
use chungusppc.Cpu.Decode.{reg_d}
use chungusppc.Cpu.Condition.{mfcr, mtcrf, mtcrf_mask}
use chungusppc.Cpu.Condition.Fields.{mtcrf-bit, mtcrf_mask-lt}

mtcrf-lt : (s : State) (op : ℕ) → (mtcrf s op).cr < 2 ^ 32
unfolding mtcrf
mtcrf-lt s op =
    let crm = u8 (bit_and (op / 2 ^ 12) 0xff) in
    merge-lt s.cr (s.gpr (reg_d op)) (mtcrf_mask crm) (mtcrf_mask-lt crm (omega arith))

saved : (s : State) (op op' : ℕ) → reg_d op ≡ reg_d op' → (mfcr s op).gpr (reg_d op') ≡ s.cr
unfolding mfcr
saved s op op' e = ground arith

-- On a state of machine words, `mtcrf` with the full mask puts back the condition register that `mfcr`
-- saved, whatever it is in between, where both instructions name the same register.
pub mtcrf-mfcr :
    (s : State) (op op' cr : ℕ)
    → IsWord s
    → reg_d op ≡ reg_d op'
    → op' / 2 ^ 12 % 256 ≡ 255
    → (mtcrf (record (mfcr s op) { cr = cr }) op').cr ≡ s.cr
mtcrf-mfcr s op op' cr w e full =
    let between = record (mfcr s op) { cr = cr } in
    bit_ext 32 _ _ (mtcrf-lt between op') w.cr_lt λ i h.
      (mtcrf-bit between op' i h).0
      ∙ rw full
          (rw (bit-mask 8 (i / 4)) (ground (arith, ap (λ (t : ℕ). bit t i) (saved s op op' e))))
