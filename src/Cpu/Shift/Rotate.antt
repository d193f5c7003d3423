-- ===== src/Cpu/Shift/Rotate.antt =====
-- Rotation and the rotate masks, bit by bit, and the instructions that rotate under a mask.
use chungusppc.Common.{
  ℕ, ◌+◌, ◌-◌, ◌*◌, ◌/◌, ◌%◌, ◌^◌, ◌≤◌, ◌<◌, ◌≡◌, ap, sym, ◌∙◌, arith, Bool, if◌then◌else◌, bit,
  truth, to_nat, ◌&&◌, ◌||◌, leb,
}
use chungusppc.Common.{bit_and, bit_or, u32, not32, inl, inr, Bool-cases}
use native.Mathlib.Decide.{dec_lt}
use native.Mathlib.Nat.{mod-eq_of_lt, div-le_self}
use chungusppc.Common.Bits.{bit-bit_and, bit-bit_or}
use chungusppc.Common.Bits.Bounds.{bit_and-lt, bit_and-lt_right, bit_or-lt}
use chungusppc.Common.Bits.Shifts.{bit-shr, bit-shl, bit-mod, bit-mask}
use chungusppc.Common.Bits.Merge.{bit_and-mask, bit_merge}
use chungusppc.Cpu.State.{State, IsWord}
use chungusppc.Cpu.Decode.{reg_a, reg_b, reg_d, rot_mb, rot_me}
use chungusppc.Cpu.Write.{IsWrite, IsWrite-end}
use chungusppc.Cpu.Shift.{rotl32, rotr32, rot_mask, rlwimi, rlwinm, rlwnm}

pub high_clear : (x i : ℕ) → x < 2 ^ 32 → 32 ≤ i → bit x i ≡ 0
high_clear x i h g = ap (λ t. bit t i) (sym (mod-eq_of_lt h)) ∙ bit-mod 32 x i ∙ ground arith

rotl_bit :
    (x n i : ℕ)
    → x < 2 ^ 32
    → 0 < n
    → n < 32
    → i < 32
    → bit (bit_or (u32 (x * 2 ^ n)) (x / 2 ^ (32 - n))) i ≡ bit x ((i + 32 - n) % 32)
rotl_bit x n i hx p q h = elim (dec_lt i n) [
  | yes low ↦
      let index : 32 - n + i ≡ (i + 32 - n) % 32 = omega arith in
      ground (
        arith,
        bit-bit_or i (u32 (x * 2 ^ n)) (x / 2 ^ (32 - n)),
        bit-mod 32 (x * 2 ^ n) i,
        bit-shl x n i,
        bit-shr x (32 - n) i,
        ap (λ (t : ℕ). bit x t) index,
      )
  | no high ↦
      let index : i - n ≡ (i + 32 - n) % 32 = omega arith in
      ground (
        arith,
        bit-bit_or i (u32 (x * 2 ^ n)) (x / 2 ^ (32 - n)),
        bit-mod 32 (x * 2 ^ n) i,
        bit-shl x n i,
        bit-shr x (32 - n) i,
        high_clear x (32 - n + i) hx (omega arith),
        ap (λ (t : ℕ). bit x t) index,
      )
]

-- `ROTL_32` moves bit `j` to bit `j + n` modulo 32.
pub rotl32-bit :
    (x n i : ℕ) → x < 2 ^ 32 → i < 32 → bit (rotl32 x n) i ≡ bit x ((i + 32 - n % 32) % 32)
unfolding rotl32
rotl32-bit x n i hx h = rw (bit_and-mask 5 n) (elim (Bool-cases (truth (n % 32))) [
  | inl t ↦ rw t (rotl_bit x (n % 32) i hx (ground arith) (omega arith) h)
  | inr t ↦ let index : i ≡ (i + 32 - n % 32) % 32 = ground arith in rw t (ap (bit x) index)
])

rotr_bit :
    (x n i : ℕ)
    → x < 2 ^ 32
    → 0 < n
    → n < 32
    → i < 32
    → bit (bit_or (x / 2 ^ n) (u32 (x * 2 ^ (32 - n)))) i ≡ bit x ((i + n) % 32)
rotr_bit x n i hx p q h = elim (dec_lt i (32 - n)) [
  | yes low ↦
      let index : n + i ≡ (i + n) % 32 = omega arith in
      ground (
        arith,
        bit-bit_or i (x / 2 ^ n) (u32 (x * 2 ^ (32 - n))),
        bit-mod 32 (x * 2 ^ (32 - n)) i,
        bit-shl x (32 - n) i,
        bit-shr x n i,
        ap (λ (t : ℕ). bit x t) index,
      )
  | no high ↦
      let index : i - (32 - n) ≡ (i + n) % 32 = omega arith in
      ground (
        arith,
        bit-bit_or i (x / 2 ^ n) (u32 (x * 2 ^ (32 - n))),
        bit-mod 32 (x * 2 ^ (32 - n)) i,
        bit-shl x (32 - n) i,
        bit-shr x n i,
        high_clear x (n + i) hx (omega arith),
        ap (λ (t : ℕ). bit x t) index,
      )
]

-- `ROTR_32` moves bit `j + n` modulo 32 to bit `j`.
pub rotr32-bit : (x n i : ℕ) → x < 2 ^ 32 → i < 32 → bit (rotr32 x n) i ≡ bit x ((i + n % 32) % 32)
unfolding rotr32
rotr32-bit x n i hx h = rw (bit_and-mask 5 n) (elim (Bool-cases (truth (n % 32))) [
  | inl t ↦ rw t (rotr_bit x (n % 32) i hx (ground arith) (omega arith) h)
  | inr t ↦ let index : i ≡ (i + n % 32) % 32 = ground arith in rw t (ap (bit x) index)
])

-- PowerPC bit `31 - i` lies from `mb` through `me`, around the end of the word if `me` is smaller.
abbrev pub in_mask : ℕ → ℕ → ℕ → Bool
in_mask mb me i =
    if leb mb me then leb mb (31 - i) && leb (31 - i) me else leb mb (31 - i) || leb (31 - i) me

pub rot_mask-bit :
    (mb me i : ℕ) → mb < 32 → me < 32 → i < 32 → bit (rot_mask mb me) i ≡ to_nat (in_mask mb me i)
unfolding rot_mask
rot_mask-bit mb me i p q h =
    let m1 = 0xffff_ffff / 2 ^ mb in
    let m2 = u32 (0xffff_ffff * 2 ^ (31 - me)) in
    let b1 : bit m1 i ≡ to_nat (leb mb (31 - i)) =
      ground (arith, bit-shr 0xffff_ffff mb i, bit-mask 32 (mb + i)) in
    let b2 : bit m2 i ≡ to_nat (leb (31 - i) me) = ground (
      arith,
      bit-mod 32 (0xffff_ffff * 2 ^ (31 - me)) i,
      bit-shl 0xffff_ffff (31 - me) i,
      bit-mask 32 (i - (31 - me)),
    ) in
    ground (arith, b1, b2, bit-bit_and i m2 m1, bit-bit_or i m1 m2)

pub rot_mask-lt : (mb me : ℕ) → rot_mask mb me < 2 ^ 32
unfolding rot_mask
rot_mask-lt mb me =
    let m1 = 0xffff_ffff / 2 ^ mb in
    let m2 = u32 (0xffff_ffff * 2 ^ (31 - me)) in
    let small : m1 < 2 ^ 32 = omega (arith, div-le_self 0xffff_ffff (2 ^ mb)) in
    ground (arith, bit_and-lt 32 m2 m1 (omega arith), bit_or-lt 32 m1 m2 small (omega arith))

field-lt : (x : ℕ) → bit_and x 0x1f < 32
field-lt x = bit_and-lt_right 5 x 0x1f (omega arith)

-- Bit `i` of a word that is rotated left by `n`, under the mask of the opcode, over `under`.
abbrev pub rotated_bit : ℕ → ℕ → ℕ → (ℕ → ℕ) → ℕ → ℕ
rotated_bit op x n under i =
    if in_mask (rot_mb op) (rot_me op) i then bit x ((i + 32 - n % 32) % 32) else under i

module _ (s : State) (op : ℕ) (w : IsWord s) where
  abbrev mask : ℕ
  mask = rot_mask (rot_mb op) (rot_me op)

  mask-bit : (i : ℕ) → i < 32 → bit mask i ≡ to_nat (in_mask (rot_mb op) (rot_me op) i)
  mask-bit i h = rot_mask-bit (rot_mb op) (rot_me op) i (field-lt _) (field-lt _) h

  masked-bit :
      (n i : ℕ)
      → i < 32
      → bit (bit_and (rotl32 (s.gpr (reg_d op)) n) mask) i
        ≡ rotated_bit op (s.gpr (reg_d op)) n (λ _. 0) i
  masked-bit n i h = ground (
    arith,
    bit-bit_and i (rotl32 (s.gpr (reg_d op)) n) mask,
    mask-bit i h,
    rotl32-bit (s.gpr (reg_d op)) n i (w.gpr_lt (reg_d op)) h,
  )

  -- On a state of machine words, `rlwinm` gives rS rotated left by SH under the mask from MB through
  -- ME, and zeros elsewhere; CR0 describes it where Rc is set, and nothing else changes.
  rlwinm-IsWrite :
      (v : ℕ) × IsWrite (truth (bit_and op 1)) (reg_a op) v s (rlwinm s op)
      × ((i : ℕ) → i < 32 → bit v i ≡ rotated_bit op (s.gpr (reg_d op)) (reg_b op) (λ _. 0) i)
  unfolding rlwinm
  rlwinm-IsWrite = (
    bit_and (rotl32 (s.gpr (reg_d op)) (reg_b op)) mask,
    IsWrite-end (truth (bit_and op 1)) (reg_a op) _ s,
    masked-bit (reg_b op),
  )

  -- On a state of machine words, `rlwnm` gives rS rotated left by rB modulo 32 under the mask from MB
  -- through ME, and zeros elsewhere; CR0 describes it where Rc is set, and nothing else changes.
  rlwnm-IsWrite :
      (v : ℕ) × IsWrite (truth (bit_and op 1)) (reg_a op) v s (rlwnm s op)
      × ((i : ℕ)
          → i < 32
          → bit v i ≡ rotated_bit op (s.gpr (reg_d op)) (s.gpr (reg_b op)) (λ _. 0) i)
  unfolding rlwnm
  rlwnm-IsWrite = (
    bit_and (rotl32 (s.gpr (reg_d op)) (s.gpr (reg_b op))) mask,
    IsWrite-end (truth (bit_and op 1)) (reg_a op) _ s,
    masked-bit (s.gpr (reg_b op)),
  )

  -- On a state of machine words, `rlwimi` inserts rS, rotated left by SH, into rA under the mask from MB
  -- through ME; CR0 describes the result where Rc is set, and nothing else changes.
  rlwimi-IsWrite :
      (v : ℕ) × IsWrite (truth (bit_and op 1)) (reg_a op) v s (rlwimi s op)
      × ((i : ℕ)
          → i < 32
          → bit v i
            ≡ rotated_bit op (s.gpr (reg_d op)) (reg_b op) (λ j. bit (s.gpr (reg_a op)) j) i)
  unfolding rlwimi
  rlwimi-IsWrite = (
    bit_or (bit_and (s.gpr (reg_a op)) (not32 mask))
        (bit_and (rotl32 (s.gpr (reg_d op)) (reg_b op)) mask),
    IsWrite-end (truth (bit_and op 1)) (reg_a op) _ s,
    λ i h. ground (
      arith,
      bit_merge (s.gpr (reg_a op)) (rotl32 (s.gpr (reg_d op)) (reg_b op)) mask i
          (rot_mask-lt (rot_mb op) (rot_me op)) h,
      mask-bit i h,
      rotl32-bit (s.gpr (reg_d op)) (reg_b op) i (w.gpr_lt (reg_d op)) h,
    ),
  )

  -- On a state of machine words, `rlwinm` gives rS rotated left by SH, and `rlwnm` by rB modulo 32,
  -- under the mask from MB through ME, and zeros elsewhere; `rlwimi` inserts rS, rotated left by SH,
  -- into rA under that mask. CR0 describes the result where Rc is set, and nothing else changes.
  pub rotates-IsWrite :
      ((v : ℕ) × IsWrite (truth (bit_and op 1)) (reg_a op) v s (rlwinm s op)
        × ((i : ℕ) → i < 32 → bit v i ≡ rotated_bit op (s.gpr (reg_d op)) (reg_b op) (λ _. 0) i))
      × ((v : ℕ) × IsWrite (truth (bit_and op 1)) (reg_a op) v s (rlwnm s op)
          × ((i : ℕ)
              → i < 32
              → bit v i ≡ rotated_bit op (s.gpr (reg_d op)) (s.gpr (reg_b op)) (λ _. 0) i))
      × ((v : ℕ) × IsWrite (truth (bit_and op 1)) (reg_a op) v s (rlwimi s op)
          × ((i : ℕ)
              → i < 32
              → bit v i
                ≡ rotated_bit op (s.gpr (reg_d op)) (reg_b op) (λ j. bit (s.gpr (reg_a op)) j) i))
  rotates-IsWrite = (rlwinm-IsWrite, rlwnm-IsWrite, rlwimi-IsWrite)
