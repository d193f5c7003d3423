-- ===== src/Cpu/Memory/Reservation.antt =====
-- The reservation that `lwarx` makes and `stwcx.` uses up.
use chungusppc.Common.{
  ℕ, ◌+◌, ◌-◌, ◌/◌, ◌≤◌, ◌<◌, ◌⊎◌, ◌^◌, ◌≡◌, refl, ap, ◌∙◌, arith, true, false, if◌then◌else◌, bit,
  bit_and, bit_or,
}
use chungusppc.Common.Bits.{bit-bit_or, bit-bit_and}
use chungusppc.Common.Bits.Shifts.{bit-shr, bit-mask}
use chungusppc.Cpu.State.{State, set_gpr}
use chungusppc.Cpu.Decode.{reg_d}
use chungusppc.Cpu.Memory.{done, Mmu, ea_indexed, after_read, after_write}
use chungusppc.Cpu.Memory.Load.{lwarx}
use chungusppc.Cpu.Memory.Store.{stwcx, cut}
use chungusppc.Cpu.Memory.Laws.{IsRam, SameContext, word_at}

-- CR0 before the store: clear but for the copy of XER[SO].
abbrev cr_cleared : State → ℕ
cr_cleared s = bit_or (bit_and s.cr (2 ^ 28 - 1)) (bit_and (s.spr 1) (2 ^ 31) / 2 ^ 3)

cr_cleared-bit : (s : State) → bit (cr_cleared s) 29 ≡ 0
cr_cleared-bit s = ground (
  arith,
  bit-bit_or 29 (bit_and s.cr (2 ^ 28 - 1)) (bit_and (s.spr 1) (2 ^ 31) / 2 ^ 3),
  bit-bit_and 29 s.cr (2 ^ 28 - 1),
  bit-shr (bit_and (s.spr 1) (2 ^ 31)) 3 29,
  bit-bit_and 32 (s.spr 1) (2 ^ 31),
  bit-mask 28 29,
)

module _ {M : Type 0} (mmu : Mmu M) (bytes : M → ℕ → ℕ) (Ready : M → Type 0) (c : State) (lo hi : ℕ)
    (ram : IsRam mmu bytes Ready c lo hi) where
  abbrev pub Loads : State → ℕ → M → M → Type 0
  Loads s op m m1 =
      (s1 : State) × (lwarx mmu s op m ≡ done s1 m1)
      × (s1.gpr (reg_d op) ≡ word_at (bytes m) (ea_indexed s op))
      × (s1.reserve ≡ true)
      × Ready m1
      × ((j : ℕ) → lo ≤ j → j < hi → bytes m1 j ≡ bytes m j)

  lwarx_lem :
      (s : State) (op : ℕ) (m : M)
      → SameContext c s
      → Ready m
      → lo ≤ ea_indexed s op
      → ea_indexed s op + 4 ≤ hi
      → (m1 : M) × Loads s op m m1
  unfolding lwarx after_read
  lwarx_lem s op m same ready low high =
      let s1 = record s { reserve = true } in
      let r = ram.reads op (ea_indexed s op) s1 m same ready low high in
      (
        r.0,
        (
          set_gpr s1 (reg_d op) (word_at (bytes m) (ea_indexed s op)),
          ap (λ t. after_read t (λ v m1. done (set_gpr s1 (reg_d op) v) m1)) r.1,
          ground arith,
          refl,
          r.2,
          r.3,
        ),
      )

  abbrev pub Stores : State → ℕ → M → State → M → Type 0
  Stores t op m t2 m2 =
      (stwcx mmu t op m ≡ done t2 m2)
      × (bit t2.cr 29 ≡ 1)
      × (t2.reserve ≡ false)
      × (word_at (bytes m2) (ea_indexed t op) ≡ cut 4 (t.gpr (reg_d op)))
      × ((j : ℕ)
          → lo ≤ j
          → j < hi
          → (j < ea_indexed t op) ⊎ (ea_indexed t op + 4 ≤ j)
          → bytes m2 j ≡ bytes m j)

  stwcx_taken :
      (t : State) (op : ℕ) (m : M)
      → SameContext c t
      → Ready m
      → lo ≤ ea_indexed t op
      → ea_indexed t op + 4 ≤ hi
      → t.reserve ≡ true
      → (m2 : M) × Stores t op m
          (record t { reserve = false; cr = bit_or (cr_cleared t) (2 ^ 29) })
          m2
  unfolding stwcx after_write
  stwcx_taken t op m same ready low high e =
      let s1 = record t { cr = cr_cleared t } in
      let s2 = record s1 { reserve = false; cr = bit_or (cr_cleared t) (2 ^ 29) } in
      let v = cut 4 (t.gpr (reg_d op)) in
      let ea = ea_indexed t op in
      let w = ram.writes op ea v s1 m same ready low high (omega arith) in
      (
        w.0,
        (
          ap
                (λ b.
                  if b
                  then after_write (mmu.write 4 op ea v s1 m) (λ m1. done s2 m1)
                  else done s1 m)
                e
              ∙ ap (λ r. after_write r (λ m1. done s2 m1)) w.1,
          ground (arith, bit-bit_or 29 (cr_cleared t) (2 ^ 29)),
          refl,
          w.3,
          w.4,
        ),
      )

  stwcx_lost :
      (s : State) (op : ℕ) (m : M)
      → s.reserve ≡ false
      → stwcx mmu s op m ≡ done (record s { cr = cr_cleared s }) m
  unfolding stwcx after_write
  stwcx_lost s op m e =
      let s1 = record s { cr = cr_cleared s } in
      ap
        (λ t.
          if t
          then after_write (mmu.write 4 op (ea_indexed s op) (cut 4 (s.gpr (reg_d op))) s1 m)
              (λ m1. done (record s1 { reserve = false; cr = bit_or (cr_cleared s) (2 ^ 29) }) m1)
          else done s1 m)
        e

  -- Where the words at both addresses are memory, `lwarx` reads its word and makes the reservation. The
  -- next `stwcx.`, in whatever state of the same context that still has it, stores the word of rS,
  -- keeps all other bytes, uses the reservation up and sets the EQ bit of CR0; one more `stwcx.` leaves
  -- memory alone and clears the EQ bit.
  pub reservation-stwcx :
      (s t : State) (op op' : ℕ) (m : M)
      → SameContext c s
      → SameContext c t
      → Ready m
      → lo ≤ ea_indexed s op
      → ea_indexed s op + 4 ≤ hi
      → lo ≤ ea_indexed t op'
      → ea_indexed t op' + 4 ≤ hi
      → t.reserve ≡ true
      → (m1 m2 : M) × (t2 t3 : State) × Loads s op m m1
        × Stores t op' m1 t2 m2
        × (stwcx mmu t2 op' m2 ≡ done t3 m2)
        × (bit t3.cr 29 ≡ 0)
  reservation-stwcx s t op op' m here there ready low high low' high' reserved =
      let (m1, loads) = lwarx_lem s op m here ready low high in
      let (m2, stores) = stwcx_taken t op' m1 there loads.4 low' high' reserved in
      let t2 = record t { reserve = false; cr = bit_or (cr_cleared t) (2 ^ 29) } in
      (
        m1,
        m2,
        t2,
        record t2 { cr = cr_cleared t2 },
        loads,
        stores,
        stwcx_lost t2 op' m2 refl,
        cr_cleared-bit t2,
      )
