-- ===== src/Cpu/Mmu/Instructions.antt =====
-- The instructions on the lookaside buffers (`ppc_tlb*` of cpu/ppc/ppcopcodes.cpp).
use chungusppc.Common.{ℕ, ◌==◌, false, if◌then◌else◌, ◌≡◌}
use chungusppc.Cpu.Decode.{reg_b}
use chungusppc.Cpu.Msr
use chungusppc.Cpu.Machine.{Machine, Host}
use chungusppc.Cpu.Machine.Handler.{Flow, returned}
use chungusppc.Cpu.Machine.Supervisor.{supervisor}
use chungusppc.Cpu.Mmu.Tlb.{Slot, Tlb, tlb_invalid_tag, tlb_flush_all_pat}
use chungusppc.Cpu.Mmu.Page.{PageUnit, TlbType, itlb, dtlb}
use chungusppc.Cpu.Mmu.Tlb603.{mmu_603_tlb_load, mmu_603_tlb_invalidate_set}

-- What the instructions change: the buffers of the 603, and the lookaside buffers of instructions and
-- of data
pub record Buffers : Type 0 where
  pub page : PageUnit
  pub itlbs : Tlb
  pub dtlbs : Tlb

unfoldable pub load_page : TlbType → ℕ → Machine Buffers → Machine Buffers
load_page itlb ea m =
    let r = mmu_603_tlb_load itlb ea m.cpu (m.env.page, m.env.itlbs) in
    record m { env = record m.env { page = r.0; itlbs = r.1 } }
load_page dtlb ea m =
    let r = mmu_603_tlb_load dtlb ea m.cpu (m.env.page, m.env.dtlbs) in
    record m { env = record m.env { page = r.0; dtlbs = r.1 } }

-- `tlb_flush_all_pat`, on both kinds of buffers
unfoldable pub flush_pages : Buffers → Buffers
flush_pages b = record b { itlbs = tlb_flush_all_pat b.itlbs; dtlbs = tlb_flush_all_pat b.dtlbs }

module _ (h : Host Buffers) where
  unfoldable pub tlbie : ℕ → Machine Buffers → Flow Buffers
  unfolding flush_pages
  tlbie opcode m = supervisor h m (λ m.
      let b = m.env in
      let set =
        if m.cpu.is_603
        then record b { page = mmu_603_tlb_invalidate_set (m.cpu.gpr (reg_b opcode)) b.page }
        else b in
      returned (record m { env = flush_pages set }))

  -- It only writes to the log.
  unfoldable pub tlbia : ℕ → Machine Buffers → Flow Buffers
  tlbia opcode m = supervisor h m (λ m. returned m)

  unfoldable pub tlbsync : ℕ → Machine Buffers → Flow Buffers
  tlbsync opcode m = supervisor h m (λ m. returned m)

  unfoldable pub tlb_load : TlbType → ℕ → Machine Buffers → Flow Buffers
  tlb_load ty opcode m =
      supervisor h m
        (λ m. returned (if m.cpu.is_603 then load_page ty (m.cpu.gpr (reg_b opcode)) m else m))

-- No valid entry of the buffers comes from a page translation.
abbrev pub IsFlushed : Tlb → Type 0
IsFlushed t =
    (s : Slot)
    → ((t.entries s).tag == tlb_invalid_tag) ≡ false
    → (t.entries s).flags.from.pat ≡ false
