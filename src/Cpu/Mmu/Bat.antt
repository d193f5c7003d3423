-- ===== src/Cpu/Mmu/Bat.antt =====
-- Block address translation (cpu/ppc/ppcmmu.{h,cpp}).
pub mod Search
pub mod Blocks
pub mod Laws
pub mod Laws601
use chungusppc.Common.{
  ℕ, zero, suc, ◌+◌, ◌-◌, ◌*◌, ◌/◌, ◌%◌, ◌^◌, ◌==◌, not, ◌&&◌, Bool, true, false, if◌then◌else◌,
  bit_and, bit_or, bit_xor, truth, to_nat, not32, ◌<<<◌, ◌>>>◌,
}
use chungusppc.Cpu.State.{State, update}
use chungusppc.Cpu.Msr
use chungusppc.Cpu.Mmu.Tlb.{Tlb, any_source, schedule_tlb_invalidation}

pub record PpcBatEntry : Type 0 where
  pub valid : Bool
  pub access : ℕ
  pub prot : ℕ
  pub phys_hi : ℕ
  pub hi_mask : ℕ
  pub bepi : ℕ

pub record BatResult : Type 0 where
  pub hit : Bool
  pub prot : ℕ
  pub phys : ℕ

-- The arrays, with the buffers that an update invalidates
pub record BatUnit : Type 0 where
  pub ibat_array : ℕ → PpcBatEntry
  pub dbat_array : ℕ → PpcBatEntry
  pub itlb : Tlb
  pub dtlb : Tlb

abbrev pub bat_miss : BatResult
bat_miss = record { hit = false; prot = 0; phys = 0 }

-- The loop over the entries from `i` on, `n` of which are left
unfoldable pub bat_search : (ℕ → Bool) → (ℕ → BatResult) → ℕ → ℕ → BatResult
bat_search test result zero i = bat_miss
bat_search test result (suc n) i =
    let rest = bat_search test result n (i + 1) in if test i then result i else rest

abbrev pub user_mode : State → ℕ
user_mode s = to_nat (truth (bit_and s.msr Msr.pr))

abbrev pub in_block : PpcBatEntry → ℕ → Bool
in_block e la = bit_and la e.hi_mask == e.bepi

-- The physical address in a block
abbrev pub block_phys : PpcBatEntry → ℕ → ℕ
block_phys e la = bit_or e.phys_hi (bit_and la (not32 e.hi_mask))

unfoldable pub access_conv : ℕ → ℕ
access_conv n =
    if n == 3 then 1 else if n == 4 then 0 else if n == 5 then 1 else if n == 7 then 1 else 2

unfoldable pub bat_key : ℕ → ℕ → ℕ
bat_key access msr_pr =
    bit_or (bit_and (bit_and access 1) msr_pr)
      (bit_and (bit_and (access >>> 1) 1) (bit_xor msr_pr 1))

unfoldable pub mpc601_block_address_translation : State → (ℕ → PpcBatEntry) → ℕ → BatResult
mpc601_block_address_translation s ibat_array la =
    if truth (bit_and (s.sr ((la >>> 28) % 16)) 0x8000_0000)
    then bat_miss
    else bat_search (λ i. (ibat_array i).valid && in_block (ibat_array i) la)
        (λ i.
          let e = ibat_array i in
          record {
            hit = true;
            prot = access_conv (bit_or (bat_key e.access (user_mode s) <<< 2) e.prot);
            phys = block_phys e la;
          })
        4 0

unfoldable pub ppc_block_address_translation : State → (ℕ → PpcBatEntry) → ℕ → BatResult
ppc_block_address_translation s bat_array la =
    let msr_pr = user_mode s in
    let access_bits = bit_or ((1 - msr_pr) <<< 1) msr_pr in
    bat_search (λ i. truth (bit_and (bat_array i).access access_bits) && in_block (bat_array i) la)
      (λ i. let e = bat_array i in record { hit = true; prot = e.prot; phys = block_phys e la }) 4 0

-- ~((length << 17) | 0x1FFFF)
abbrev pub block_mask : ℕ → ℕ
block_mask length = not32 (bit_or (length <<< 17) 0x1_ffff)

-- The entry that the upper and the lower register of a 601 describe
unfoldable pub mpc601_entry : ℕ → ℕ → PpcBatEntry
mpc601_entry upper lower =
    let hi_mask = block_mask (bit_and lower 0x3f) in
    record {
      valid = true;
      access = bit_and (upper >>> 2) 3;
      prot = bit_and upper 3;
      phys_hi = bit_and lower hi_mask;
      hi_mask = hi_mask;
      bepi = bit_and upper hi_mask;
    }

abbrev pub invalidate : PpcBatEntry → PpcBatEntry
invalidate e = record e { valid = false }

unfoldable pub mpc601_bat_update : State → ℕ → BatUnit → BatUnit
mpc601_bat_update s bat_reg u =
    let upper_reg_num = bit_and bat_reg 0xffff_fffe in
    let i = (bat_reg - 528) >>> 1 in
    let e = mpc601_entry (s.spr upper_reg_num) (s.spr (upper_reg_num + 1)) in
    let on = truth (bit_and (s.spr (bit_or bat_reg 1)) 0x40) in
    record {
      ibat_array = update u.ibat_array i (if on then e else invalidate (u.ibat_array i));
      dbat_array = update u.dbat_array i (if on then e else invalidate (u.dbat_array i));
      itlb = schedule_tlb_invalidation any_source u.itlb;
      dtlb = schedule_tlb_invalidation any_source u.dtlb;
    }

-- The entry that an upper and a lower register describe; `valid` stays what it was.
unfoldable pub ppc_entry : ℕ → ℕ → PpcBatEntry → PpcBatEntry
ppc_entry upper lower old =
    let hi_mask = block_mask (bit_and (upper >>> 2) 0x7ff) in
    record {
      valid = old.valid;
      access = bit_and upper 3;
      prot = bit_and lower 3;
      phys_hi = bit_and lower hi_mask;
      hi_mask = hi_mask;
      bepi = bit_and upper hi_mask;
    }

unfoldable pub ppc_ibat_update : State → ℕ → BatUnit → BatUnit
ppc_ibat_update s bat_reg u =
    let upper_reg_num = bit_and bat_reg 0xffff_fffe in
    let i = (bat_reg - 528) >>> 1 in
    record u {
      ibat_array =
          update u.ibat_array i
            (ppc_entry (s.spr upper_reg_num) (s.spr (upper_reg_num + 1)) (u.ibat_array i));
      itlb = schedule_tlb_invalidation any_source u.itlb;
    }

unfoldable pub ppc_dbat_update : State → ℕ → BatUnit → BatUnit
ppc_dbat_update s bat_reg u =
    let upper_reg_num = bit_and bat_reg 0xffff_fffe in
    let i = (bat_reg - 536) >>> 1 in
    record u {
      dbat_array =
          update u.dbat_array i
            (ppc_entry (s.spr upper_reg_num) (s.spr (upper_reg_num + 1)) (u.dbat_array i));
      dtlb = schedule_tlb_invalidation any_source u.dtlb;
    }
