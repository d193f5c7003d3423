-- ===== src/Lib.antt =====
-- ChungusPPC is an emulator of PowerPC Macintosh computers. This library models the core of its
-- processor, the interpreter of cpu/ppc with its exceptions and address translation, and the virtual
-- timers of core, against what the PowerPC and POWER architectures say.
--
-- The program's parts. The main loop of cpu/ppc/ppcexec.cpp fetches an opcode and calls, through a
-- table, the function `ppc_*` or `power_*` of the instruction. Such a function reads the operands
-- that the opcode names (cpu/ppc/ppcdechelpers.h), changes the processor's state (`ppc_state` and
-- the globals of cpu/ppc/ppcemu.h), and tells the loop through `exec_flags` that a branch was
-- taken. Devices (devices, machines) are reached by loads and stores through the memory management
-- unit (cpu/ppc/ppcmmu.cpp), and call the processor back through interrupts: an exception saves the
-- state and goes to its vector (cpu/ppc/ppcexceptions.cpp), and `rfi` returns from it. The main
-- loop calls `process_timers` (core/timermanager.cpp), whose callbacks run the devices.
--
-- The model. A state is the record `Cpu.State.State`; its fields have the names of `ppc_state` and of
-- the globals, and a register file is a function of the register's number. Each instruction is a
-- function from the opcode and the state to the next state, in the order of the source's statements;
-- the template arguments (the record bit, the overflow bit, the carry, the link, the absolute address)
-- are Booleans in the order of the source. A word is a native number, below 2 ^ 32 in a state that
-- `IsWord`; each operation writes its wrap-around out. Signed numbers are the ℤ of Common/Int.antt;
-- `signed32` and `wrap_ℤ` go between the two.
--   Common, Common/*        words, Boolean tests, bits of numbers and signed numbers
--   Cpu/State, Cpu/Spr, Cpu/Xer, Cpu/CrBit
--                           the state, the numbers of the special registers and the flag bits
--   Cpu/Decode              the operands of an opcode
--   Cpu/Flags               `ppc_changecrf0`, `ppc_carry`, `ppc_setsoov`
--   Cpu/Arith               `ppc_add*`, `ppc_subf*`, `ppc_neg`
--   Cpu/Logic               `ppc_logical`, the immediate forms, `ppc_cntlzw`, `ppc_exts`
--   Cpu/Multiply            `ppc_mul*`, `ppc_div*`
--   Cpu/Shift               `ppc_shift`, `ppc_sraw`, `ppc_srawi`, `ppc_rlw*`, `ROTL_32`, `ROTR_32`
--   Cpu/Condition           `ppc_cmp*`, `ppc_cr*`, `ppc_mcrf`, `ppc_mfcr`, `ppc_mtcrf`, `ppc_mcrxr`
--   Cpu/Branch              `ppc_b`, `ppc_bc`, `ppc_bcctr`, `ppc_bclr`
--   Cpu/Power               `power_*` of cpu/ppc/poweropcodes.cpp
--   Cpu/Memory              the integer loads and stores, `ppc_tw` and `ppc_twi`, over the record `Mmu`
--                           of reads and writes that stands for cpu/ppc/ppcmmu.cpp
--   Cpu/Machine             the globals around the state, `ppc_msr_did_change`, `ppc_change_endian` and
--                           `mmu_change_mode`
--   Cpu/Machine/Handler     `ppc_exception_handler`, `ppc_illegalop`, `ppc_fpu_off`, `ppc_assert_int`
--   Cpu/Machine/Supervisor  `ppc_rfi`, `ppc_sc`, `ppc_mtmsr`, `ppc_mfmsr`, `ppc_mtsr*`, `ppc_mfsr*`
--   Cpu/Machine/Alignment   `ppc_alignment_exception`
--   Cpu/Machine/Architecture vectors, return addresses and endings of exceptions, as specified
--   Cpu/Machine/Modes, EntryMsr, Entry, Handled, ReturnMsr, Return, Pending, Privilege, Invariant
--                           what exceptions and returns promise
--   Cpu/Mmu/Tlb             the lookaside buffers of cpu/ppc/ppcmmu.cpp: lookup, replacement, tracking
--                           and invalidation
--   Cpu/Mmu/Tlb/Fetch       `itlb2_refill`, `mmu_translate_imem`
--   Cpu/Mmu/Tlb/Slots, Invalidate, Tracked, Coherent, Refine, Change, Recency
--                           the buffers against the translation without them
--   Cpu/Mmu/Bat, Cpu/Mmu/Bat/*
--                           block address translation and the entries that its registers describe
--   Cpu/Mmu/Page, Cpu/Mmu/Page/*
--                           the page table search of `page_address_translation`
--   Cpu/Mmu/Tlb603, Cpu/Mmu/Tlb603/*
--                           the software-loaded buffers of the 603
--   Cpu/Mmu/Translate       `page_address_translation`, the choice in `itlb2_refill`, and
--                           `mmu_pat_ctx_changed`
--   Cpu/Mmu/Translate/Real  the buffers on that choice while the translation of instructions is off
--   Cpu/Mmu/Instructions    `ppc_tlbie`, `ppc_tlbia`, `ppc_tlbld`, `ppc_tlbli`, `ppc_tlbsync`
--   Cpu/Clock, Cpu/Clock/*  `calc_tbr_value`, `calc_rtcl_value` and `update_timebase`, what the clocks
--                           show after a time and after a write
--   Core/Product            the products of core/mathutils.h
--   Core/Timer              `TimerManager` and its queue of core/timermanager.{h,cpp}
--   Core/Timer/Order, Due, Deadline, Invariant, Client, Expire, Process, Cancel
--                           what the timers promise
--   Cpu/Shift/Family, Cpu/Condition/Family, Cpu/Power/Family, Cpu/Power/Numbers
--                           instructions of one kind together
--   Cpu/Write, Cpu/Effect   what an instruction promises about the whole state
--   Cpu/Tests               concrete runs
--
-- Accesses to memory. `Cpu.Memory.Mmu` has one read and one write, with the size of the access in
-- bytes, the opcode, the address, the state of the processor and that of memory and devices. An access may
-- fault; it then gives the state of the processor that the translation leaves, since it writes DSISR and
-- DAR, or on a 603 the registers of a miss. The C++ leaves an instruction at a fault, an illegal form, a
-- trap or an alignment exception by a longjmp; an `Outcome` says so, with the state at that point. What
-- needs memory takes as the hypothesis `IsRam` that in a context of translation a range of addresses
-- consists of bytes, from which words are read and to which they are written without a fault.
--
-- Address translation. The arrays of one kind of lookaside buffers (instructions or data) are a function
-- from slots to entries; a slot has the number of its array, its index and in a secondary buffer the way.
-- The bits of `flags` are Booleans. A pointer into the memory of the host is a number, and the memory
-- that holds the page table a function from such numbers to bytes. `find_range` is that of the memory
-- controller, a parameter; so is `walk`, the translation that a refill of the buffers starts with. The
-- record `Walker` says what the buffers rely on: a translation is uniform on a page and, in a context
-- that does not change, always the same. An exception leaves the translation as a value, with its bits
-- for SRR1, and ABORT_F is a value too. The loops over four block entries and over the eight entries
-- of a page table group count the entries that are left.
--
-- Context synchronisation. `do_ctx_sync` of Cpu/Mmu/Tlb runs the invalidations that one kind of buffers
-- has registered; for the processor it is a function of the `Host`.
--
-- Divisions without a quotient. The model gives what the source gives, by its comments as observed on the
-- processors; cpu/ppc/test/ppcinttests.csv expects other values for the 601.
--
-- Exceptions. A function that may end in the exception handler gives a `Flow`: the handler returns
-- for an external or decrementer interrupt, and leaves by longjmp for the main loop otherwise. The
-- build's support of little-endian mode, the context synchronisation and the invalidation of the
-- TLBs are a `Host`.
--
-- Timers. A pointer to a `TimerInfo` is a number, and `std::priority_queue` the list in the order
-- in which it is popped, since the standard fixes that order and leaves that of the container open.
-- The callbacks and the clock are `std::function`s, so they are parameters. A theorem that needs
-- them to behave says so by `Callbacks`: they do to the manager what a `Client` does, who adds only
-- inactive timers, as core/timermanager.h asks. The mutexes are left out: one thread runs at a
-- time.
--
-- Fuel. The loop of `process_timers` runs on as many steps as timers have expired and one more,
-- which is enough while callbacks add no timer that has expired already; with such callbacks the
-- source may loop for ever. The loop of `cntlzw` runs on 33 steps, one more than the bits of its
-- mask. The loops of `stmw` and `lmw` count the registers that are left, 32 less the first one.
--
-- Not modelled: floating-point registers and instructions, the data side of the memory management
-- unit, endian modes of memory controllers, the string loads and stores, `power_div` and
-- `power_lscbx`, the special register moves with the decrementer, the main loop and its opcode
-- tables, the disassembler, and all devices and machines.
pub mod Common
pub mod Core
pub mod Cpu
