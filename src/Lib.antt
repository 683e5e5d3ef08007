-- ===== src/Lib.antt =====
-- Quanta, a RISC-V emulator: the parts of its core as definitions, with the theorems that make them
-- correct.
--
-- A hart (src/cpu.c) fetches a word from the guest memory (src/memory.c), widens it if it is
-- compressed (src/rvc.c), takes its fields apart (src/decode.h), executes it, and takes traps and
-- interrupts that the devices (src/device.c) raise. A cache model and a pipeline model (src/cache.c,
-- src/pipeline.c) observe the accesses and the instructions.
--
--   Common: the helpers that all share. C's unsigned integers are native numbers with their wrap
--     written out; a signed value is its bit pattern.
--   Decode: the fields and immediates of src/decode.h; Decode.Op and Decode.Csr its constants.
--   Rvc: `rvc_expand` of src/rvc.c, one function for each quadrant, and the format builders in
--     Rvc.Build.
--   Pipeline: `pipeline_observe` and the cycle count of `pipeline_report`; Pipeline.Trace is the
--     run that it is fed.
--   Cache: `cache_init` and `cache_access`, with the scans for a hit and for a victim as functions
--     of their own. A set-up that divides by zero is the result `fault`.
--   Ram: the assembly of little-endian values from bytes, which src/memory.c and src/device.c both
--     have. The RAM is one record; the RAM pointer of a platform is the same RAM, and the platform
--     keeps whether it has one.
--   Device: the CLINT, the PLIC and the UART, a record each with its register reads and writes, and
--     `plat_mip_bits`. Device.Virtqueue has the descriptor chains in guest RAM, Device.Block and
--     Device.Net the two virtio devices, Device.Platform the devices together and the dispatch of an
--     access. A device's effect on the RAM is in its result. The backend of the network device is an
--     argument, and so is what `fseek` reaches in the backing file of a disk.
--   Netstack: src/netstack.c. Netstack.Checksum has the internet checksum, Netstack.Frame the headers
--     that the senders share, Netstack.Gateway ARP, ICMP and DHCP, Netstack.Flow the flow table and
--     UDP, Netstack.Tcp and Netstack.Segment TCP, Netstack.Input the entry points. A call of the
--     host's sockets and a frame for the guest are events of a log; the answers of the sockets and
--     of the heap are a parameter, `Host`, which sees the log. Netstack.Verify, Emit, Table, Keep,
--     Stream and Window are the proofs.
--   Memory: src/memory.c, the accesses with the fault flag, in the RAM or in a device window.
--   Mmu: src/mmu.c, the permissions, the TLB and the page-table walk, one function for a level;
--     Mmu.Mode has the choice of the scheme.
--   Machine: the harts, the index of the running one, the memory, the cache model, the decode caches
--     of src/decodecache.h and the host's console as one state. A function on a `CPU *` of C that
--     reaches more than the hart is a function on a machine.
--   Sbi: src/sbi.c, with the state machine of the harts. Syscall: src/syscall.c.
--   Elf: `elf_load` of src/elf.c, on a file that the host read.
--   Cpu: one hart as a record. Cpu.Scan and Cpu.Bitmanip have the bit-manipulation group, Cpu.Muldiv
--     the multiply and divide group, Cpu.Alu the base integer instructions and the branches, Cpu.Trap
--     trap entry, delegation and return, Cpu.Interrupt the delivery of interrupts, Cpu.Control the
--     CSRs and SYSTEM, Cpu.Access the loads, the stores and the atomics, Cpu.Step the fetch through
--     the decode cache, the dispatch and the end of a step. A step takes floating-point arithmetic
--     through the interface Cpu.Step.Fpu, which Cpu.Float fills.
--   Softfloat: src/softfloat.c. Softfloat.Wide and Softfloat.Sum have the 128-bit and the 256-bit
--     integers, Softfloat.Format the parts of a value, Softfloat.Round the rounding; a result goes
--     with the accrued flags.
--   Dtb: src/dtb.c, the builder's operations; Dtb.Tree has `dtb_build`, whose calls for a
--     configuration are a list that `calls` runs on the builder's state; its result is `none` where
--     more than 8 harts make it write past its array of interrupts.
--   Gdb: src/gdbstub.c. Gdb.Hex has the hex codecs, Gdb.Packet the packets on the socket, Gdb.Break
--     the breakpoints, Gdb.Reverse the checkpoints and the replay, Gdb.Reply the stop replies and the
--     packets of all registers. The machine behind src/quanta.h is an interface, `Engine`; the socket
--     is the bytes to come and the writes that it still takes.
--   Engine: of src/quanta.c the scheduler, `quanta_step` and the loop of `quanta_run` on the harts of
--     a machine, and `machine_poll_halt`.
--   Tests: the theorems at concrete inputs.
--
-- Loops run on the number of rounds left, which the caller gives as the C's bound: 31 rounds for
-- `log2u`, of which a power of two below 2^32 needs no more, the associativity for the scans of a
-- set, 31 sources for the PLIC, the width for the bit scans, the levels for the page-table walk, the
-- smaller of the queue's size and 256 for a descriptor chain, and the distance of the 16-bit ring
-- indices for the loops over available chains. The flush loop of a TCP flow has as many rounds as
-- bytes wait, the loop over the options of a DHCP message as many as it has bytes, the fold of a
-- checksum two, the read of a packet one more than the bytes that will come, and a replay the steps
-- to its target.
--
-- Not modelled: messages on stderr and reports, the symbol lookup of the loader, the
-- disassembler, the JIT (a machine has none, so FENCE.I flushes the decode cache alone), the
-- set-up, the snapshots and the accessors of the engine and the command line; of the GDB stub the
-- packets whose arguments `strtoul` reads, the continue loop, which polls the socket, and the server
-- loop.
pub mod Common
pub mod Decode
pub mod Rvc
pub mod Pipeline
pub mod Cache
pub mod Ram
pub mod Device
pub mod Netstack
pub mod Memory
pub mod Mmu
pub mod Machine
pub mod Sbi
pub mod Syscall
pub mod Elf
pub mod Softfloat
pub mod Cpu
pub mod Dtb
pub mod Engine
pub mod Gdb
pub mod Tests
