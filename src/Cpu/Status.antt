-- ===== src/Cpu/Status.antt =====
-- The bits of mstatus and mip, and the cause codes, of src/cpu.h and src/cpu.c.
use quanta.Common.{ℕ}
use quanta.Common.Word.{◌|||◌}

abbrev pub mstatus_sie : ℕ
mstatus_sie = 0x2

abbrev pub mstatus_mie : ℕ
mstatus_mie = 0x8

abbrev pub mstatus_spie : ℕ
mstatus_spie = 0x20

abbrev pub mstatus_mpie : ℕ
mstatus_mpie = 0x80

abbrev pub mstatus_spp : ℕ
mstatus_spp = 0x100

abbrev pub mstatus_mpp : ℕ
mstatus_mpp = 0x1800

abbrev pub mstatus_fs : ℕ
mstatus_fs = 0x6000

abbrev pub mstatus_mprv : ℕ
mstatus_mprv = 0x20000

abbrev pub mstatus_sum : ℕ
mstatus_sum = 0x40000

abbrev pub mstatus_mxr : ℕ
mstatus_mxr = 0x80000

abbrev pub sstatus_mask : ℕ
sstatus_mask =
    mstatus_sie ||| mstatus_spie ||| mstatus_spp ||| mstatus_fs ||| mstatus_sum ||| mstatus_mxr

abbrev pub s_int_mask : ℕ
s_int_mask = 0x222

-- `MIP_MSIP | MIP_MTIP | MIP_MEIP | MIP_SEIP`.
abbrev pub mip_msip : ℕ
mip_msip = 0x8

abbrev pub mip_mtip : ℕ
mip_mtip = 0x80

abbrev pub mip_seip : ℕ
mip_seip = 0x200

abbrev pub mip_meip : ℕ
mip_meip = 0x800

abbrev pub mip_devices : ℕ
mip_devices = mip_msip ||| mip_mtip ||| mip_meip ||| mip_seip

abbrev pub menvcfg_stce : ℕ
menvcfg_stce = 0x8000000000000000

-- The interrupt numbers.
abbrev pub irq_ssoft : ℕ
irq_ssoft = 1

abbrev pub irq_msoft : ℕ
irq_msoft = 3

abbrev pub irq_stimer : ℕ
irq_stimer = 5

abbrev pub irq_mtimer : ℕ
irq_mtimer = 7

abbrev pub irq_sext : ℕ
irq_sext = 9

abbrev pub irq_mext : ℕ
irq_mext = 11

-- The cause codes.
abbrev pub cause_illegal_insn : ℕ
cause_illegal_insn = 2

abbrev pub cause_breakpoint : ℕ
cause_breakpoint = 3

abbrev pub cause_ecall_u : ℕ
cause_ecall_u = 8

abbrev pub cause_ecall_s : ℕ
cause_ecall_s = 9

abbrev pub cause_ecall_m : ℕ
cause_ecall_m = 11
