-- ===== src/Syscall.antt =====
-- src/syscall.c: the calls of a bare user or machine program. Messages on stderr are left out.
use quanta.Common.{ℕ, zero, suc, ◌+◌, ◌-◌, ◌^◌, ◌||◌, ◌&&◌, ◌==◌, not, true, if◌then◌else◌}
use quanta.Common.Word.{u32}
use quanta.Cpu.{reg_read, reg_write, exit, unknown_syscall}
use quanta.Machine.{Machine, hart, set_cpu, set_mem, put_console}
use quanta.Memory.{mem_read8}

-- The byte loop of `sys_write`, with the rounds left.
unfoldable pub write_bytes : ℕ → ℕ → ℕ → ℕ → Machine → Machine
write_bytes stream buf zero i m = m
write_bytes stream buf (suc left) i m =
    let got = mem_read8 m.mem (u32 (buf + i)) in
    write_bytes stream buf left (i + 1) (put_console (set_mem m got.1) stream got.0)

unfoldable pub sys_write : Machine → Machine
sys_write m =
    let cpu = hart m in
    let fd = u32 (reg_read cpu 10) in
    let buf = u32 (reg_read cpu 11) in
    let count = u32 (reg_read cpu 12) in
    let written = write_bytes fd buf count 0 m in
    if not (fd == 1) && not (fd == 2)
    then set_cpu m (reg_write cpu 10 (2 ^ 32 - 1))
    else set_cpu written (reg_write (hart written) 10 count)

unfoldable pub sys_exit : Machine → Machine
sys_exit m =
    let cpu = hart m in
    set_cpu m record cpu { exit_code = u32 (reg_read cpu 10); halt_reason = exit; halted = true }

unfoldable pub syscall_dispatch : Machine → Machine
syscall_dispatch m =
    let cpu = hart m in
    let num = u32 (reg_read cpu 17) in
    if num == 64
    then sys_write m
    else if num == 93 || num == 94
    then sys_exit m
    else set_cpu m (record cpu { halt_reason = unknown_syscall; halted = true })
