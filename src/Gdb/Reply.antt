-- ===== src/Gdb/Reply.antt =====
-- The stop replies and the register packets of src/gdbstub.c.
use quanta.Common.{
  ℕ, zero, suc, ◌+◌, ◌*◌, Bool, true, false, ◌&&◌, ◌==◌, ltb, if◌then◌else◌, List, [], ◌∷◌, ◌++◌,
  Option, none, some,
}
use quanta.Common.Word.{◌>>◌, ◌&&&◌}
use quanta.Gdb.{
  Engine, Stub, Halt, running, exited, ebreak, illegal_insn, unimp_system, unknown_syscall,
  mem_fault, step_limit,
}
use quanta.Gdb.Hex.{nibble_hex, val_to_hex_le, hex_to_val_le}
use quanta.Gdb.Packet.{send_packet, count}
use quanta.Gdb.Reverse.{reverse_step, reverse_continue}

abbrev pub sig_int : ℕ
sig_int = 2

abbrev pub sig_ill : ℕ
sig_ill = 4

abbrev pub sig_trap : ℕ
sig_trap = 5

abbrev pub sig_segv : ℕ
sig_segv = 11

-- `%02x` of a byte.
abbrev pub hex2 : ℕ → List ℕ
hex2 v = nibble_hex (v >> 4) ∷ nibble_hex v ∷ []

-- "swbreak:;"
abbrev pub swbreak_text : List ℕ
swbreak_text = 115 ∷ 119 ∷ 98 ∷ 114 ∷ 101 ∷ 97 ∷ 107 ∷ 58 ∷ 59 ∷ []

-- "OK" and "E22"
abbrev pub ok_text : List ℕ
ok_text = 79 ∷ 75 ∷ []

abbrev pub e22_text : List ℕ
e22_text = 69 ∷ 50 ∷ 50 ∷ []

unfoldable pub stop_text : Halt → ℕ → ℕ → Bool → List ℕ
stop_text running code sig swbreak =
    if swbreak then 84 ∷ hex2 sig ++ swbreak_text else 83 ∷ hex2 sig
stop_text exited code sig swbreak = 87 ∷ hex2 (code &&& 0xff)
stop_text ebreak code sig swbreak = 83 ∷ hex2 sig_trap
stop_text illegal_insn code sig swbreak = 83 ∷ hex2 sig_ill
stop_text unimp_system code sig swbreak = 83 ∷ hex2 sig_ill
stop_text unknown_syscall code sig swbreak = 83 ∷ hex2 sig_ill
stop_text mem_fault code sig swbreak = 83 ∷ hex2 sig_segv
stop_text step_limit code sig swbreak = 83 ∷ hex2 sig_trap

module _ {M S : Type 0} (engine : Engine M S) where
  unfoldable pub stop_reply : Stub M S → ℕ → Bool → List ℕ
  stop_reply s sig swbreak_hit =
      stop_text (engine.halt_reason s.machine) (engine.exit_code s.machine) sig
        (swbreak_hit && s.feat_swbreak)

  unfoldable pub send_stop : Stub M S → ℕ → Bool → Stub M S
  send_stop s sig swbreak_hit = send_packet s (stop_reply s sig swbreak_hit)

  unfoldable pub handle_reverse_step : Stub M S → Stub M S
  handle_reverse_step s = send_stop (reverse_step engine s) sig_trap false

  unfoldable pub handle_reverse_continue : Stub M S → Stub M S
  handle_reverse_continue s = send_stop (reverse_continue engine s) sig_trap false

  unfoldable pub reg_bytes : Stub M S → ℕ
  reg_bytes s = if engine.xlen s.machine == 64 then 8 else 4

  -- The registers from `i` on, with those left.
  unfoldable pub regs_text : M → ℕ → ℕ → ℕ → List ℕ
  regs_text m nb zero i = []
  regs_text m nb (suc left) i = val_to_hex_le (engine.reg m i) nb ++ regs_text m nb left (i + 1)

  unfoldable pub handle_read_regs : Stub M S → Stub M S
  handle_read_regs s =
      let nb = reg_bytes s in
      send_packet s (regs_text s.machine nb 32 0 ++ val_to_hex_le (engine.pc s.machine) nb)

  unfoldable pub drop : ℕ → List ℕ → List ℕ
  drop zero text = text
  drop (suc n) [] = []
  drop (suc n) (c ∷ text) = drop n text

  -- A register's digits are written, and `none` where one is no digit; the registers before it keep
  -- what they were given.
  unfoldable pub set_from : (M → ℕ → M) → M → Option ℕ → Bool × M
  set_from set m none = (false, m)
  set_from set m (some v) = (true, set m v)

  unfoldable pub write_regs : ℕ → ℕ → ℕ → List ℕ → M → Bool × M
  write_regs nb zero i text m = set_from engine.set_pc m (hex_to_val_le text nb)
  write_regs nb (suc left) i text m =
      let one = set_from (λ n v. engine.set_reg n i v) m (hex_to_val_le text nb) in
      let further = write_regs nb left (i + 1) (drop (nb * 2) text) one.1 in
      if one.0 then further else one

  unfoldable pub handle_write_regs : Stub M S → List ℕ → Stub M S
  handle_write_regs s args =
      let nb = reg_bytes s in
      let written = write_regs nb 32 0 args s.machine in
      if ltb (count args) (33 * (nb * 2))
      then send_packet s e22_text
      else send_packet (record s { machine = written.1 }) (if written.0 then ok_text else e22_text)
