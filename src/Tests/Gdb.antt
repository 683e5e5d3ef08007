-- ===== src/Tests/Gdb.antt =====
-- The theorems on the GDB stub, at concrete inputs.
use quanta.Common.{◌%◌, ◌^◌, ◌≡◌, arith, refl, some, [], ◌∷◌, ◌++◌}
use quanta.Gdb.{Engine, Stub, Link, Checkpoint, running}
use quanta.Gdb.Hex.{val_to_hex_le, hex_to_val_le}
use quanta.Gdb.RoundTrip.{hex_to_val_le-val_to_hex_le}
use quanta.Gdb.Packet.{Incoming, packet, write_frame, read_packet}
use quanta.Gdb.Framing.{read_packet-write_frame}

hex_to_val_le-val_to_hex_le_example :
    hex_to_val_le (val_to_hex_le 0x80000010 4 ++ 0 ∷ []) 4 ≡ some (0x80000010 % 256 ^ 4)
hex_to_val_le-val_to_hex_le_example = hex_to_val_le-val_to_hex_le 0x80000010 4 (0 ∷ [])

abbrev socket : Link
socket = record { input = []; output = []; writes = 9 }

-- The packet "OK", and a reader that has a `+` to read behind it.
abbrev ok_sent : Link
ok_sent = record { input = []; output = 36 ∷ 79 ∷ 75 ∷ 35 ∷ 57 ∷ 97 ∷ []; writes = 6 }

abbrev reader : Link
reader = record { input = 36 ∷ 79 ∷ 75 ∷ 35 ∷ 57 ∷ 97 ∷ 43 ∷ []; output = []; writes = 1 }

read_packet-write_frame_example :
    read_packet 8192 reader
    ≡ some (packet (79 ∷ 75 ∷ []), record { input = 43 ∷ []; output = 43 ∷ []; writes = 0 })
unfolding write_frame quanta.Gdb.Packet.write_all quanta.Gdb.Packet.tail_of
    quanta.Gdb.Packet.sum_chars quanta.Gdb.Hex.nibble_hex quanta.Gdb.Packet.count
    quanta.Gdb.Framing.IsPlain
read_packet-write_frame_example =
    read_packet-write_frame 8192 socket ok_sent reader (79 ∷ 75 ∷ []) (43 ∷ []) 0
      (omega arith, (omega arith, tt)) (omega arith) refl refl refl refl
