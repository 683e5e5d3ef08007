-- ===== src/Gdb/RoundTrip.antt =====
-- The hex codecs of src/gdbstub.c undo one another.
use quanta.Common.{
  ℕ, zero, suc, ◌+◌, ◌*◌, ◌/◌, ◌%◌, ◌^◌, ◌<◌, ◌≡◌, arith, ap, ◌∙◌, List, ◌++◌, some,
}
use native.Mathlib.Nat.{
  pow-succ', one-le-pow, div-add-mod', mul-add-mod_self_right, mod-eq_of_lt, mod-lt,
}
use quanta.Common.Bits.{bit_and_mask, bit_or_add, bit_or_add_low}
use quanta.Common.Word.{◌|||◌, ◌&&&◌, ◌<<◌, ◌>>◌}
use quanta.Gdb.Hex.{hex_nibble, nibble_hex, val_to_hex_le, byte_of, below, hex_to_val_le}

pub hex_nibble-nibble_hex : (v : ℕ) → hex_nibble (nibble_hex v) ≡ some (v % 16)
unfolding hex_nibble nibble_hex
hex_nibble-nibble_hex v = ground (arith, bit_and_mask 4 v)

-- The digits of a byte give the byte.
pub byte_of-nibble_hex :
    (v : ℕ)
    → byte_of (hex_nibble (nibble_hex (v >> 4))) (hex_nibble (nibble_hex v)) ≡ some (v % 256)
unfolding byte_of
byte_of-nibble_hex v =
    rw (hex_nibble-nibble_hex (v >> 4), hex_nibble-nibble_hex v)
      (ap some (bit_or_add 4 (v / 16 % 16 * 16) (v % 16) (omega arith) (omega arith) ∙ omega arith))

-- The low bytes of a value are its lowest byte and those of the rest.
mod_byte : (v nbytes : ℕ) → v % 256 ^ suc nbytes ≡ v / 256 % 256 ^ nbytes * 256 + v % 256
mod_byte v nbytes =
    let m = 256 ^ nbytes in
    let pos : 0 < m = one-le-pow nbytes 256 (omega arith) in
    let q = v / 256 / m in
    let parts : v ≡ q * (256 * m) + (v / 256 % m * 256 + v % 256) =
      omega (arith, div-add-mod' (v / 256) m) in
    rw (pow-succ' 256 nbytes) (
      ap (λ t. t % (256 * m)) parts
      ∙ mul-add-mod_self_right q (256 * m) (v / 256 % m * 256 + v % 256)
      ∙ mod-eq_of_lt (omega (arith, mod-lt (v / 256) pos)))

-- What is read from the digits of a value, with more text behind them, is its low bytes.
pub hex_to_val_le-val_to_hex_le :
    (v nbytes : ℕ) (text : List ℕ)
    → hex_to_val_le (val_to_hex_le v nbytes ++ text) nbytes ≡ some (v % 256 ^ nbytes)
unfolding hex_to_val_le val_to_hex_le below
hex_to_val_le-val_to_hex_le v zero text = ap some (omega arith)
hex_to_val_le-val_to_hex_le v (suc nbytes) text =
    let rest = hex_to_val_le-val_to_hex_le (v / 256) nbytes text in
    let byte : v &&& 0xff ≡ v % 256 = bit_and_mask 8 v in
    let joined : (v % 256 % 256 ||| (v / 256 % 256 ^ nbytes) << 8) ≡ v % 256 ^ suc nbytes =
      bit_or_add_low 8 (v % 256 % 256) ((v / 256 % 256 ^ nbytes) << 8) (omega arith) (omega arith)
      ∙ omega (arith, mod_byte v nbytes) in
    rw (byte, byte_of-nibble_hex (v % 256), rest) (ap some joined)
