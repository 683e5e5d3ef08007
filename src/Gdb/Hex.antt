-- ===== src/Gdb/Hex.antt =====
-- The hex codecs of src/gdbstub.c. A character is its code.
use quanta.Common.{
  ℕ, zero, suc, ◌+◌, ◌-◌, ◌&&◌, ltb, leb, if◌then◌else◌, List, [], ◌∷◌, Option, none, some,
}
use quanta.Common.Word.{◌|||◌, ◌&&&◌, ◌<<◌, ◌>>◌}

unfoldable pub hex_nibble : ℕ → Option ℕ
hex_nibble c =
    if leb 48 c && leb c 57
    then some (c - 48)
    else if leb 97 c && leb c 102
    then some (c - 97 + 10)
    else if leb 65 c && leb c 70
    then some (c - 65 + 10)
    else none

unfoldable pub nibble_hex : ℕ → ℕ
nibble_hex v = let d = v &&& 0xf in if ltb d 10 then 48 + d else 97 + (d - 10)

-- The bytes of a value from the lowest on, each as two digits.
unfoldable pub val_to_hex_le : ℕ → ℕ → List ℕ
val_to_hex_le v zero = []
val_to_hex_le v (suc nbytes) =
    let byte = v &&& 0xff in
    nibble_hex (byte >> 4) ∷ nibble_hex byte ∷ val_to_hex_le (v >> 8) nbytes

-- Two digits as a byte.
unfoldable pub byte_of : Option ℕ → Option ℕ → Option ℕ
byte_of none lo = none
byte_of (some hi) none = none
byte_of (some hi) (some lo) = some (hi << 4 ||| lo)

-- A byte below the value of the digits behind it.
unfoldable pub below : Option ℕ → Option ℕ → Option ℕ
below none rest = none
below (some byte) none = none
below (some byte) (some rest) = some (byte ||| rest << 8)

-- `none` on a character that is no digit; the text's end is its NUL, which is none either.
unfoldable pub hex_to_val_le : List ℕ → ℕ → Option ℕ
hex_to_val_le text zero = some 0
hex_to_val_le [] (suc nbytes) = none
hex_to_val_le (h ∷ []) (suc nbytes) = none
hex_to_val_le (h ∷ l ∷ text) (suc nbytes) =
    below (byte_of (hex_nibble h) (hex_nibble l)) (hex_to_val_le text nbytes)
