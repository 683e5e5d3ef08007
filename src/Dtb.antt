-- ===== src/Dtb.antt =====
-- The device tree builder of src/dtb.c: its cursor state and the calls that append to it. A text is
-- a `String` of ASCII characters, and its bytes end with a NUL as in C.
pub mod Tree
pub mod Bounds
pub mod Names
use Prim.Native.Char.{Char, code}
use Prim.Native.String.{String}
use quanta.Common.{
  ℕ, zero, suc, ◌+◌, ◌-◌, ◌*◌, ◌%◌, Bool, true, false, ◌&&◌, ◌==◌, ltb, leb, if◌then◌else◌, List,
  [], ◌∷◌, ◌++◌, Option, none, some,
}
use quanta.Common.Word.{◌>>◌, u8, update}

-- `spos` is the cursor into `out`, and `strings` a buffer of 512 bytes.
pub record Fdt : Type 0 where
  pub out : ℕ → ℕ
  pub cap : ℕ
  pub spos : ℕ
  pub strings : ℕ → ℕ
  pub slen : ℕ
  pub ok : Bool

abbrev pub strings_max : ℕ
strings_max = 512

abbrev pub struct_off : ℕ
struct_off = 56

-- The characters of a text, without its NUL.
unfoldable pub codes : String → List ℕ
codes String.[] = []
codes (String.◌∷◌ c s) = code c ∷ codes s

unfoldable pub size : List ℕ → ℕ
size [] = 0
size (b ∷ bs) = suc (size bs)

-- `memcpy` of a list's bytes.
unfoldable pub put_list : (ℕ → ℕ) → ℕ → List ℕ → ℕ → ℕ
put_list p i [] = p
put_list p i (b ∷ bs) = put_list (update p i b) (i + 1) bs

unfoldable pub be_bytes : ℕ → List ℕ
be_bytes v = u8 (v >> 24) ∷ u8 (v >> 16) ∷ u8 (v >> 8) ∷ u8 v ∷ []

unfoldable pub wr_be : (ℕ → ℕ) → ℕ → ℕ → ℕ → ℕ
wr_be p i v = put_list p i (be_bytes v)

-- The bytes at the cursor, unless they do not fit: both `put_u32` and `put_bytes`.
unfoldable pub put_raw : List ℕ → Fdt → Fdt
put_raw bytes f =
    if ltb f.cap (f.spos + size bytes)
    then record f { ok = false }
    else record f { out = put_list f.out f.spos bytes; spos = f.spos + size bytes }

unfoldable pub put_u32 : ℕ → Fdt → Fdt
put_u32 v f = put_raw (be_bytes v) f

unfoldable pub put_bytes : List ℕ → Fdt → Fdt
put_bytes [] f = f
put_bytes (b ∷ bs) f = put_raw (b ∷ bs) f

-- The loop, of at most three rounds, with the rounds left.
unfoldable pub pad_rounds : ℕ → Fdt → Fdt
pad_rounds zero f = f
pad_rounds (suc left) f =
    let further = pad_rounds left (record f { out = update f.out f.spos 0; spos = f.spos + 1 }) in
    if f.spos % 4 == 0
    then f
    else if ltb f.cap (f.spos + 1)
    then record f { ok = false }
    else further

unfoldable pub pad_struct : Fdt → Fdt
pad_struct f = pad_rounds 3 f

-- `strcmp(strings + i, name) == 0`.
unfoldable pub name_at : (ℕ → ℕ) → ℕ → List ℕ → Bool
name_at strings i [] = strings i == 0
name_at strings i (c ∷ cs) = strings i == c && name_at strings (i + 1) cs

-- `strlen(strings + i)`, of at most the bytes left.
unfoldable pub strlen_at : (ℕ → ℕ) → ℕ → ℕ → ℕ
strlen_at strings zero i = 0
strlen_at strings (suc left) i =
    let rest = strlen_at strings left (i + 1) in if strings i == 0 then 0 else suc rest

-- The search from `i` on, with the rounds left.
unfoldable pub find_name : Fdt → List ℕ → ℕ → ℕ → Option ℕ
find_name f name zero i = none
find_name f name (suc left) i =
    let further = find_name f name left (i + (strlen_at f.strings strings_max i + 1)) in
    if leb f.slen i then none else if name_at f.strings i name then some i else further

-- A name that is not there is appended, if it fits.
unfoldable pub append_name : Fdt → List ℕ → Option ℕ → ℕ × Fdt
append_name f name (some i) = (i, f)
append_name f name none =
    let n = size name + 1 in
    if ltb strings_max (f.slen + n) then (0, record f { ok = false }) else (
      f.slen,
      record f { strings = put_list f.strings f.slen (name ++ 0 ∷ []); slen = f.slen + n },
    )

unfoldable pub intern : Fdt → List ℕ → ℕ × Fdt
intern f name = append_name f name (find_name f name f.slen 0)

-- `put_u32(f, intern(f, name))`.
unfoldable pub put_name : List ℕ → Fdt → Fdt
put_name name f = let interned = intern f name in put_u32 interned.0 interned.1

unfoldable pub begin_node : List ℕ → Fdt → Fdt
begin_node name f = pad_struct (put_bytes (name ++ 0 ∷ []) (put_u32 1 f))

unfoldable pub end_node : Fdt → Fdt
end_node f = put_u32 2 f

unfoldable pub prop : List ℕ → List ℕ → Fdt → Fdt
prop name bytes f =
    pad_struct (put_bytes bytes (put_name name (put_u32 (size bytes) (put_u32 3 f))))

unfoldable pub put_cells : List ℕ → Fdt → Fdt
put_cells [] f = f
put_cells (c ∷ cs) f = put_cells cs (put_u32 c f)

unfoldable pub prop_cells : List ℕ → List ℕ → Fdt → Fdt
prop_cells name cells f =
    pad_struct (put_cells cells (put_name name (put_u32 (size cells * 4) (put_u32 3 f))))
