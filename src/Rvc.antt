-- ===== src/Rvc.antt =====
-- src/rvc.c: the expander of compressed instructions. A 16-bit encoding is widened to the 32-bit
-- word that it abbreviates; 0 is `RVC_ILLEGAL`. `Build` has the builders of the 32-bit formats.
pub mod Build
pub mod Encode
pub mod Stack
pub mod Legal
use quanta.Common.{ℕ, ◌+◌, ◌-◌, ◌^◌, Bool, true, false, not, ◌&&◌, ◌==◌, if◌then◌else◌, nonzero}
use quanta.Common.Word.{◌|||◌, ◌^^^◌, ◌&&&◌, ◌>>◌, shl32, sub32}
use Build.{r_type, i_type, s_type, b_type, u_type, j_type}

-- `RVC_ILLEGAL` of src/rvc.h.
abbrev pub illegal : ℕ
illegal = 0

-- The macros `BIT` and `BITS`.
abbrev pub bit : ℕ → ℕ → ℕ
bit c n = c >> n &&& 1

abbrev pub bits : ℕ → ℕ → ℕ → ℕ
bits c hi lo = c >> lo &&& 2 ^ (hi - lo + 1) - 1

unfoldable pub sext : ℕ → ℕ → ℕ
sext v width = let m = 2 ^ (width - 1) in sub32 (v ^^^ m) m

unfoldable pub rdp : ℕ → ℕ
rdp c = bits c 4 2 + 8

unfoldable pub rs1p : ℕ → ℕ
rs1p c = bits c 9 7 + 8

-- The immediates that several encodings share: the offset of a doubleword, of a word, the 6-bit
-- signed immediate, and the offset of a jump.
unfoldable pub offset_d : ℕ → ℕ
offset_d c = shl32 (bits c 12 10) 3 ||| shl32 (bits c 6 5) 6

unfoldable pub offset_w : ℕ → ℕ
offset_w c = shl32 (bits c 12 10) 3 ||| shl32 (bit c 6) 2 ||| shl32 (bit c 5) 6

unfoldable pub imm6 : ℕ → ℕ
unfolding sext
imm6 c = sext (shl32 (bit c 12) 5 ||| bits c 6 2) 6

unfoldable pub offset_jump : ℕ → ℕ
unfolding sext
offset_jump c =
    sext
      (shl32 (bit c 12) 11
        ||| shl32 (bit c 11) 4
        ||| shl32 (bits c 10 9) 8
        ||| shl32 (bit c 8) 10
        ||| shl32 (bit c 7) 6
        ||| shl32 (bit c 6) 7
        ||| shl32 (bits c 5 3) 1
        ||| shl32 (bit c 2) 5)
      12

unfoldable pub offset_branch : ℕ → ℕ
unfolding sext
offset_branch c =
    sext
      (shl32 (bit c 12) 8
        ||| shl32 (bits c 6 5) 6
        ||| shl32 (bit c 2) 5
        ||| shl32 (bits c 11 10) 3
        ||| shl32 (bits c 4 3) 1)
      9

unfoldable pub expand_q0 : ℕ → Bool → ℕ
unfolding rdp rs1p offset_d offset_w
expand_q0 c rv64 =
    let sel = bits c 15 13 in
    if sel == 0
    then (let imm =
          shl32 (bits c 12 11) 4
          ||| shl32 (bits c 10 7) 6
          ||| shl32 (bit c 6) 2
          ||| shl32 (bit c 5) 3 in
        if imm == 0 then illegal else i_type imm 2 0x0 (rdp c) 0x13)
    else if sel == 1
    then i_type (offset_d c) (rs1p c) 0x3 (rdp c) 0x07
    else if sel == 2
    then i_type (offset_w c) (rs1p c) 0x2 (rdp c) 0x03
    else if sel == 3
    then (if rv64
        then i_type (offset_d c) (rs1p c) 0x3 (rdp c) 0x03
        else i_type (offset_w c) (rs1p c) 0x2 (rdp c) 0x07)
    else if sel == 5
    then s_type (offset_d c) (rdp c) (rs1p c) 0x3 0x27
    else if sel == 6
    then s_type (offset_w c) (rdp c) (rs1p c) 0x2 0x23
    else if sel == 7
    then (if rv64
        then s_type (offset_d c) (rdp c) (rs1p c) 0x3 0x23
        else s_type (offset_w c) (rdp c) (rs1p c) 0x2 0x27)
    else illegal

-- The register operations under funct3 4 of quadrant 1.
unfoldable pub expand_alu : ℕ → Bool → ℕ
unfolding rdp rs1p imm6
expand_alu c rv64 =
    let rp = rs1p c in
    let shamt = shl32 (bit c 12) 5 ||| bits c 6 2 in
    let op = bits c 11 10 in
    let sel = bits c 6 5 in
    if op == 0
    then (if not rv64 && nonzero (bit c 12) then illegal else i_type shamt rp 0x5 rp 0x13)
    else if op == 1
    then (if not rv64 && nonzero (bit c 12)
        then illegal
        else i_type (0x400 ||| (shamt &&& 0x3f)) rp 0x5 rp 0x13)
    else if op == 2
    then i_type (imm6 c) rp 0x7 rp 0x13
    else if nonzero (bit c 12)
    then (if not rv64
        then illegal
        else if sel == 0
        then r_type 0x20 (rdp c) rp 0x0 rp 0x3b
        else if sel == 1
        then r_type 0x00 (rdp c) rp 0x0 rp 0x3b
        else illegal)
    else if sel == 0
    then r_type 0x20 (rdp c) rp 0x0 rp 0x33
    else if sel == 1
    then r_type 0x00 (rdp c) rp 0x4 rp 0x33
    else if sel == 2
    then r_type 0x00 (rdp c) rp 0x6 rp 0x33
    else r_type 0x00 (rdp c) rp 0x7 rp 0x33

unfoldable pub expand_q1 : ℕ → Bool → ℕ
unfolding rs1p imm6 offset_jump offset_branch sext expand_alu
expand_q1 c rv64 =
    let rd = bits c 11 7 in
    let sel = bits c 15 13 in
    if sel == 0
    then i_type (imm6 c) rd 0x0 rd 0x13
    else if sel == 1
    then (if rv64
        then (if rd == 0 then illegal else i_type (imm6 c) rd 0x0 rd 0x1b)
        else j_type (offset_jump c) 1 0x6f)
    else if sel == 2
    then i_type (imm6 c) 0 0x0 rd 0x13
    else if sel == 3
    then (if rd == 2
        then (let imm =
              sext
                (shl32 (bit c 12) 9
                  ||| shl32 (bits c 4 3) 7
                  ||| shl32 (bit c 5) 6
                  ||| shl32 (bit c 2) 5
                  ||| shl32 (bit c 6) 4)
                10 in
            if imm == 0 then illegal else i_type imm 2 0x0 2 0x13)
        else (if imm6 c == 0 then illegal else u_type (imm6 c) rd 0x37))
    else if sel == 4
    then expand_alu c rv64
    else if sel == 5
    then j_type (offset_jump c) 0 0x6f
    else b_type (offset_branch c) 0 (rs1p c) (if sel == 6 then 0x0 else 0x1) 0x63

unfoldable pub expand_q2 : ℕ → Bool → ℕ
expand_q2 c rv64 =
    let rd = bits c 11 7 in
    let rs2 = bits c 6 2 in
    let sel = bits c 15 13 in
    let sp_d = shl32 (bit c 12) 5 ||| shl32 (bits c 6 5) 3 ||| shl32 (bits c 4 2) 6 in
    let sp_w = shl32 (bit c 12) 5 ||| shl32 (bits c 6 4) 2 ||| shl32 (bits c 3 2) 6 in
    let store_d = shl32 (bits c 12 10) 3 ||| shl32 (bits c 9 7) 6 in
    let store_w = shl32 (bits c 12 9) 2 ||| shl32 (bits c 8 7) 6 in
    if sel == 0
    then (if not rv64 && nonzero (bit c 12)
        then illegal
        else i_type (shl32 (bit c 12) 5 ||| rs2) rd 0x1 rd 0x13)
    else if sel == 1
    then i_type sp_d 2 0x3 rd 0x07
    else if sel == 2
    then (if rd == 0 then illegal else i_type sp_w 2 0x2 rd 0x03)
    else if sel == 3
    then (if rv64
        then (if rd == 0 then illegal else i_type sp_d 2 0x3 rd 0x03)
        else i_type sp_w 2 0x2 rd 0x07)
    else if sel == 4
    then (if bit c 12 == 0
        then (if rs2 == 0
            then (if rd == 0 then illegal else i_type 0 rd 0x0 0 0x67)
            else r_type 0x00 rs2 0 0x0 rd 0x33)
        else if rd == 0 && rs2 == 0
        then i_type 1 0 0x0 0 0x73
        else if rs2 == 0
        then i_type 0 rd 0x0 1 0x67
        else r_type 0x00 rs2 rd 0x0 rd 0x33)
    else if sel == 5
    then s_type store_d rs2 2 0x3 0x27
    else if sel == 6
    then s_type store_w rs2 2 0x2 0x23
    else (if rv64 then s_type store_d rs2 2 0x3 0x23 else s_type store_w rs2 2 0x2 0x27)

unfoldable pub rvc_expand : ℕ → Bool → ℕ
unfolding expand_q0 expand_q1 expand_q2
rvc_expand c rv64 =
    let quadrant = c &&& 0x3 in
    if quadrant == 0
    then expand_q0 c rv64
    else if quadrant == 1
    then expand_q1 c rv64
    else if quadrant == 2
    then expand_q2 c rv64
    else illegal
