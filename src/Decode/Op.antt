-- ===== src/Decode/Op.antt =====
-- The major opcodes of src/decode.h.
use quanta.Common.{ℕ}

abbrev pub lui : ℕ
lui = 0x37

abbrev pub auipc : ℕ
auipc = 0x17

abbrev pub jal : ℕ
jal = 0x6f

abbrev pub jalr : ℕ
jalr = 0x67

abbrev pub branch : ℕ
branch = 0x63

abbrev pub load : ℕ
load = 0x03

abbrev pub store : ℕ
store = 0x23

abbrev pub fence : ℕ
fence = 0x0f

abbrev pub imm : ℕ
imm = 0x13

abbrev pub imm_32 : ℕ
imm_32 = 0x1b

abbrev pub reg : ℕ
reg = 0x33

abbrev pub reg_32 : ℕ
reg_32 = 0x3b

abbrev pub amo : ℕ
amo = 0x2f

abbrev pub load_fp : ℕ
load_fp = 0x07

abbrev pub store_fp : ℕ
store_fp = 0x27

abbrev pub madd : ℕ
madd = 0x43

abbrev pub msub : ℕ
msub = 0x47

abbrev pub nmsub : ℕ
nmsub = 0x4b

abbrev pub nmadd : ℕ
nmadd = 0x4f

abbrev pub fp : ℕ
fp = 0x53

abbrev pub system : ℕ
system = 0x73
