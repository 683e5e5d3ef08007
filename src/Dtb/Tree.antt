-- ===== src/Dtb/Tree.antt =====
-- `dtb_build` of src/dtb.c: the calls that it makes, in order, and the blob.
use Prim.Native.String.{String}
use quanta.Common.{
  ℕ, zero, suc, ◌+◌, ◌-◌, ◌/◌, ◌%◌, true, not, ◌||◌, ◌==◌, ltb, if◌then◌else◌, List, [], ◌∷◌, ◌++◌,
  Option, none, some,
}
use quanta.Common.Word.{u32, update}
use quanta.Dtb.{Fdt, codes, wr_be, put_u32, begin_node, end_node, prop, prop_cells, struct_off}

pub record DtbConfig : Type 0 where
  pub mem_base : ℕ
  pub mem_size : ℕ
  pub test_base : ℕ
  pub test_size : ℕ
  pub clint_base : ℕ
  pub clint_size : ℕ
  pub plic_base : ℕ
  pub plic_size : ℕ
  pub uart_base : ℕ
  pub uart_size : ℕ
  pub uart_irq : ℕ
  pub plic_ndev : ℕ
  pub boot_hart : ℕ
  pub nharts : ℕ
  pub timebase_freq : ℕ
  pub isa : List ℕ
  pub mmu_type : List ℕ
  pub bootargs : List ℕ
  pub initrd_start : ℕ
  pub initrd_end : ℕ
  pub virtio_net_base : ℕ
  pub virtio_net_size : ℕ
  pub virtio_net_irq : ℕ
  pub virtio_blk_base : ℕ
  pub virtio_blk_size : ℕ
  pub virtio_blk_irq : ℕ

-- A call of the builder.
pub data Call : Type 0 where
  begins : List ℕ → Call
  ends finishes : Call
  sets : String → List ℕ → Call
  cells : String → List ℕ → Call

unfoldable pub call : Call → Fdt → Fdt
call (begins name) f = begin_node name f
call ends f = end_node f
call finishes f = put_u32 9 f
call (sets name bytes) f = prop (codes name) bytes f
call (cells name values) f = prop_cells (codes name) values f

unfoldable pub calls : List Call → Fdt → Fdt
calls [] f = f
calls (c ∷ cs) f = calls cs (call c f)

-- `prop_empty`, `prop_str`, `prop_u32` and `prop_reg`.
abbrev pub empty : String → Call
empty name = sets name []

abbrev pub str : String → List ℕ → Call
str name text = sets name (text ++ 0 ∷ [])

abbrev pub one : String → ℕ → Call
one name v = cells name (v ∷ [])

abbrev pub reg_pair : ℕ → ℕ → Call
reg_pair base length = cells "reg" (0 ∷ base ∷ 0 ∷ length ∷ [])

-- `%x`: the hex digits from the highest on, of at most `left` behind those given.
unfoldable pub hex_digits : ℕ → ℕ → List ℕ → List ℕ
hex_digits zero v text = text
hex_digits (suc left) v text =
    let d = v % 16 in
    let shown = (if ltb d 10 then 48 + d else 87 + d) ∷ text in
    let further = hex_digits left (v / 16) shown in if v / 16 == 0 then shown else further

-- A node's name with a unit address of 32 bits.
unfoldable pub unit : String → ℕ → List ℕ
unit name v = codes name ++ hex_digits 8 v []

abbrev pub phandle_plic : ℕ
phandle_plic = 2

abbrev pub phandle_cpu_intc : ℕ → ℕ
phandle_cpu_intc h = 16 + h

unfoldable pub root : List Call
root =
    begins []
    ∷ one "#address-cells" 2
    ∷ one "#size-cells" 2
    ∷ str "compatible" (codes "quanta,virt")
    ∷ str "model" (codes "quanta,virt")
    ∷ []

unfoldable pub initrd : DtbConfig → List Call
initrd cfg =
    if ltb cfg.initrd_start cfg.initrd_end
    then cells "linux,initrd-start" (0 ∷ cfg.initrd_start ∷ [])
      ∷ cells "linux,initrd-end" (0 ∷ cfg.initrd_end ∷ [])
      ∷ []
    else []

unfoldable pub chosen : DtbConfig → List Call
chosen cfg =
    (begins (codes "chosen")
      ∷ str "stdout-path" (codes "/soc/uart@10000000")
      ∷ str "bootargs" cfg.bootargs
      ∷ [])
    ++ (initrd cfg ++ (ends ∷ []))

unfoldable pub harts : DtbConfig → ℕ
harts cfg = if cfg.nharts == 0 then 1 else cfg.nharts

unfoldable pub cpu_node : DtbConfig → ℕ → List Call
cpu_node cfg h =
    begins (unit "cpu@" h)
    ∷ str "device_type" (codes "cpu")
    ∷ one "reg" h
    ∷ str "status" (codes "okay")
    ∷ str "compatible" (codes "riscv")
    ∷ str "riscv,isa" cfg.isa
    ∷ str "mmu-type" cfg.mmu_type
    ∷ begins (codes "interrupt-controller")
    ∷ one "#interrupt-cells" 1
    ∷ empty "interrupt-controller"
    ∷ str "compatible" (codes "riscv,cpu-intc")
    ∷ one "phandle" (phandle_cpu_intc h)
    ∷ ends
    ∷ ends
    ∷ []

-- The loop over the harts from `h` on, with those left.
unfoldable pub cpu_nodes : DtbConfig → ℕ → ℕ → List Call
cpu_nodes cfg zero h = []
cpu_nodes cfg (suc left) h = cpu_node cfg h ++ cpu_nodes cfg left (h + 1)

unfoldable pub cpus : DtbConfig → List Call
cpus cfg =
    (begins (codes "cpus")
      ∷ one "#address-cells" 1
      ∷ one "#size-cells" 0
      ∷ one "timebase-frequency" cfg.timebase_freq
      ∷ [])
    ++ (cpu_nodes cfg (harts cfg) 0 ++ (ends ∷ []))

unfoldable pub memory : DtbConfig → List Call
memory cfg =
    begins (unit "memory@" cfg.mem_base)
    ∷ str "device_type" (codes "memory")
    ∷ reg_pair cfg.mem_base cfg.mem_size
    ∷ ends
    ∷ []

-- The pairs of a controller and a cause, two for each hart from `h` on.
unfoldable pub irqs : ℕ → ℕ → ℕ → ℕ → List ℕ
irqs first second zero h = []
irqs first second (suc left) h =
    phandle_cpu_intc h ∷ first ∷ phandle_cpu_intc h ∷ second ∷ irqs first second left (h + 1)

unfoldable pub clint : DtbConfig → List Call
clint cfg =
    begins (unit "clint@" cfg.clint_base)
    ∷ str "compatible" (codes "riscv,clint0")
    ∷ reg_pair cfg.clint_base cfg.clint_size
    ∷ cells "interrupts-extended" (irqs 3 7 (harts cfg) 0)
    ∷ ends
    ∷ []

unfoldable pub plic : DtbConfig → List Call
plic cfg =
    begins (unit "plic@" cfg.plic_base)
    ∷ str "compatible" (codes "riscv,plic0")
    ∷ reg_pair cfg.plic_base cfg.plic_size
    ∷ one "#interrupt-cells" 1
    ∷ empty "interrupt-controller"
    ∷ cells "interrupts-extended" (irqs 11 9 (harts cfg) 0)
    ∷ one "riscv,ndev" cfg.plic_ndev
    ∷ one "phandle" phandle_plic
    ∷ ends
    ∷ []

unfoldable pub uart : DtbConfig → List Call
uart cfg =
    begins (unit "uart@" cfg.uart_base)
    ∷ str "compatible" (codes "ns16550a")
    ∷ reg_pair cfg.uart_base cfg.uart_size
    ∷ one "clock-frequency" 3686400
    ∷ one "interrupt-parent" phandle_plic
    ∷ one "interrupts" cfg.uart_irq
    ∷ ends
    ∷ []

-- A virtio device, if it is there.
unfoldable pub virtio : ℕ → ℕ → ℕ → List Call
virtio base length irq =
    if base == 0
    then []
    else begins (unit "virtio@" base)
      ∷ str "compatible" (codes "virtio,mmio")
      ∷ reg_pair base length
      ∷ one "interrupt-parent" phandle_plic
      ∷ one "interrupts" irq
      ∷ ends
      ∷ []

-- The finisher, whose compatible is a list of two texts.
unfoldable pub finisher : DtbConfig → List Call
finisher cfg =
    begins (unit "test@" cfg.test_base)
    ∷ sets "compatible" (codes "sifive,test1" ++ (0 ∷ (codes "sifive,test0" ++ (0 ∷ []))))
    ∷ reg_pair cfg.test_base cfg.test_size
    ∷ ends
    ∷ []

unfoldable pub soc : DtbConfig → List Call
soc cfg =
    (begins (codes "soc")
      ∷ one "#address-cells" 2
      ∷ one "#size-cells" 2
      ∷ str "compatible" (codes "simple-bus")
      ∷ empty "ranges"
      ∷ [])
    ++ (clint cfg
        ++ (plic cfg
            ++ (uart cfg
                ++ (virtio cfg.virtio_blk_base cfg.virtio_blk_size cfg.virtio_blk_irq
                    ++ (virtio cfg.virtio_net_base cfg.virtio_net_size cfg.virtio_net_irq
                        ++ (finisher cfg ++ (ends ∷ [])))))))

unfoldable pub tree : DtbConfig → List Call
tree cfg = root ++ (chosen cfg ++ (cpus cfg ++ (memory cfg ++ (soc cfg ++ (ends ∷ finishes ∷ [])))))

-- `memcpy` of the strings block.
unfoldable pub put_strings : (ℕ → ℕ) → ℕ → (ℕ → ℕ) → ℕ → ℕ → ℕ
put_strings p i strings zero = p
put_strings p i strings (suc left) =
    put_strings (update p i (strings 0)) (i + 1) (λ k. strings (k + 1)) left

-- The header behind the blocks.
unfoldable pub header : (ℕ → ℕ) → Fdt → ℕ → ℕ → ℕ
header p f boot_hart =
    let sizes = wr_be (wr_be (wr_be p 0 0xd00dfeed) 4 (u32 (f.spos + f.slen))) 8 struct_off in
    let places = wr_be (wr_be sizes 12 (u32 f.spos)) 16 40 in
    let versions = wr_be (wr_be (wr_be places 20 17) 24 16) 28 boot_hart in
    wr_be (wr_be versions 32 (u32 f.slen)) 36 (u32 (f.spos - struct_off))

-- The blob's size, or 0 where it does not fit, and the buffer.
unfoldable pub close_tree : Fdt → ℕ → ℕ × (ℕ → ℕ)
close_tree f boot_hart =
    if not f.ok || ltb f.cap (f.spos + f.slen)
    then (0, f.out)
    else (f.spos + f.slen, header (put_strings f.out f.spos f.strings f.slen) f boot_hart)

-- The builder over a buffer that is all zero, which also lays down the empty reservation block.
abbrev pub begun : (ℕ → ℕ) → ℕ → Fdt
begun buf cap = record {
  out = λ k. if ltb k cap then 0 else buf k;
  cap = cap;
  spos = struct_off;
  strings = λ _. 0;
  slen = 0;
  ok = true;
}

-- `QUANTA_MAX_HARTS`: the array `irqs` on the stack has four cells for each.
abbrev pub quanta_max_harts : ℕ
quanta_max_harts = 8

-- `none` is a write past the array of the interrupts, which more than 8 harts fill.
unfoldable pub dtb_build : (ℕ → ℕ) → ℕ → DtbConfig → Option (ℕ × (ℕ → ℕ))
dtb_build buf cap cfg =
    if ltb cap struct_off
    then some (0, buf)
    else if ltb quanta_max_harts (harts cfg)
    then none
    else some (close_tree (calls (tree cfg) (begun buf cap)) cfg.boot_hart)
