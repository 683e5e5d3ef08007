-- ===== src/Device/Platform.antt =====
-- The platform of src/device.c: the devices together, the interrupt lines, and the dispatch of an
-- access to the device whose window it lies in.
use quanta.Common.{ℕ, ◌-◌, ◌*◌, ◌^◌, ◌||◌, Bool, true, false, ◌==◌, ltb, if◌then◌else◌, none, []}
use quanta.Common.Word.{◌|||◌, ◌&&&◌, ◌<<◌, ◌>>◌, u8, u32, sub64}
use quanta.Ram.{Ram}
use quanta.Device.{plat_mip_bits}
use quanta.Device.Clint.{Clint, clint_read, clint_write}
use quanta.Device.Plic.{Plic, plic_read, plic_write}
use quanta.Device.Uart.{Uart, uart_asserted, uart_read, uart_write}
use quanta.Device.Block.{Virtio, Disk, virtio_reset, virtio_read, virtio_write}
use quanta.Device.Net.{VirtioNet, Backend, empty_vq, net_receive, virtio_net_read, virtio_net_write}

-- `ram_attached` is a RAM pointer other than NULL, `has_harts` a hart array other than NULL.
pub record Platform : Type 0 where
  pub clint : Clint
  pub uart : Uart
  pub plic : Plic
  pub virtio : Virtio
  pub net : VirtioNet
  pub backend : Backend
  pub disk : Disk
  pub has_harts : Bool
  pub nharts : ℕ
  pub ram_attached : Bool
  pub poweroff : Bool
  pub poweroff_code : ℕ

unfoldable pub in_window : ℕ → ℕ → ℕ → Bool
in_window addr base size = ltb (sub64 addr base) size

abbrev pub in_test : ℕ → Bool
in_test addr = in_window addr 0x00100000 0x1000

abbrev pub in_clint : ℕ → Bool
in_clint addr = in_window addr 0x02000000 0x10000

abbrev pub in_plic : ℕ → Bool
in_plic addr = in_window addr 0x0c000000 0x04000000

abbrev pub in_uart : ℕ → Bool
in_uart addr = in_window addr 0x10000000 0x100

abbrev pub in_virtio : ℕ → Bool
in_virtio addr = in_window addr 0x10001000 0x1000

abbrev pub in_net : ℕ → Bool
in_net addr = in_window addr 0x10002000 0x1000

unfoldable pub plat_contains : ℕ → Bool
plat_contains addr =
    in_test addr || in_clint addr || in_plic addr || in_uart addr || in_virtio addr || in_net addr

-- The MAC that `plat_init` sets.
unfoldable pub default_mac : ℕ → ℕ
default_mac k =
    if k == 0
    then 0x52
    else if k == 1
    then 0x54
    else if k == 3
    then 0x12
    else if k == 4
    then 0x34
    else if k == 5
    then 0x56
    else 0

abbrev pub no_disk : Disk
no_disk = record {
  attached = false;
  image = λ _. 0;
  size = 0;
  has_file = false;
  seeks = λ _. false;
  spans = [];
  writable = false;
}

unfoldable pub plat_init : Platform
plat_init = record {
  clint = record { mtime = 0; mtimecmp = λ _. 2 ^ 64 - 1; msip = λ _. 0 };
  uart = record {
    ier = 0;
    lcr = 0;
    mcr = 0;
    scr = 0;
    dll = 0;
    dlm = 0;
    rx_have = false;
    rx = 0;
    thre_ip = false;
    sent = [];
  };
  plic = record { priority = λ _. 0; enable = λ _. 0; threshold = λ _. 0; claimed = λ _. 0 };
  virtio = virtio_reset;
  net = record {
    status = 0;
    features_sel = 0;
    driver_feat_sel = 0;
    queue_sel = 0;
    interrupt_status = 0;
    vq = λ _. empty_vq;
    mac = default_mac;
    fifo = λ _ _. 0;
    fifo_len = λ _. 0;
    fifo_head = 0;
    fifo_count = 0;
  };
  backend = none;
  disk = no_disk;
  has_harts = false;
  nharts = 1;
  ram_attached = false;
  poweroff = false;
  poweroff_code = 0;
}

-- `plat_set_harts` and `plat_attach_ram`.
unfoldable pub plat_set_harts : Platform → ℕ → Platform
plat_set_harts p n = record p { has_harts = true; nharts = n }

unfoldable pub plat_attach_ram : Platform → Platform
plat_attach_ram p = record p { ram_attached = true }

unfoldable pub plic_lines : Platform → ℕ
plic_lines p =
    (if uart_asserted p.uart then 1 << 10 else 0)
    ||| (if p.virtio.interrupt_status == 0 then 0 else 1 << 1)
    ||| (if p.net.interrupt_status == 0 then 0 else 1 << 2)

-- `plat_mip_bits` with the lines that the devices assert.
unfoldable pub mip_bits : Platform → ℕ → ℕ
mip_bits p hart = plat_mip_bits p.clint p.plic (plic_lines p) hart

unfoldable pub test_write : Platform → ℕ → Platform
test_write p value =
    let code = value &&& 0xffff in
    if code == 0x3333
    then record p { poweroff = true; poweroff_code = value >> 16 &&& 0xff }
    else if code == 0x5555 || code == 0x7777
    then record p { poweroff = true; poweroff_code = 0 }
    else p

-- A read of a word register at its aligned offset, and the part of it that the access asks for.
unfoldable pub part : ℕ → ℕ → ℕ → ℕ
part addr size word =
    let shifted = word >> (8 * (addr &&& 3)) in
    if size == 1 then shifted &&& 0xff else if size == 2 then shifted &&& 0xffff else shifted

abbrev pub aligned : ℕ → ℕ → ℕ
aligned addr base = sub64 addr base &&& 0xfffffffc

unfoldable pub plat_read : Platform → ℕ → ℕ → ℕ × Platform
plat_read p addr size =
    let byte = uart_read p.uart (sub64 addr 0x10000000) in
    let claim = plic_read p.plic (plic_lines p) (aligned addr 0x0c000000) in
    if in_uart addr
    then (u32 byte.0, record p { uart = byte.1 })
    else if in_clint addr
    then (part addr size (clint_read p.clint (aligned addr 0x02000000)), p)
    else if in_plic addr
    then (part addr size claim.0, record p { plic = claim.1 })
    else if in_virtio addr
    then (part addr size (virtio_read p.virtio p.disk (aligned addr 0x10001000)), p)
    else if in_net addr
    then (part addr size (virtio_net_read p.net (aligned addr 0x10002000)), p)
    else (0, p)

-- A write, which a virtio device can answer with a write to the RAM's bytes.
unfoldable pub plat_write : Ram → Platform → ℕ → ℕ → (ℕ → ℕ) × Platform
plat_write ram p addr value =
    let q = virtio_write p.ram_attached ram p.disk p.virtio (aligned addr 0x10001000) value in
    let w =
      virtio_net_write p.backend p.ram_attached ram (ram.bytes, p.net) (aligned addr 0x10002000)
        value in
    if in_test addr
    then (ram.bytes, test_write p value)
    else if in_uart addr
    then (ram.bytes, record p { uart = uart_write p.uart (sub64 addr 0x10000000) (u8 value) })
    else if in_clint addr
    then (ram.bytes, record p { clint = clint_write p.clint (aligned addr 0x02000000) value })
    else if in_plic addr
    then (ram.bytes, record p { plic = plic_write p.plic (aligned addr 0x0c000000) value })
    else if in_virtio addr
    then (q.bytes, record p { disk = q.disk; virtio = q.virtio })
    else if in_net addr
    then (w.0, record p { net = w.1 })
    else (ram.bytes, p)

-- `plat_net_rx`: a frame from the host.
unfoldable pub plat_net_rx : Ram → Platform → (ℕ → ℕ) → ℕ → Bool × ((ℕ → ℕ) × Platform)
plat_net_rx ram p frame len =
    let received = net_receive p.ram_attached ram frame len (ram.bytes, p.net) in
    (received.0, (received.1.0, record p { net = received.1.1 }))
