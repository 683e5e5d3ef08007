-- ===== src/Device/Uart.antt =====
-- The 16550 UART of src/device.c. `sent` is what went to the host console, the last byte first.
use quanta.Common.{ℕ, Bool, true, false, ◌&&◌, ◌||◌, ◌==◌, if◌then◌else◌, List, ◌∷◌}
use quanta.Common.Word.{◌&&&◌, ◌|||◌, u8, test_bits}

pub record Uart : Type 0 where
  pub ier : ℕ
  pub lcr : ℕ
  pub mcr : ℕ
  pub scr : ℕ
  pub dll : ℕ
  pub dlm : ℕ
  pub rx_have : Bool
  pub rx : ℕ
  pub thre_ip : Bool
  pub sent : List ℕ

unfoldable pub uart_lsr : Uart → ℕ
uart_lsr u = u8 (0x60 ||| (if u.rx_have then 0x01 else 0x00))

unfoldable pub uart_asserted : Uart → Bool
uart_asserted u = test_bits u.ier 0x01 && u.rx_have || test_bits u.ier 0x02 && u.thre_ip

unfoldable pub uart_iir : Uart → ℕ
uart_iir u =
    if test_bits u.ier 0x01 && u.rx_have
    then 0x04
    else if test_bits u.ier 0x02 && u.thre_ip
    then 0x02
    else 0x01

abbrev pub dlab : Uart → Bool
dlab u = test_bits u.lcr 0x80

unfoldable pub uart_read : Uart → ℕ → ℕ × Uart
unfolding uart_lsr uart_iir
uart_read u off =
    if off == 0
    then (if dlab u then (u.dll, u) else (u.rx, record u { rx_have = false }))
    else if off == 1
    then ((if dlab u then u.dlm else u.ier), u)
    else if off == 2
    then (let iir = uart_iir u in
        if iir == 0x02 then (iir, record u { thre_ip = false }) else (iir, u))
    else if off == 3
    then (u.lcr, u)
    else if off == 4
    then (u.mcr, u)
    else if off == 5
    then (uart_lsr u, u)
    else if off == 6
    then (0x00, u)
    else if off == 7
    then (u.scr, u)
    else (0, u)

unfoldable pub uart_write : Uart → ℕ → ℕ → Uart
uart_write u off val =
    if off == 0
    then (if dlab u
        then record u { dll = val }
        else record u { sent = val ∷ u.sent; thre_ip = true })
    else if off == 1
    then (let ier = u8 (val &&& 0x0f) in
        if dlab u
        then record u { dlm = val }
        else record u { ier = ier; thre_ip = if test_bits ier 0x02 then true else u.thre_ip })
    else if off == 3
    then record u { lcr = val }
    else if off == 4
    then record u { mcr = val }
    else if off == 7
    then record u { scr = val }
    else u

-- `plat_uart_rx`: a full buffer rejects the byte.
unfoldable pub uart_rx : Uart → ℕ → Bool × Uart
uart_rx u byte = if u.rx_have then (false, u) else (true, record u { rx = byte; rx_have = true })
