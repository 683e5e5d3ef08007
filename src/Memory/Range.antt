-- ===== src/Memory/Range.antt =====
-- What src/memory.c does with an access that lies in the RAM, and with one that does not.
use quanta.Common.{ℕ, ◌+◌, ◌<◌, ◌≡◌, arith, true, none, refl}
use quanta.Ram.{Ram}
use quanta.Memory.{
  Memory, index_of, flag, device_at, mem_read32, mem_read64, mem_write32, mem_write64,
}

-- Outside.
index_of-outside :
    (ram : Ram) (addr width : ℕ)
    → ram.base + ram.size < addr + width
    → index_of ram addr width ≡ none
unfolding index_of
index_of-outside ram addr width h = ground arith

-- A doubleword that no device takes and that runs past the end of the RAM: the write and the read
-- both raise the fault with the address, the write changes no byte, and the read gives 0.
pub mem_write64_fault :
    (mem : Memory) (addr value : ℕ)
    → device_at mem addr ≡ none
    → mem.ram.base + mem.ram.size < addr + 8
    → let after = mem_write64 mem addr value in
      (after.fault ≡ true)
      × (after.fault_addr ≡ addr)
      × (after.ram ≡ mem.ram)
      × ((mem_read64 mem addr).0 ≡ 0)
      × ((mem_read64 mem addr).1 ≡ after)
unfolding mem_write64 mem_read64 quanta.Memory.write64_at quanta.Memory.read64_at
    quanta.Memory.ram_write quanta.Memory.ram_read
mem_write64_fault mem addr value quiet far =
    rw quiet rw (index_of-outside mem.ram addr 8 far) (refl, refl, refl, refl, refl)
