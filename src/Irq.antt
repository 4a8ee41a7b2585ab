-- ===== src/Irq.antt =====
-- The 8259 interrupt controller of src/kernel/interrupt.c: masks and end-of-interrupt.
pub mod Mask
use pinion.Base.{
  ℕ, ◌-◌, ◌/◌, ◌%◌, ◌^◌, bit_and, bit_or, pure, get, modify, when, ◌>>=◌, ◌>>◌, ltb, if◌then◌else◌,
}
use pinion.Kernel.{KCmd, outb}

-- `1 << irq` cut to 16 bits. C leaves counts from 32 on undefined; the processor takes them
-- modulo 32.
unfoldable pub irq_bit : ℕ → ℕ
irq_bit irq = 2 ^ (irq % 32) % 2 ^ 16

-- The mask register of the controller that the IRQ belongs to.
unfoldable pub write_mask : ℕ → KCmd (Unit {0})
unfolding outb
write_mask irq = do
  k ← get
  if ltb 7 irq
      then outb 0xA1 (k.irq_mask_word / 2 ^ 8 % 256)
      else outb 0x21 (bit_and k.irq_mask_word 0xFF)

unfoldable pub irq_mask : ℕ → KCmd ℕ
unfolding irq_bit write_mask
irq_mask irq = do
  modify (λ k. record k { irq_mask_word = bit_or k.irq_mask_word (irq_bit irq) })
  write_mask irq
  pure 0

unfoldable pub irq_unmask : ℕ → KCmd ℕ
unfolding irq_bit write_mask
irq_unmask irq = do
  modify (λ k. record k { irq_mask_word = bit_and k.irq_mask_word (2 ^ 16 - 1 - irq_bit irq) })
  write_mask irq
  pure 0

abbrev pub irq_int_size : ℕ
irq_int_size = 16

unfoldable pub irq_reset : ℕ → KCmd ℕ
unfolding outb
irq_reset irq =
    if ltb irq_int_size irq
    then pure 1
    else do when (ltb 8 irq) (outb 0xA0 0x20); outb 0x20 0x20; pure 0

unfoldable pub irq_init : KCmd ℕ
unfolding outb
irq_init = do
  outb 0x20 0x11
  outb 0xA0 0x11
  outb 0x21 0x20
  outb 0xA1 0x28
  outb 0x21 0x04
  outb 0xA1 0x02
  outb 0x21 0x01
  outb 0xA1 0x01
  outb 0x21 0x00
  outb 0xA1 0x00
  pure 0
