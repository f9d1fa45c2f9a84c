-- ===== src/Lfsr.antt =====
-- lib/lfsr.c: a 16-bit linear feedback shift register that fills a buffer.
pub mod Laws
mod Tests
use ohmylib.Prelude.{
  ℕ, zero, suc, ◌+◌, ◌-◌, ◌/◌, ◌%◌, ◌^◌, bit_and, bit_xor, Memory, ◌==◌, if◌then◌else◌,
}

-- `(lfsr >> 1) ^ (-(lfsr & 1) & poly)`, computed in int and stored in a uint16_t.
unfoldable pub lfsr_step : ℕ → ℕ → ℕ
lfsr_step poly s = bit_xor (s / 2) (bit_and ((2 ^ 32 - bit_and s 1) % 2 ^ 32) poly) % 2 ^ 16

-- `*p = byte`
abbrev pub store : ℕ → ℕ → Memory → Memory
store p byte m a = if a == p then byte else m a

-- The loop from `p` on, with `left` rounds to go.
unfoldable pub lfsr_loop : ℕ → ℕ → ℕ → ℕ → Memory → Memory
lfsr_loop poly zero p s m = m
lfsr_loop poly (suc left) p s m =
    lfsr_loop poly left (p + 1) (lfsr_step poly s) (store p (bit_and s 0xff) m)

-- The returned count, and the memory. A NULL buffer is address 0.
unfoldable pub lfsr : ℕ → ℕ → ℕ → ℕ → Memory → ℕ × Memory
lfsr buf count init poly m = if buf == 0 then (0, m) else (count, lfsr_loop poly count buf init m)
