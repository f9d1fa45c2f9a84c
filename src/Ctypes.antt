-- ===== src/Ctypes.antt =====
-- includes/ctypes.h: the macros that compute, for operands of type `unsigned int` of 32 bits.
pub mod Masks
mod Tests
use ohmylib.Prelude.{
  ℕ, ◌+◌, ◌-◌, ◌*◌, ◌/◌, ◌%◌, ◌^◌, bit_and, ltb, Option, none, some, if◌then◌else◌,
}

-- `(((x) + (mask)) & ~(mask))`
unfoldable pub align_mask : ℕ → ℕ → ℕ
align_mask x mask = bit_and ((x + mask) % 2 ^ 32) (2 ^ 32 - 1 - mask)

unfoldable pub align : ℕ → ℕ → ℕ
unfolding align_mask
align x a = align_mask x ((a + 2 ^ 32 - 1) % 2 ^ 32)

unfoldable pub min : ℕ → ℕ → ℕ
min x y = if ltb x y then x else y

unfoldable pub max : ℕ → ℕ → ℕ
max x y = if ltb y x then x else y

unfoldable pub clamp : ℕ → ℕ → ℕ → ℕ
unfolding min max
clamp val hi lo = min (max val lo) hi

-- `(sizeof(x) / sizeof((x)[0]))`, for an array of `count` elements of `size` bytes.
unfoldable pub array_size : ℕ → ℕ → ℕ
array_size count size = count * size / size

-- `(1 << x)` on an int of 32 bits, `none` where the shift is not defined.
unfoldable pub bit : ℕ → Option ℕ
bit x = if ltb x 31 then some (2 ^ x) else none

-- For h below 32 and l below 31, where the shifts are defined:
-- `(((~(0u)) - (1 << (l)) + 1) & (~(0u) >> (32 - 1 - (h))))`
unfoldable pub genmask : ℕ → ℕ → ℕ
genmask h l =
    bit_and ((2 ^ 32 - 1 + (2 ^ 32 - 2 ^ l) + 1) % 2 ^ 32) ((2 ^ 32 - 1) / 2 ^ (32 - 1 - h))
