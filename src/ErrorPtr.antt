-- ===== src/ErrorPtr.antt =====
-- includes/error_ptr.h: pointers that hold an error number, on a machine with 64-bit words.
pub mod Errors
mod Tests
use ohmylib.Prelude.{ℕ, ◌+◌, ◌-◌, ◌%◌, ◌^◌, Bool, ◌||◌, ltb, leb, ◌==◌, if◌then◌else◌}
use ohmylib.Prelude.Int.{ℤ, pos, negsuc, pos_part, neg_part}

-- `(unsigned long)(x) >= (unsigned long)-(0xfff)`
unfoldable pub is_err_value : ℕ → Bool
is_err_value x = leb (2 ^ 64 - 0xfff) x

-- A `long` as a pointer, and a pointer as a `long`.
unfoldable pub err_ptr : ℤ → ℕ
err_ptr (pos n) = n % 2 ^ 64
err_ptr (negsuc n) = 2 ^ 64 - 1 - n % 2 ^ 64

unfoldable pub ptr_err : ℕ → ℤ
ptr_err p = if ltb p (2 ^ 63) then pos p else negsuc (2 ^ 64 - 1 - p)

unfoldable pub is_err : ℕ → Bool
unfolding is_err_value
is_err p = is_err_value p

unfoldable pub is_err_or_null : ℕ → Bool
unfolding is_err_value
is_err_or_null p = (p == 0) || is_err_value p
