-- ===== src/ErrorPtr/Tests.antt =====
-- The error number 22, and a word that is none.
use ohmylib.Prelude.{◌-◌, ◌^◌, ◌<◌, ◌≡◌, ◌↔◌, refl, arith, true, false}
use ohmylib.Prelude.Int.{pos, negsuc}
use ohmylib.ErrorPtr.{err_ptr, ptr_err, is_err, is_err_or_null}
use ohmylib.ErrorPtr.Errors.{HoldsError, is_err_lem}

invalid_argument : is_err (err_ptr (negsuc 21)) ≡ true
unfolding is_err err_ptr
invalid_argument = refl

is_err_example :
    (ptr_err (err_ptr (negsuc 21)) ≡ negsuc 21)
    × (ptr_err (err_ptr (pos 21)) ≡ pos 21)
    × (err_ptr (ptr_err 4096) ≡ 4096)
    × ((is_err 4096 ≡ true) ↔ HoldsError 4096)
    × ((is_err_or_null 4096 ≡ false) ↔ (0 < 4096) × (4096 < 2 ^ 64 - 4095))
is_err_example = is_err_lem 21 4096 (omega arith) (omega arith)
