-- ===== src/ErrorPtr/Errors.antt =====
-- Which words are error pointers, and which errors they hold.
use ohmylib.Prelude.{ℕ, ◌-◌, ◌^◌, ◌<◌, ◌≡◌, ◌↔◌, arith, true, false, Bool-cases, inl, inr, ltb}
use ohmylib.Prelude.Int.{pos, negsuc}
use ohmylib.ErrorPtr.{is_err_value, err_ptr, ptr_err, is_err, is_err_or_null}

-- A word is an error pointer exactly where it holds an error number from 1 to 4095.
abbrev pub HoldsError : ℕ → Type 0
HoldsError p = (n : ℕ) × (n < 4095) × (p ≡ err_ptr (negsuc n))

-- For n below 2 ^ 63 and a word p, PTR_ERR gives back what ERR_PTR made of -(n + 1) and of n,
-- and ERR_PTR gives back what PTR_ERR made of p; IS_ERR holds for p exactly where it is
-- ERR_PTR of an error from -1 to -4095, and IS_ERR_OR_NULL fails exactly above 0 and below 2 ^
-- 64 - 4095.
pub is_err_lem :
    (n p : ℕ)
    → n < 2 ^ 63
    → p < 2 ^ 64
    → (ptr_err (err_ptr (negsuc n)) ≡ negsuc n)
      × (ptr_err (err_ptr (pos n)) ≡ pos n)
      × (err_ptr (ptr_err p) ≡ p)
      × ((is_err p ≡ true) ↔ HoldsError p)
      × ((is_err_or_null p ≡ false) ↔ (0 < p) × (p < 2 ^ 64 - 4095))
unfolding is_err_value err_ptr ptr_err is_err is_err_or_null
is_err_lem n p small word = (
  ground arith,
  ground arith,
  elim (Bool-cases (ltb p (2 ^ 63))) [ inl e ↦ rw e (omega arith) | inr e ↦ rw e (omega arith) ],
  (λ e. (2 ^ 64 - 1 - p, ground arith, ground arith), λ (k, lt, e). ground arith),
  (λ e. ground arith, λ h. ground arith),
)
