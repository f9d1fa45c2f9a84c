-- ===== src/Terminal/Flags.antt =====
-- What the two settings do to the flags.
use ohmylib.Prelude.{ℕ, ◌+◌, ◌-◌, ◌*◌, ◌/◌, ◌%◌, ◌^◌, ◌<◌, ◌≡◌, arith, bit_and, bit_or}
use ohmylib.Prelude.{bit_and_step, bit_and_shift, bit_and_ones, bit_or_step, bit_or-zero}
use ohmylib.Terminal.{Termios, icanon, echo, getchar_once, termios_reset}

-- `~ICANON` clears the bit of weight 2, and `~ECHO` that of weight 8.
clear_icanon : (x : ℕ) → x < 2 ^ 32 → bit_and x (2 ^ 32 - 1 - icanon) ≡ x / 4 * 4 + x % 2
clear_icanon x h = omega (
  arith,
  bit_and_step x (2 ^ 32 - 1 - icanon),
  bit_and_shift (x / 2) (2 ^ 30 - 1),
  bit_and_ones 30 (x / 2 / 2) (omega arith),
)

clear_echo : (x : ℕ) → x < 2 ^ 32 → bit_and x (2 ^ 32 - 1 - echo) ≡ x / 16 * 16 + x % 8
clear_echo x h =
    let x2 = x / 2 in
    let x4 = x2 / 2 in
    omega (
      arith,
      bit_and_step x (2 ^ 32 - 1 - echo),
      bit_and_step x2 (2 ^ 31 - 1 - 4),
      bit_and_step x4 (2 ^ 30 - 1 - 2),
      bit_and_shift (x4 / 2) (2 ^ 28 - 1),
      bit_and_ones 28 (x4 / 2 / 2) (omega arith),
    )

set_icanon : (x : ℕ) → bit_or x icanon ≡ x / 4 * 4 + 2 + x % 2
set_icanon x =
    let x2 = x / 2 in
    omega (arith, bit_or_step x 2, bit_or_step x2 1, bit_or-zero (x2 / 2) (x2 / 2) (omega arith))

set_echo : (x : ℕ) → bit_or x echo ≡ x / 16 * 16 + 8 + x % 8
set_echo x =
    let x2 = x / 2 in
    let x4 = x2 / 2 in
    let x8 = x4 / 2 in
    omega (
      arith,
      bit_or_step x 8,
      bit_or_step x2 4,
      bit_or_step x4 2,
      bit_or_step x8 1,
      bit_or-zero (x8 / 2) (x8 / 2) (omega arith),
    )

-- Canonical mode with echo.
pub record IsCooked (t : Termios) : Type 0 where
  pub lt : t.c_lflag < 2 ^ 32
  pub canonical : t.c_lflag / 2 % 2 ≡ 1
  pub echoes : t.c_lflag / 8 % 2 ≡ 1

termios_reset_flags :
    (t : Termios)
    → (termios_reset t).c_lflag ≡ t.c_lflag / 16 * 16 + 10 + t.c_lflag / 4 % 2 * 4 + t.c_lflag % 2
unfolding termios_reset
termios_reset_flags t = omega (arith, set_icanon t.c_lflag, set_echo (bit_or t.c_lflag icanon))

getchar_once_flags :
    (t : Termios)
    → t.c_lflag < 2 ^ 32
    → (getchar_once t).c_lflag ≡ t.c_lflag / 16 * 16 + t.c_lflag / 4 % 2 * 4 + t.c_lflag % 2
unfolding getchar_once
getchar_once_flags t h =
    let cleared = clear_icanon t.c_lflag h in
    omega (arith, cleared, clear_echo (bit_and t.c_lflag (2 ^ 32 - 1 - icanon)) (omega arith))

-- The flags of a cooked terminal are kept by a reset, and restored by one.
pub termios_reset_kept : (t : Termios) → IsCooked t → (termios_reset t).c_lflag ≡ t.c_lflag
termios_reset_kept t cooked = omega (arith, cooked.canonical, cooked.echoes, termios_reset_flags t)

pub termios_reset_restores :
    (t : Termios) → IsCooked t → (termios_reset (getchar_once t)).c_lflag ≡ t.c_lflag
termios_reset_restores t cooked = omega (
  arith,
  cooked.canonical,
  cooked.echoes,
  getchar_once_flags t cooked.lt,
  termios_reset_flags (getchar_once t),
)
