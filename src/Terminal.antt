-- ===== src/Terminal.antt =====
-- The settings of the terminal that the programs for single keys make, getchar_once and
-- termios_reset of posix/timer/timer.c and of examples/timestamp/timestamp.c, where tcgetattr and
-- tcsetattr succeed. The flags are those of Linux.
pub mod Flags
use ohmylib.Prelude.{ℕ, ◌-◌, ◌^◌, bit_and, bit_or}

-- The two members of `struct termios` that are changed; `c_lflag` has 32 bits.
pub record Termios : Type 0 where
  pub c_lflag : ℕ
  pub vmin : ℕ

abbrev pub icanon : ℕ
icanon = 2

abbrev pub echo : ℕ
echo = 8

unfoldable pub getchar_once : Termios → Termios
getchar_once t = record {
  c_lflag = bit_and (bit_and t.c_lflag (2 ^ 32 - 1 - icanon)) (2 ^ 32 - 1 - echo);
  vmin = 1;
}

unfoldable pub termios_reset : Termios → Termios
termios_reset t = record t { c_lflag = bit_or (bit_or t.c_lflag icanon) echo }
