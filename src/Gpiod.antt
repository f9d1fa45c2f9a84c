-- ===== src/Gpiod.antt =====
-- posix/gpiod/gpiod.c: it sets and reads lines of a chip by its arguments. The calls of libgpiod
-- are given by what they return.
pub mod Lines
mod Tests
use mathlib.Core.Option
use ohmylib.Prelude.{
  ℕ, ◌-◌, Bool, true, false, not, Option, none, some, List, [], ◌∷◌, ◌++◌, ltb, ◌==◌, take,
  if◌then◌else◌,
}
use ohmylib.Prelude.Decimal.{decimal, atoi}
use ohmylib.Prelude.Int.{ℤ, pos, negsuc, ltb_ℤ}

-- The calls on the chip, on its lines by their numbers, and of strdup and free.
pub data Call : Type 0 where
  opens_chip : List ℕ → Call
  closes_chip duplicates frees fails : Call
  gets_line requests_output requests_input releases : ℤ → Call
  sets prints : ℤ → ℤ → Call

-- An argument from the second on, and what the calls for it return; `line_ok` is whether
-- gpiod_chip_get_line gives a line and not NULL.
pub record Argument : Type 0 where
  pub arg : List ℕ
  pub strdup_ok : Bool
  pub line_ok : Bool
  pub request_ret : ℤ
  pub set_ret : ℤ
  pub get_ret : ℤ

-- `linenum` and `value`: the text before the first `=`, and the one behind it.
unfoldable pub split : List ℕ → List ℕ × Option (List ℕ)
split [] = ([], none)
split (c ∷ cs) =
    let (linenum, value) = split cs in if c == 61 then ([], some cs) else (c ∷ linenum, value)

-- One round before its end: whether it goes on, and the calls behind gpiod_chip_get_line.
abbrev pub line_round : Argument → ℤ → Option (List ℕ) → Bool × List Call
line_round a n none =
    if ltb_ℤ a.request_ret (pos 0)
    then (false, requests_input n ∷ fails ∷ releases n ∷ [])
    else (true, requests_input n ∷ prints n a.get_ret ∷ [])
line_round a n (some value) =
    if ltb_ℤ a.request_ret (pos 0)
    then (false, requests_output n ∷ fails ∷ releases n ∷ [])
    else if ltb_ℤ a.set_ret (pos 0)
    then (false, requests_output n ∷ sets n (atoi value) ∷ fails ∷ releases n ∷ [])
    else (true, requests_output n ∷ sets n (atoi value) ∷ [])

-- Whether the loop runs to its end, and its calls; `none` where NULL is handed on as a line, which
-- libgpiod does not define.
unfoldable pub line_loop : List Argument → Option (Bool × List Call)
unfolding split
line_loop [] = some (true, [])
line_loop (a ∷ as') =
    let rest = line_loop as' in
    let (linenum, value) = split a.arg in
    let n = atoi linenum in
    let (goes_on, calls) = line_round a n value in
    if not a.strdup_ok
    then some (false, fails ∷ [])
    else if not a.line_ok
    then none
    else if goes_on
    then Option.map {B = Bool × List Call}
        (λ r. (r.0, duplicates ∷ gets_line n ∷ calls ++ (releases n ∷ frees ∷ r.1))) rest
    else some (false, duplicates ∷ gets_line n ∷ calls)

-- `/dev/gpiochip`
abbrev pub dev_gpiochip : List ℕ
dev_gpiochip = 47 ∷ 100 ∷ 101 ∷ 118 ∷ 47 ∷ 103 ∷ 112 ∷ 105 ∷ 111 ∷ 99 ∷ 104 ∷ 105 ∷ 112 ∷ []

-- The text in `devname` after snprintf, for its 32 bytes.
unfoldable pub chip_name : ℕ → List ℕ
chip_name chip = take (32 - 1) (dev_gpiochip ++ decimal chip)

-- Behind the loop: it goes on to `return 0`, or to the label.
abbrev pub ending : Call → Bool × List Call → ℤ × List Call
ending opened (true, calls) = (pos 0, opened ∷ calls)
ending opened (false, calls) = (negsuc 0, opened ∷ calls ++ (closes_chip ∷ []))

-- `chip` is the first argument as a word of 32 bits; `none` as for the loop.
unfoldable pub main : ℕ → ℕ → Bool → List Argument → Option (ℤ × List Call)
unfolding line_loop chip_name
main argc chip open_ok arguments =
    let ran = line_loop arguments in
    let opened = opens_chip (chip_name chip) in
    if ltb argc 3
    then some (negsuc 0, fails ∷ [])
    else if not open_ok
    then some (negsuc 0, opened ∷ fails ∷ [])
    else Option.map (ending opened) ran
