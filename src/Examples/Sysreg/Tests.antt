-- ===== src/Examples/Sysreg/Tests.antt =====
-- The program with and without an argument.
use ohmylib.Prelude.{ℕ, ◌-◌, ◌%◌, ◌^◌, ◌≡◌, refl, none, some, List, [], ◌∷◌}
use ohmylib.Prelude.Int.{pos}
use ohmylib.Sysreg.{Info, Files, Scratch, sysreg_write_scratch}
use ohmylib.Examples.Sysreg.{strtoul, unsigned_of, digits_loop, main}
use ohmylib.Examples.Sysreg.Registers.{EndsWell, sysreg_main_lem}

-- "0x1F", "017" and "-1"
numbers :
    (strtoul (48 ∷ 120 ∷ 49 ∷ 70 ∷ []) ≡ 31)
    × (strtoul (48 ∷ 49 ∷ 55 ∷ []) ≡ 15)
    × (strtoul (45 ∷ 49 ∷ []) ≡ 2 ^ 64 - 1)
unfolding strtoul unsigned_of digits_loop
numbers = (refl, refl, refl)

abbrev four : List ℕ
four = 1 ∷ 2 ∷ 3 ∷ 4 ∷ []

abbrev files : Files
files f = some four

abbrev blank : Info
blank = record { project = four; board = four; version = four; datetime = four }

abbrev works : Scratch
works = record { open_ret = pos 3; io_ret = pos 4; word = 31; stale = 7 }

sysreg_main_example :
    EndsWell works
      (sysreg_write_scratch works (strtoul (48 ∷ 120 ∷ 49 ∷ 70 ∷ []) % 2 ^ 32)).1
      (main (some (48 ∷ 120 ∷ 49 ∷ 70 ∷ [])) files works works blank 0)
    × EndsWell works [] (main none files works works blank 0)
sysreg_main_example = sysreg_main_lem files (48 ∷ 120 ∷ 49 ∷ 70 ∷ []) works works blank 0
