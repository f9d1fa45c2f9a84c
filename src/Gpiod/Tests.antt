-- ===== src/Gpiod/Tests.antt =====
-- Arguments of the program.
use ohmylib.Prelude.{◌≡◌, refl, some, true, List, [], ◌∷◌, ◌++◌}
use ohmylib.Prelude.Decimal.{decimal}
use ohmylib.Prelude.Int.{ℤ, pos, negsuc}
use ohmylib.Gpiod.{Call, Argument, main}
use ohmylib.Gpiod.Lines.{Tidies, gpiod_main_lem, argument}

-- The value of the second line cannot be set.
abbrev two_lines : List Argument
two_lines =
    argument (decimal 4) (pos 1)
    ∷ record {
      arg = decimal 5 ++ (61 ∷ decimal 1);
      strdup_ok = true;
      line_ok = true;
      request_ret = pos 0;
      set_ret = negsuc 0;
      get_ret = pos 0;
    }
    ∷ []

gpiod_main_example : (r : ℤ × List Call) × (main 4 0 true two_lines ≡ some r) × Tidies two_lines r
gpiod_main_example = gpiod_main_lem 4 0 two_lines refl refl
