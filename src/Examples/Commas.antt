-- ===== src/Examples/Commas.antt =====
-- examples/comma_separated_list/main.c: the parts of an argument between commas, over the model of
-- cstring, with allocations that succeed.
use mathlib.Core.Option
use ohmylib.Prelude.{ℕ, ◌+◌, ◌<◌, ◌≡◌, refl, arith, Option, some, List, [], ◌∷◌, length}
use ohmylib.Prelude.Int.{ℤ, pos, negsuc}
use ohmylib.Dictionary.Text.{Text}
use ohmylib.Substring.{at, iter_substr}
use ohmylib.Substring.Split.{join, AllLack, iter_substr_lem}

-- What main returns and prints for its arguments, the name of the program first.
unfoldable pub main : ℕ → List Text → Option (ℤ × List Text)
main rounds [] = some (negsuc 0, [])
main rounds (name ∷ []) = some (negsuc 0, [])
main rounds (name ∷ list ∷ rest) =
    Option.map {B = ℤ × List Text} (λ strs. (pos 0, strs)) (iter_substr rounds (at list) 44)

-- The parts have no comma, and joined by commas they give the argument.
commas_main_lem :
    (rounds : ℕ) (name list : Text) (rest : List Text)
    → length list + 1 < rounds
    → (strs : List Text) × (main rounds (name ∷ list ∷ rest) ≡ some (pos 0, strs))
      × (0 < length strs)
      × (join 44 strs ≡ list)
      × AllLack 44 strs
unfolding main
commas_main_lem rounds name list rest enough =
    let (strs, ran, some_part, joined, lack) =
      iter_substr_lem 44 (λ e. omega arith) rounds list enough in
    (strs, rw ran refl, some_part, joined, lack)
