-- ===== src/Substring/Tests.antt =====
-- The pieces of a text on concrete inputs.
use ohmylib.Prelude.{◌<◌, ◌≡◌, refl, arith, some, List, [], ◌∷◌, length}
use ohmylib.Dictionary.Text.{Text}
use ohmylib.Substring.{at, strchr, substr, iter_substr}
use ohmylib.Substring.Split.{join, AllLack, iter_substr_lem}

-- "a,b"
abbrev two_fields : Text
two_fields = 97 ∷ 44 ∷ 98 ∷ []

iter_substr_two : iter_substr 5 (at two_fields) 44 ≡ some ((97 ∷ []) ∷ (98 ∷ []) ∷ [])
unfolding iter_substr substr strchr
iter_substr_two = refl

iter_substr_example :
    (strs : List Text) × (iter_substr 5 (at two_fields) 44 ≡ some strs)
    × (0 < length strs)
    × (join 44 strs ≡ two_fields)
    × AllLack 44 strs
iter_substr_example = iter_substr_lem 44 (omega arith) 5 two_fields (omega arith)
