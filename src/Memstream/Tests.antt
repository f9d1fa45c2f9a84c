-- ===== src/Memstream/Tests.antt =====
-- A run of the program.
use ohmylib.Prelude.{◌≡◌, refl, [], ◌∷◌}
use ohmylib.Prelude.Decimal.{atoi, atoi_loop}
use ohmylib.Memstream.{word_count}

-- "3"
three_words : word_count ((51 ∷ []) ∷ []) ≡ 3
unfolding word_count atoi atoi_loop
three_words = refl
