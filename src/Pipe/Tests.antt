-- ===== src/Pipe/Tests.antt =====
-- The source and the sink on concrete streams.
use ohmylib.Prelude.{ℕ, ◌≡◌, refl, true, some, List, [], ◌∷◌, length}
use ohmylib.Pipe.{source_main, sink_main}

abbrev nine_bytes : List ℕ
nine_bytes = 1 ∷ 2 ∷ 3 ∷ 4 ∷ 5 ∷ 6 ∷ 7 ∷ 0 ∷ 9 ∷ []

-- The byte 0 and what is behind it are read and not printed.
sink_nine : sink_main 10 nine_bytes ≡ some ((1 ∷ 2 ∷ 3 ∷ 4 ∷ 5 ∷ 6 ∷ 7 ∷ []) ∷ [] ∷ [], 2, 7)
unfolding sink_main
sink_nine = refl

sent : length ((source_main true).1) ≡ 256
unfolding source_main
sent = refl
