-- ===== src/Vector/Tests.antt =====
-- Runs over concrete arrays, and the theorems at them.
use ohmylib.Prelude.{ℕ, ◌≡◌, inl, inr, refl, true, some, [], ◌∷◌}
use ohmylib.Vector.Cells.{Cells, pushed, pushv}
use ohmylib.Vector.Items.{IsVector}

-- Two elements, and a cell that an earlier popv has cleared.
abbrev two : Cells
two = 7 ∷ 8 ∷ 0 ∷ 0 ∷ []

abbrev junk : ℕ → ℕ
junk n = 99

two-IsVector : IsVector two
two-IsVector = inr (inr (inl refl))

pushes_behind : pushv junk true 9 (some two) ≡ pushed (7 ∷ 8 ∷ 9 ∷ 0 ∷ [])
unfolding pushv
pushes_behind = refl
