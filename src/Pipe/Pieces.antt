-- ===== src/Pipe/Pieces.antt =====
-- The pieces in which the sink prints what it reads.
use ohmylib.Prelude.{ℕ, ◌+◌, ◌*◌, ◌≤◌, ◌<◌, ◌≡◌, Option, List, [], ◌∷◌, ◌++◌, length}
use mathlib.Core.Option

abbrev pub join : List (List ℕ) → List ℕ
join [] = []
join (p ∷ ps) = p ++ join ps

-- No piece is longer than the buffer without its 0.
abbrev pub Fit : List (List ℕ) → Type 0
Fit [] = Unit
Fit (p ∷ ps) = (length p ≤ 7) × Fit ps

-- As few pieces as the bytes of the input need.
abbrev pub IsSplit : List (List ℕ) → List ℕ → Type 0
IsSplit ps stdin =
    (join ps ≡ stdin) × Fit ps × (length stdin ≤ length ps * 7) × (length ps * 7 < length stdin + 7)
