-- ===== src/Substring.antt =====
-- lib/cstring.c and the macro iter_substr of includes/cstring.h: the pieces of a text between
-- separators.
pub mod Split
mod Tests
use mathlib.Core.Option
use ohmylib.Prelude.{
  ℕ, zero, suc, ◌+◌, Bool, true, false, Option, none, some, List, [], ◌∷◌, ltb, ◌==◌, if◌then◌else◌,
  length, take, drop,
}
use ohmylib.Dictionary.Text.{Text}

-- A `char *`: NULL, the start of a text, or an address behind the terminator of one.
pub data Cursor : Type 0 where
  null : Cursor
  at : Text → Cursor
  past_end : Cursor

-- strchr, as an index. The terminator is found where the needle is 0.
unfoldable pub strchr : Text → ℕ → Option ℕ
strchr [] needle = if needle == 0 then some 0 else none
strchr (c ∷ cs) needle = if c == needle then some 0 else Option.map suc (strchr cs needle)

-- `strndup(s, len)`
abbrev pub strndup : Bool → Text → ℕ → Option Text
strndup ok s len = if ok then some (take len s) else none

-- What is returned, and `*nxt` afterwards, `old` before. `none` is a read behind a text.
unfoldable pub substr : Bool → Cursor → Cursor → ℕ → Option (Option Text × Cursor)
unfolding strchr
substr ok old null needle = some (none, old)
substr ok old past_end needle = none
substr ok old (at t) needle = elim (strchr t needle) [
  | none ↦ some (strndup ok t (length t), null)
  | some i ↦ some (strndup ok t i, if ltb i (length t) then at (drop (suc i) t) else past_end)
]

-- The pieces that the loop of iter_substr sees; `none` also where the rounds run out.
unfoldable pub iter_substr : ℕ → Cursor → ℕ → Option (List Text)
iter_substr zero h needle = none
iter_substr (suc rounds) h needle = elim (substr true h h needle) [
  | none ↦ none
  | some (none, n) ↦ some []
  | some (some str, n) ↦ Option.map (λ strs. str ∷ strs) (iter_substr rounds n needle)
]
