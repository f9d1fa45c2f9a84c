-- ===== src/Dictionary/Text.antt =====
-- C strings without their terminator, as strcmp and strdup see them.
use ohmylib.Prelude.{ℕ, ◌≡◌, ◌↔◌, refl, Bool, true, false, ◌&&◌, List, [], ◌∷◌, arith, ◌==◌}

-- The bytes of a text, none of them 0.
abbrev pub Text : Type 0
Text = List ℕ

-- `!strcmp(a, b)`
unfoldable pub text_eq : Text → Text → Bool
text_eq [] [] = true
text_eq [] (b ∷ bs) = false
text_eq (a ∷ as') [] = false
text_eq (a ∷ as') (b ∷ bs) = (a == b) && text_eq as' bs

pub text_eq_refl : (a : Text) → text_eq a a ≡ true
unfolding text_eq
text_eq_refl [] = refl
text_eq_refl (a ∷ as') = ground (arith, text_eq_refl as')

pub eq_of_text_eq : (a b : Text) → text_eq a b ≡ true → a ≡ b
unfolding text_eq
eq_of_text_eq [] [] h = refl
eq_of_text_eq [] (b ∷ bs) h = cc
eq_of_text_eq (a ∷ as') [] h = cc
eq_of_text_eq (a ∷ as') (b ∷ bs) h = ground (arith, eq_of_text_eq as' bs)

pub text_eq_iff : (a b : Text) → (text_eq a b ≡ true) ↔ (a ≡ b)
text_eq_iff a b = (eq_of_text_eq a b, λ e. rw e (text_eq_refl b))
