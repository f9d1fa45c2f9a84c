-- ===== src/Examples/Multithreaded/Hands.antt =====
-- What the readers have in their hands, where one of them moves.
use ohmylib.Prelude.{
  ℕ, ◌+◌, ◌≡◌, refl, sym, arith, none, some, [], ◌∷◌, ◌++◌, append-nil, if◌then◌else◌,
}
use ohmylib.Examples.Multithreaded.State.{
  Reader, first, second, is_reader, ReaderAt, hand, set_reader,
}
use ohmylib.Examples.Multithreaded.Delivery.{to_list, occurs}

module _ (f : Reader → ReaderAt) (r : ReaderAt) where
  -- A reader with nothing in its hand receives.
  pub hand-set :
      (k j : Reader)
      → hand (f k) ≡ none
      → to_list (hand (set_reader k r f j))
        ≡ to_list (hand (f j)) ++ (if is_reader j k then to_list (hand r) else [])
  unfolding set_reader
  hand-set first first e = rw e refl
  hand-set first second e = sym (append-nil (to_list (hand (f second))))
  hand-set second first e = sym (append-nil (to_list (hand (f first))))
  hand-set second second e = rw e refl

  -- A reader gives away what it has in its hand.
  pub hand-drop :
      (k j : Reader) (e : ℕ)
      → hand (f k) ≡ some e
      → hand r ≡ none
      → to_list (hand (f j))
        ≡ (if is_reader j k then e ∷ [] else []) ++ to_list (hand (set_reader k r f j))
  unfolding set_reader
  hand-drop first first e h n = rw (h, n) refl
  hand-drop first second e h n = refl
  hand-drop second first e h n = refl
  hand-drop second second e h n = rw (h, n) refl

  pub hand_same : (k j : Reader) → hand r ≡ hand (f k) → hand (set_reader k r f j) ≡ hand (f j)
  unfolding set_reader
  hand_same first first e = e
  hand_same first second e = refl
  hand_same second first e = refl
  hand_same second second e = e

  abbrev both : ℕ → (Reader → ReaderAt) → ℕ
  both x g = occurs x (to_list (hand (g first))) + occurs x (to_list (hand (g second)))

  pub both-set :
      (x : ℕ) (k : Reader)
      → hand (f k) ≡ none
      → both x (set_reader k r f) ≡ both x f + occurs x (to_list (hand r))
  unfolding set_reader
  both-set x first e = rw e (omega arith)
  both-set x second e = rw e (omega arith)

  pub both-drop :
      (x : ℕ) (k : Reader) (e : ℕ)
      → hand (f k) ≡ some e
      → hand r ≡ none
      → both x f ≡ both x (set_reader k r f) + occurs x (e ∷ [])
  unfolding set_reader
  both-drop x first e h n = rw (h, n) (omega arith)
  both-drop x second e h n = rw (h, n) (omega arith)
