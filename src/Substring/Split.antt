-- ===== src/Substring/Split.antt =====
-- The pieces that the loop of iter_substr yields.
use ohmylib.Prelude.{
  ℕ, zero, suc, ◌+◌, ◌<◌, ◌≡◌, ◌≢◌, refl, ap, arith, true, none, some, List, [], ◌∷◌, ◌++◌, ltb,
  length, take, drop, inl, inr, Option-cases, ◌∙◌,
}
use ohmylib.Dictionary.Text.{Text}
use ohmylib.Substring.{at, strchr, substr, iter_substr}

abbrev pub join : ℕ → List Text → Text
join needle [] = []
join needle (p ∷ []) = p
join needle (p ∷ q ∷ ps) = p ++ (needle ∷ join needle (q ∷ ps))

-- A text without the needle.
abbrev pub Lacks : ℕ → Text → Type 0
Lacks needle [] = Unit
Lacks needle (c ∷ cs) = (c ≢ needle) × Lacks needle cs

abbrev pub AllLack : ℕ → List Text → Type 0
AllLack needle [] = Unit
AllLack needle (t ∷ ts) = Lacks needle t × AllLack needle ts

module _ (needle : ℕ) (not_end : needle ≢ 0) where
  take_all : (t : Text) → take (length t) t ≡ t
  take_all [] = refl
  take_all (c ∷ cs) = ap (λ r. c ∷ r) (take_all cs)

  strchr-none : (t : Text) → strchr t needle ≡ none → Lacks needle t
  unfolding strchr
  strchr-none [] e = tt
  strchr-none (c ∷ cs) e = (ground arith, strchr-none cs (ground arith))

  -- The text in front of the first needle, and the rest behind it.
  record IsFound (t : Text) (i : ℕ) : Type 0 where
    before : Lacks needle (take i t)
    within : i < length t
    parts : take i t ++ (needle ∷ drop (suc i) t) ≡ t
    shorter : length (drop (suc i) t) < length t

  strchr-some : (t : Text) (i : ℕ) → strchr t needle ≡ some i → IsFound t i
  unfolding strchr
  strchr-some [] i e = absurd (not_end (ground arith))
  strchr-some (c ∷ cs) zero e = record {
    before = tt;
    within = omega arith;
    parts = ground arith;
    shorter = omega arith;
  }
  strchr-some (c ∷ cs) (suc i) e =
      let found : strchr cs needle ≡ some i = ground arith in
      let rest = strchr-some cs i found in
      record {
        before = (ground arith, rest.before);
        within = omega (arith, rest.within);
        parts = ap (λ r. c ∷ r) rest.parts;
        shorter = omega (arith, rest.shorter);
      }

  join-cons :
      (p : Text) (ps : List Text) (t : Text)
      → 0 < length ps
      → join needle ps ≡ t
      → join needle (p ∷ ps) ≡ p ++ (needle ∷ t)
  join-cons p [] t h e = absurd (omega arith)
  join-cons p (q ∷ qs) t h e = ap (λ r. p ++ (needle ∷ r)) e

  -- For a needle other than the terminator and allocations that succeed, the loop of
  -- iter_substr over a text ends within two rounds more than the text is long, reads nothing
  -- behind the text, and yields at least one piece; the pieces lack the needle, and joined by
  -- it they give the text.
  pub iter_substr_lem :
      (rounds : ℕ) (t : Text)
      → length t + 1 < rounds
      → (strs : List Text) × (iter_substr rounds (at t) needle ≡ some strs)
        × (0 < length strs)
        × (join needle strs ≡ t)
        × AllLack needle strs
  unfolding iter_substr substr
  iter_substr_lem zero t h = absurd (omega arith)
  iter_substr_lem (suc zero) t h = absurd (omega arith)
  iter_substr_lem (suc (suc rounds)) t h = elim (Option-cases (strchr t needle)) [
    | inl e ↦ (
      t ∷ [],
      rw (iter_substr, substr, e) (rw take_all refl),
      omega arith,
      refl,
      (strchr-none t e, tt),
    )
    | inr (i, e) ↦
        let f = strchr-some t i e in
        let (strs, got, some_left, joined, lack) =
          iter_substr_lem (suc rounds) (drop (suc i) t) (omega (arith, f.shorter)) in
        (
          take i t ∷ strs,
          rw (iter_substr, substr, e) (rw (f_within f.within) (rw got refl)),
          omega arith,
          join-cons (take i t) strs _ some_left joined ∙ f.parts,
          (f.before, lack),
        )
  ]
    where
      f_within : {i : ℕ} → i < length t → ltb i (length t) ≡ true
      f_within lt = ground arith
