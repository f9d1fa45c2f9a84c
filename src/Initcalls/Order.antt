-- ===== src/Initcalls/Order.antt =====
-- The order in which the registered functions are called.
use ohmylib.Prelude.{
  ℕ, suc, ◌+◌, ◌≤◌, ◌≡◌, refl, ap, ap₂, ◌∙◌, arith, Bool, true, Bool-cases, inl, inr, List, [], ◌∷◌,
  ◌++◌, append-nil, if◌then◌else◌,
}
use ohmylib.Initcalls.{
  Level, core, user, late, id_of, Initcall, same_level, section, do_initcall_level, level_loop,
  do_initcalls,
}

abbrev pub AllFrom : ℕ → List Initcall → Type 0
AllFrom n [] = Unit
AllFrom n (e ∷ es) = (n ≤ id_of e.level) × AllFrom n es

-- No function is called before one of a lower level.
abbrev pub IsSorted : List Initcall → Type 0
IsSorted [] = Unit
IsSorted (e ∷ es) = AllFrom (id_of e.level) es × IsSorted es

abbrev pub count_calls : (Initcall → Bool) → List Initcall → ℕ
count_calls p [] = 0
count_calls p (e ∷ es) = if p e then suc (count_calls p es) else count_calls p es

abbrev AllAt : Level → List Initcall → Type 0
AllAt l [] = Unit
AllAt l (e ∷ es) = (e.level ≡ l) × AllAt l es

level_of_same : (a b : Level) → same_level a b ≡ true → a ≡ b
level_of_same core core h = refl
level_of_same user user h = refl
level_of_same late late h = refl
level_of_same core user h = cc
level_of_same core late h = cc
level_of_same user core h = cc
level_of_same user late h = cc
level_of_same late core h = cc
level_of_same late user h = cc

section-AllAt : (l : Level) (es : List Initcall) → AllAt l (section l es)
unfolding section
section-AllAt l [] = tt
section-AllAt l (e ∷ es) = elim (Bool-cases (same_level e.level l)) [
  | inl s ↦ rw (AllAt, section, s) (level_of_same e.level l s, section-AllAt l es)
  | inr s ↦ rw (AllAt, section, s) (section-AllAt l es)
]

-- The loop of do_initcall_level visits the whole section.
do_initcall_level_whole : (es : List Initcall) → do_initcall_level es ≡ es
unfolding do_initcall_level
do_initcall_level_whole [] = refl
do_initcall_level_whole (e ∷ es) = ap (λ fs. e ∷ fs) (do_initcall_level_whole es)

AllFrom-AllAt :
    (l : Level) (n : ℕ) (es fs : List Initcall)
    → n ≤ id_of l
    → AllAt l es
    → AllFrom n fs
    → AllFrom n (es ++ fs)
AllFrom-AllAt l n [] fs h a f = f
AllFrom-AllAt l n (e ∷ es) fs h a f = (omega (arith, ap id_of a.0), AllFrom-AllAt l n es fs h a.1 f)

IsSorted-append :
    (l : Level) (es fs : List Initcall)
    → AllAt l es
    → AllFrom (id_of l) fs
    → IsSorted fs
    → IsSorted (es ++ fs)
IsSorted-append l [] fs a f s = s
IsSorted-append l (e ∷ es) fs a f s = (
  AllFrom-AllAt l (id_of e.level) es fs (omega (arith, ap id_of a.0)) a.1 (rw a.0 f),
  IsSorted-append l es fs a.1 f s,
)

count_calls-append :
    (p : Initcall → Bool) (es fs : List Initcall)
    → count_calls p (es ++ fs) ≡ count_calls p es + count_calls p fs
count_calls-append p [] fs = omega arith
count_calls-append p (e ∷ es) fs = ground (arith, count_calls-append p es fs)

-- Every function stands in one of the sections.
abbrev in_sections : (Initcall → Bool) → List Initcall → ℕ
in_sections p es =
    count_calls p (section core es)
    + count_calls p (section user es)
    + count_calls p (section late es)

in_sections-cons :
    (p : Initcall → Bool) (l : Level) (n : ℕ) (es : List Initcall)
    → in_sections p (record { level = l; fn = n } ∷ es)
      ≡ (if p (record { level = l; fn = n }) then suc (in_sections p es) else in_sections p es)
unfolding section
in_sections-cons p core n es = ground arith
in_sections-cons p user n es = ground arith
in_sections-cons p late n es = ground arith

count_calls-section :
    (p : Initcall → Bool) (es : List Initcall) → in_sections p es ≡ count_calls p es
unfolding section
count_calls-section p [] = refl
count_calls-section p (e ∷ es) =
    in_sections-cons p e.level e.fn es
    ∙ ap (λ n. if p e then suc n else n) (count_calls-section p es)

module _ (linked : List Initcall) where
  -- The levels one behind the other.
  pub in_turn :
      do_initcalls linked
      ≡ section core linked ++ (section user linked ++ (section late linked ++ []))
  unfolding do_initcalls level_loop
  in_turn = ap₂ ◌++◌ (do_initcall_level_whole (section core linked)) (
      ap₂ ◌++◌ (do_initcall_level_whole (section user linked))
        (ap (λ es. es ++ []) (do_initcall_level_whole (section late linked))))

  levels-IsSorted :
      IsSorted (section core linked ++ (section user linked ++ (section late linked ++ [])))
  levels-IsSorted =
      let c = section-AllAt core linked in
      let u = section-AllAt user linked in
      let l = section-AllAt late linked in
      IsSorted-append core _ _ c
        (AllFrom-AllAt user 1 _ _ (omega arith) u (AllFrom-AllAt late 1 _ [] (omega arith) l tt))
        (IsSorted-append user _ _ u (AllFrom-AllAt late 6 _ [] (omega arith) l tt)
          (IsSorted-append late _ [] l tt tt))

  -- For every list of linked functions, do_initcalls calls none before one of a lower level,
  -- and of the functions that satisfy any given test it calls as many as there are linked.
  pub do_initcalls_lem :
      (p : Initcall → Bool)
      → IsSorted (do_initcalls linked)
        × (count_calls p (do_initcalls linked) ≡ count_calls p linked)
  do_initcalls_lem p = rw in_turn (
    levels-IsSorted,
    rw (count_calls-append, append-nil)
        (omega (
          arith,
          count_calls-section p linked,
          count_calls-append p (section user linked) (section late linked),
        )),
  )
