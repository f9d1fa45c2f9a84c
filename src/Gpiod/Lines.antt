-- ===== src/Gpiod/Lines.antt =====
-- What becomes of the lines, the texts and the chip, and how an argument is read.
use ohmylib.Prelude.{
  ℕ, suc, ◌+◌, ◌≡◌, refl, sym, ap, ◌∙◌, arith, Bool, true, false, Bool-cases, inl, inr, not, ◌&&◌,
  ◌||◌, Option, none, some, List, [], ◌∷◌, ◌++◌, ltb, ◌==◌, count, count-append, append-nil,
  if◌then◌else◌,
}
use ohmylib.Prelude.Decimal.{decimal, atoi, atoi_loop, atoi-decimal, AreDigits, digits-AreDigits}
use ohmylib.Prelude.Int.{ℤ, pos, negsuc, ltb_ℤ}
use ohmylib.Gpiod.{
  Call, closes_chip, duplicates, frees, gets_line, requests_output, requests_input, releases, sets,
  prints, opens_chip, fails, chip_name, ending, Argument, split, line_round, line_loop, main,
}

abbrev pub is_get : Call → Bool
is_get (gets_line n) = true
is_get c = false

abbrev pub is_release : Call → Bool
is_release (releases n) = true
is_release c = false

abbrev pub is_duplicate : Call → Bool
is_duplicate duplicates = true
is_duplicate c = false

abbrev pub is_free : Call → Bool
is_free frees = true
is_free c = false

abbrev pub is_close : Call → Bool
is_close closes_chip = true
is_close c = false

abbrev is_some {ℓ} : {A : Type ℓ} → Option A → Bool
is_some none = false
is_some (some a) = true

-- A call that requests or sets the line fails.
abbrev pub line_fails : Argument → Bool
line_fails a = ltb_ℤ a.request_ret (pos 0) || (is_some (split a.arg).1 && ltb_ℤ a.set_ret (pos 0))

abbrev pub any_fails : List Argument → Bool
any_fails [] = false
any_fails (a ∷ as') = not a.strdup_ok || line_fails a || any_fails as'

abbrev pub all_lines : List Argument → Bool
all_lines [] = true
all_lines (a ∷ as') = a.line_ok && all_lines as'

-- The copies of texts that are not freed: that of the argument whose line fails.
abbrev pub lost : List Argument → ℕ
lost [] = 0
lost (a ∷ as') = if not a.strdup_ok then 0 else if line_fails a then 1 else lost as'

-- What a round does before its end.
module _ (a : Argument) (n : ℤ) where
  round_lem :
      (value : Option (List ℕ))
      → let (goes_on, calls) = line_round a n value in
        (goes_on ≡ not (ltb_ℤ a.request_ret (pos 0) || (is_some value && ltb_ℤ a.set_ret (pos 0))))
        × (count is_get calls ≡ 0)
        × (count is_release calls ≡ (if goes_on then 0 else 1))
        × (count is_duplicate calls ≡ 0)
        × (count is_free calls ≡ 0)
        × (count is_close calls ≡ 0)
  round_lem none = ground arith
  round_lem (some value) = ground arith

abbrev Balanced : List Argument → Bool × List Call → Type 0
Balanced as' (to_end, calls) =
    (to_end ≡ not (any_fails as'))
    × (count is_get calls ≡ count is_release calls)
    × (count is_duplicate calls ≡ count is_free calls + lost as')
    × (count is_close calls ≡ 0)

both_hold : (a b : Bool) → (a && b) ≡ true → (a ≡ true) × (b ≡ true)
both_hold true b e = (refl, e)
both_hold false b e = absurd (cc e)

line_loop-Balanced :
    (as' : List Argument)
    → all_lines as' ≡ true
    → (r : Bool × List Call) × (line_loop as' ≡ some r) × Balanced as' r
unfolding line_loop
line_loop-Balanced [] all = ((true, []), refl, (refl, refl, refl, refl))
line_loop-Balanced (a ∷ as') all =
    let (here, others) = both_hold a.line_ok (all_lines as') all in
    let (r, ran, (ends, gets, copies, closed)) = line_loop-Balanced as' others in
    let (linenum, value) = split a.arg in
    let n = atoi linenum in
    let (goes, got, released, copied, freed, shut) = round_lem a n value in
    let calls = (line_round a n value).1 in
    let end = releases n ∷ frees ∷ r.1 in
    let both : (p : Call → Bool) → count p (calls ++ end) ≡ count p calls + count p end =
      λ p. count-append p calls end in
    elim (Bool-cases a.strdup_ok) [
      | inr e ↦ rw e ((false, fails ∷ []), refl, (refl, refl, refl, refl))
      | inl e ↦ elim (Bool-cases (line_round a n value).0) [
        | inl g ↦
            let holds : line_fails a ≡ false = ground arith in
            rw (e, here, g, ran, holds)
              (
                (r.0, duplicates ∷ gets_line n ∷ calls ++ end),
                refl,
                (
                  ends,
                  omega (arith, got, rw g at released, gets, both is_get, both is_release),
                  omega (arith, copied, freed, copies, both is_duplicate, both is_free),
                  omega (arith, shut, closed, both is_close),
                ),
              )
        | inr g ↦
            let fails' : line_fails a ≡ true = ground arith in
            rw (e, here, g, fails')
              (
                (false, duplicates ∷ gets_line n ∷ calls),
                refl,
                (refl, omega (arith, got, rw g at released), omega (arith, copied, freed), shut),
              )
      ]
    ]

-- What becomes of a program that returns.
abbrev pub Tidies : List Argument → ℤ × List Call → Type 0
Tidies arguments (ret, calls) =
    (ret ≡ (if any_fails arguments then negsuc 0 else pos 0))
    × (count is_get calls ≡ count is_release calls)
    × (count is_duplicate calls ≡ count is_free calls + lost arguments)
    × (count is_close calls ≡ (if any_fails arguments then 1 else 0))

ending-Tidies :
    (chip : List ℕ) (arguments : List Argument) (r : Bool × List Call)
    → Balanced arguments r
    → Tidies arguments (ending (opens_chip chip) r)
ending-Tidies chip arguments (true, calls) (ends, gets, copies, closed) =
    let f : any_fails arguments ≡ false = ground arith in rw f (refl, gets, copies, closed)
ending-Tidies chip arguments (false, calls) (ends, gets, copies, closed) =
    let f : any_fails arguments ≡ true = ground arith in
    let both : (p : Call → Bool)
        → count p (calls ++ (closes_chip ∷ [])) ≡ count p calls + count p (closes_chip ∷ []) =
      λ p. count-append p calls (closes_chip ∷ []) in
    rw (f, both is_get, both is_release, both is_duplicate, both is_free, both is_close)
      (refl, omega (arith, gets), omega (arith, copies), omega (arith, closed))

-- With at least two arguments, a chip that can be opened and a line for each argument, main
-- returns -1 where a call of strdup, or one that requests or sets a line, fails, and 0 where
-- none does, although gpiod_line_get_value may have failed; it releases each line that it
-- gets, closes the chip only where it returns -1, and does not free the copy of the argument
-- whose line cannot be requested or set.
pub gpiod_main_lem :
    (argc chip : ℕ) (arguments : List Argument)
    → ltb argc 3 ≡ false
    → all_lines arguments ≡ true
    → (r : ℤ × List Call) × (main argc chip true arguments ≡ some r) × Tidies arguments r
unfolding main
gpiod_main_lem argc chip arguments h all =
    let (r, ran, balanced) = line_loop-Balanced arguments all in
    (
      ending (opens_chip (chip_name chip)) r,
      rw (h, ran) refl,
      ending-Tidies (chip_name chip) arguments r balanced,
    )

-- An argument that was printed from numbers is read as these.
split-digits : (cs rest : List ℕ) → AreDigits cs → split (cs ++ (61 ∷ rest)) ≡ (cs, some rest)
unfolding split
split-digits [] rest h = refl
split-digits (c ∷ cs) rest (d, h) =
    let other : (c == 61) ≡ false = ground arith in rw (other, split-digits cs rest h) refl

split-alone : (cs : List ℕ) → AreDigits cs → split cs ≡ (cs, none)
unfolding split
split-alone [] h = refl
split-alone (c ∷ cs) (d, h) =
    let other : (c == 61) ≡ false = ground arith in rw (other, split-alone cs h) refl

atoi_whole : (n : ℕ) → atoi (decimal n) ≡ pos n
unfolding atoi_loop
atoi_whole n = ap atoi (sym (append-nil (decimal n))) ∙ atoi-decimal n []

abbrev pub argument : List ℕ → ℤ → Argument
argument text get_ret = record {
  arg = text;
  strdup_ok = true;
  line_ok = true;
  request_ret = pos 0;
  set_ret = pos 0;
  get_ret = get_ret;
}

-- If every call succeeds, an argument that is the decimal text of n, an equals sign and the
-- decimal text of v requests line n as an output, sets it to v and releases it, and the
-- decimal text of n alone requests line n as an input, prints its value and releases it; the
-- copy of the argument is freed.
pub line_loop_lem :
    (n v : ℕ) (get_ret : ℤ)
    → (line_loop (argument (decimal n ++ (61 ∷ decimal v)) get_ret ∷ [])
        ≡ some (
          true,
          duplicates
              ∷ gets_line (pos n)
              ∷ requests_output (pos n)
              ∷ sets (pos n) (pos v)
              ∷ releases (pos n)
              ∷ frees
              ∷ [],
        ))
      × (line_loop (argument (decimal n) get_ret ∷ [])
          ≡ some (
            true,
            duplicates
                ∷ gets_line (pos n)
                ∷ requests_input (pos n)
                ∷ prints (pos n) get_ret
                ∷ releases (pos n)
                ∷ frees
                ∷ [],
          ))
unfolding line_loop
line_loop_lem n v get_ret =
    let written = split-digits (decimal n) (decimal v) (digits-AreDigits (suc n) n) in
    let alone = split-alone (decimal n) (digits-AreDigits (suc n) n) in
    (
      rw (written, atoi_whole n, atoi_whole v) (rw (written, atoi_whole n) refl),
      rw (alone, atoi_whole n) (rw (alone, atoi_whole n) refl),
    )
