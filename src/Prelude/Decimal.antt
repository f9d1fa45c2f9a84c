-- ===== src/Prelude/Decimal.antt =====
-- Decimal numbers as texts: the `%u` of printf, and atoi.
use Prim.Native.Nat.{ℕ, zero, suc, ◌+◌, ◌-◌, ◌*◌, ◌/◌, ◌%◌, ◌^◌, ◌≤◌, ◌<◌}
use mathlib.Core.Path.{◌≡◌, refl, sym, ap, ◌∙◌}
use mathlib.Core.Logic.{inl, inr}
use mathlib.Core.Bool.{Bool, true, false, ◌&&◌, ◌||◌}
use mathlib.Core.List.{List, [], ◌∷◌, ◌++◌, append_assoc}
use native.Mathlib.Omega.{arith}
use ohmylib.Prelude.Tests.{ltb, leb, ◌==◌, if◌then◌else◌, Bool-cases}
use ohmylib.Prelude.Lists.{length, length-append}
use ohmylib.Prelude.Int.{ℤ, pos, sub_ℕ}

-- The digits of `n`, in at most `k` of them.
unfoldable pub digits : ℕ → ℕ → List ℕ
digits zero n = []
digits (suc k) n =
    let front = digits k (n / 10) in (if ltb n 10 then [] else front) ++ ((48 + n % 10) ∷ [])

abbrev pub decimal : ℕ → List ℕ
decimal n = digits (suc n) n

abbrev pub is_digit : ℕ → Bool
is_digit c = leb 48 c && leb c 57

unfoldable pub atoi_loop : ℕ → List ℕ → ℕ
atoi_loop n [] = n
atoi_loop n (c ∷ cs) = let rest = atoi_loop (10 * n + (c - 48)) cs in if is_digit c then rest else n

abbrev is_space : ℕ → Bool
is_space c = (c == 32) || (leb 9 c && leb c 13)

-- White space, a sign, and digits. A value that does not fit an `int` is left as it is.
unfoldable pub atoi : List ℕ → ℤ
unfolding atoi_loop
atoi [] = pos 0
atoi (c ∷ cs) =
    let rest = atoi cs in
    if is_space c
    then rest
    else if c == 45
    then sub_ℕ 0 (atoi_loop 0 cs)
    else if c == 43
    then pos (atoi_loop 0 cs)
    else pos (atoi_loop 0 (c ∷ cs))

atoi_loop_digit :
    (n d : ℕ) (cs : List ℕ) → d < 10 → atoi_loop n ((48 + d) ∷ cs) ≡ atoi_loop (10 * n + d) cs
unfolding atoi_loop
atoi_loop_digit n d cs h =
    let digit : is_digit (48 + d) ≡ true = ground arith in
    let value : 48 + d - 48 ≡ d = omega arith in rw (digit, value) refl

pub atoi_loop-digits :
    (k n : ℕ) (cs : List ℕ) → n < k → atoi_loop 0 (digits k n ++ cs) ≡ atoi_loop n cs
unfolding digits
atoi_loop-digits zero n cs h = absurd (omega arith)
atoi_loop-digits (suc k) n cs h = elim (Bool-cases (ltb n 10)) [
  | inl e ↦ rw e (
      atoi_loop_digit 0 (n % 10) cs (omega arith) ∙ ap (λ v. atoi_loop v cs) {y = n} (ground arith))
  | inr e ↦ rw e (
      ap (atoi_loop 0) (append_assoc (digits k (n / 10)) ((48 + n % 10) ∷ []) cs)
      ∙ atoi_loop-digits k (n / 10) ((48 + n % 10) ∷ cs) (ground arith)
      ∙ atoi_loop_digit (n / 10) (n % 10) cs (omega arith)
      ∙ ap (λ v. atoi_loop v cs) {y = n} (omega arith))
]

pub length-digits : (k n m : ℕ) → n < 10 ^ suc m → length (digits k n) ≤ suc m
unfolding digits
length-digits zero n m h = omega arith
length-digits (suc k) n zero h =
    let short : ltb n 10 ≡ true = ground arith in rw short (omega arith)
length-digits (suc k) n (suc m) h =
    let front = length-digits k (n / 10) m (omega arith) in
    elim (Bool-cases (ltb n 10)) [
      | inl e ↦ rw e (omega arith)
      | inr e ↦
          rw (e, length-append (digits k (n / 10)) ((48 + n % 10) ∷ [])) (omega (arith, front))
    ]

digits_first :
    (k n : ℕ) → n < k → (c : ℕ) × (cs : List ℕ) × (digits k n ≡ c ∷ cs) × (is_digit c ≡ true)
unfolding digits
digits_first zero n h = absurd (omega arith)
digits_first (suc k) n h = elim (Bool-cases (ltb n 10)) [
  | inl e ↦ (48 + n % 10, [], rw e refl, ground arith)
  | inr e ↦
      let (c, cs, same, digit) = digits_first k (n / 10) (ground arith) in
      (c, cs ++ ((48 + n % 10) ∷ []), rw (e, same) refl, digit)
]

atoi-digit : (c : ℕ) (cs : List ℕ) → is_digit c ≡ true → atoi (c ∷ cs) ≡ pos (atoi_loop 0 (c ∷ cs))
unfolding atoi
atoi-digit c cs h =
    let no_space : is_space c ≡ false = ground arith in
    let no_minus : (c == 45) ≡ false = ground arith in
    let no_plus : (c == 43) ≡ false = ground arith in rw (no_space, no_minus, no_plus) refl

-- What is read is the number that was printed, up to the text behind it.
pub atoi-decimal : (n : ℕ) (cs : List ℕ) → atoi (decimal n ++ cs) ≡ pos (atoi_loop n cs)
atoi-decimal n cs =
    let (c, ds, same, digit) = digits_first (suc n) n (omega arith) in
    ap (λ xs. atoi (xs ++ cs)) same
    ∙ atoi-digit c (ds ++ cs) digit
    ∙ ap (λ xs. pos (atoi_loop 0 (xs ++ cs))) (sym same)
    ∙ ap pos (atoi_loop-digits (suc n) n cs (omega arith))

abbrev pub AreDigits : List ℕ → Type 0
AreDigits [] = Unit
AreDigits (c ∷ cs) = (is_digit c ≡ true) × AreDigits cs

AreDigits-snoc :
    (cs : List ℕ) (c : ℕ) → AreDigits cs → is_digit c ≡ true → AreDigits (cs ++ (c ∷ []))
AreDigits-snoc [] c h d = (d, tt)
AreDigits-snoc (b ∷ cs) c h d = (h.0, AreDigits-snoc cs c h.1 d)

pub digits-AreDigits : (k n : ℕ) → AreDigits (digits k n)
unfolding digits
digits-AreDigits zero n = tt
digits-AreDigits (suc k) n = elim (Bool-cases (ltb n 10)) [
  | inl e ↦ rw e (ground arith, tt)
  | inr e ↦ rw e (AreDigits-snoc _ (48 + n % 10) (digits-AreDigits k (n / 10)) (ground arith))
]
