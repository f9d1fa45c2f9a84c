-- ===== src/Ctypes/Masks.antt =====
-- The alignment of a number, a number between bounds, and the masks of bits.
use ohmylib.Prelude.{
  ℕ, zero, suc, ◌+◌, ◌-◌, ◌*◌, ◌/◌, ◌%◌, ◌^◌, ◌≤◌, ◌<◌, ◌≡◌, refl, sym, ap, ap₂, ◌⊎◌, inl, inr,
  Bool-cases, Option, none, some, false, ◌∙◌, if◌then◌else◌, arith, Bool, true, not, ◌&&◌, ◌||◌,
  bit_and, ltb, leb, ◌==◌, ==_iff,
}
use native.Mathlib.Nat.{
  mod-eq_of_lt, div-lt_iff_lt-mul, pow-suc, div-add-mod', mod-lt, mul-mod_left,
}
use ohmylib.Prelude.{bit_and_ones, bit_and_shift_by}
use ohmylib.Ctypes.{align_mask, align, min, max, clamp, bit, genmask}

abbrev pub plus : Option ℕ → Option ℕ → Option ℕ
plus none b = none
plus (some a) none = none
plus (some a) (some b) = some (a + b)

-- The sum of `n` bits from bit `l` on, where each is defined.
abbrev pub bits_from : ℕ → ℕ → Option ℕ
bits_from l zero = some 0
bits_from l (suc n) = plus (bit l) (bits_from (l + 1) n)

abbrev all_below : ℕ → (ℕ → Bool) → Bool
all_below zero p = true
all_below (suc n) p = p n && all_below n p

all_below_lem : (n : ℕ) (p : ℕ → Bool) (x : ℕ) → all_below n p ≡ true → x < n → p x ≡ true
all_below_lem zero p x h lt = absurd (omega arith)
all_below_lem (suc n) p x h lt = ground (arith, all_below_lem n p x)

abbrev holds : ℕ → Option ℕ → Bool
holds m none = false
holds m (some b) = m == b

-- From l to h, and only up to bit 30 as a sum of BIT.
abbrev mask_is_sum : ℕ → ℕ → Bool
mask_is_sum h l =
    not (leb l h)
    || ((genmask h l + 2 ^ l == 2 ^ (h + 1))
        && ((h == 31) || holds (genmask h l) (bits_from l (h + 1 - l))))

table : all_below 32 (λ h. all_below 31 (λ l. mask_is_sum h l)) ≡ true
unfolding genmask bit
table = refl

leb_holds : (a b : ℕ) → a ≤ b → leb a b ≡ true
leb_holds a b le = ground arith

both_hold : (a b : Bool) → (a && b) ≡ true → (a ≡ true) × (b ≡ true)
both_hold true b e = (refl, e)
both_hold false b e = absurd (cc e)

holds_lem : (m : ℕ) (o : Option ℕ) → holds m o ≡ true → o ≡ some m
holds_lem m none e = cc e
holds_lem m (some b) e = ap some (sym ((==_iff m b).0 e))

genmask_lem :
    (h l : ℕ)
    → h < 32
    → l < 31
    → l ≤ h
    → (genmask h l + 2 ^ l ≡ 2 ^ (h + 1))
      × ((h ≡ 31) ⊎ (bits_from l (h + 1 - l) ≡ some (genmask h l)))
genmask_lem h l below low le =
    let row = all_below_lem 32 (λ h. all_below 31 (λ l. mask_is_sum h l)) h table below in
    let cell = all_below_lem 31 (λ l. mask_is_sum h l) l row low in
    let ok = leb_holds l h le in
    let found : mask_is_sum h l ≡ true = cell in
    let parts : ((genmask h l + 2 ^ l == 2 ^ (h + 1))
          && ((h == 31) || holds (genmask h l) (bits_from l (h + 1 - l))))
        ≡ true =
      rw ok at found in
    let (whole, rest) = both_hold _ _ parts in
    (
      (==_iff _ _).0 whole,
      elim (Bool-cases (h == 31)) [
        | inl e ↦ inl ((==_iff _ _).0 e)
        | inr e ↦ inr (holds_lem _ _ (rw e at rest))
      ],
    )

abbrev splits : ℕ → Bool
splits k =
    (2 ^ 32 == 2 ^ (32 - k) * 2 ^ k)
    && (2 ^ 32 - 1 - (2 ^ k + 2 ^ 32 - 1) % 2 ^ 32 == (2 ^ (32 - k) - 1) * 2 ^ k)
    && ((2 ^ k + 2 ^ 32 - 1) % 2 ^ 32 + 1 == 2 ^ k)

powers : all_below 32 splits ≡ true
powers = refl

power_above : (k : ℕ) → 0 < 2 ^ k
power_above zero = omega arith
power_above (suc k) = omega (arith, pow-suc 2 k, power_above k)

-- A number rounded up to a multiple of `d`.
rounded : (x d : ℕ) → 0 < d → let r = (x + (d - 1)) / d * d in (r % d ≡ 0) × (x ≤ r) × (r < x + d)
rounded x d above =
    let parts = div-add-mod' (x + (d - 1)) d in
    let rest = mod-lt (x + (d - 1)) above in
    (mul-mod_left ((x + (d - 1)) / d) d, omega (arith, parts, rest), omega (arith, parts, rest))

-- Masks of ones above `k` zeros clear the remainder.
clears : (j k y : ℕ) → y < 2 ^ j * 2 ^ k → bit_and y ((2 ^ j - 1) * 2 ^ k) ≡ y / 2 ^ k * 2 ^ k
clears j k y small =
    let quotient : y / 2 ^ k < 2 ^ j = (div-lt_iff_lt-mul (power_above k)).1 small in
    bit_and_shift_by k y (2 ^ j - 1) ∙ ap (λ t. t * 2 ^ k) (bit_and_ones j (y / 2 ^ k) quotient)

align_down :
    (x k : ℕ)
    → k < 32
    → x + (2 ^ k - 1) < 2 ^ 32
    → align x (2 ^ k) ≡ (x + (2 ^ k - 1)) / 2 ^ k * 2 ^ k
unfolding align align_mask
align_down x k below small =
    let row = all_below_lem 32 splits k powers below in
    let whole : 2 ^ 32 ≡ 2 ^ (32 - k) * 2 ^ k = ground (arith, row) in
    let ones : 2 ^ 32 - 1 - (2 ^ k + 2 ^ 32 - 1) % 2 ^ 32 ≡ (2 ^ (32 - k) - 1) * 2 ^ k =
      ground (arith, row) in
    let mask : (2 ^ k + 2 ^ 32 - 1) % 2 ^ 32 ≡ 2 ^ k - 1 = ground (arith, row) in
    let sum : (x + (2 ^ k + 2 ^ 32 - 1) % 2 ^ 32) % 2 ^ 32 ≡ x + (2 ^ k - 1) =
      ap (λ m. (x + m) % 2 ^ 32) mask ∙ mod-eq_of_lt small in
    ap₂ bit_and sum ones ∙ clears (32 - k) k (x + (2 ^ k - 1)) (omega (arith, whole, small))

-- For k below 32 and an x whose sum with 2 ^ k - 1 does not overflow, ALIGN gives the multiple
-- of 2 ^ k from x on that is less than 2 ^ k away; where lo is at most hi, CLAMP gives lo for
-- a number below it, hi for one above it, and else the number itself; for l up to h, h below
-- 32 and l below 31, GENMASK is 2 ^ (h + 1) - 2 ^ l, and this is the sum of BIT from l to h
-- where h is not 31, whose BIT is not defined.
pub macros_lem :
    (x k val hi lo h l : ℕ)
    → k < 32
    → x + (2 ^ k - 1) < 2 ^ 32
    → lo ≤ hi
    → h < 32
    → l < 31
    → l ≤ h
    → (align x (2 ^ k) % 2 ^ k ≡ 0)
      × (x ≤ align x (2 ^ k))
      × (align x (2 ^ k) < x + 2 ^ k)
      × (clamp val hi lo ≡ (if ltb val lo then lo else if ltb hi val then hi else val))
      × ((genmask h l + 2 ^ l ≡ 2 ^ (h + 1))
          × ((h ≡ 31) ⊎ (bits_from l (h + 1 - l) ≡ some (genmask h l))))
unfolding clamp min max
macros_lem x k val hi lo h l below small range h_below l_below le =
    let (multiple, least, near) = rounded x (2 ^ k) (power_above k) in
    let down = align_down x k below small in
    (
      ap (λ a. a % 2 ^ k) down ∙ multiple,
      rw down least,
      rw down near,
      ground arith,
      genmask_lem h l h_below l_below le,
    )
