-- ===== src/Lfsr/Laws.antt =====
-- The bytes that the buffer gets, and the step of the register backwards.
use ohmylib.Prelude.{
  ℕ, zero, suc, ◌+◌, ◌-◌, ◌*◌, ◌/◌, ◌%◌, ◌^◌, ◌≤◌, ◌<◌, ◌≡◌, ◌≢◌, ◌⊎◌, inl, inr, refl, sym, ap, ap₂,
  ◌∙◌, arith, List, [], ◌∷◌, bit_and, bit_xor, Memory, read_bytes, ◌==◌, if◌then◌else◌, ==_false,
  ==_true, ltb, Bool-cases,
}
use ohmylib.Prelude.{
  bit_and_one, bit_and_byte, ones_bit_and, zero_bit_and, bit_xor_top, bit_xor-lt, bit_xor_cancel,
  bit_xor-zero,
}
use native.Mathlib.Nat.{mod-eq_of_lt}
use ohmylib.Lfsr.{lfsr_step, store, lfsr_loop, lfsr}

-- The low bytes of the states from `s` on.
abbrev pub low_bytes : ℕ → ℕ → ℕ → List ℕ
low_bytes poly zero s = []
low_bytes poly (suc n) s = s % 256 ∷ low_bytes poly n (lfsr_step poly s)

loop_below : (poly left p s : ℕ) (m : Memory) (a : ℕ) → a < p → lfsr_loop poly left p s m a ≡ m a
unfolding lfsr_loop
loop_below poly zero p s m a h = refl
loop_below poly (suc left) p s m a h =
    loop_below poly left (p + 1) (lfsr_step poly s) _ a (omega arith) ∙ ground arith

loop_above :
    (poly left p s : ℕ) (m : Memory) (a : ℕ) → p + left ≤ a → lfsr_loop poly left p s m a ≡ m a
unfolding lfsr_loop
loop_above poly zero p s m a h = refl
loop_above poly (suc left) p s m a h =
    loop_above poly left (p + 1) (lfsr_step poly s) _ a (omega arith) ∙ ground arith

loop_inside :
    (poly left p s : ℕ) (m : Memory)
    → read_bytes (lfsr_loop poly left p s m) p left ≡ low_bytes poly left s
unfolding lfsr_loop
loop_inside poly zero p s m = refl
loop_inside poly (suc left) p s m =
    ap₂ ◌∷◌ (loop_below poly left (p + 1) (lfsr_step poly s) _ p (omega arith) ∙ here)
      (loop_inside poly left (p + 1) (lfsr_step poly s) _)
  where
    here : store p (bit_and s 0xff) m p ≡ s % 256
    here = rw (==_true p p refl) (bit_and_byte s)

-- For a buffer that is not NULL, lfsr returns the count, the buffer has the low bytes of the
-- successive states of the register from the start value on, and every address outside the
-- buffer keeps its byte.
pub lfsr_lem :
    (buf count init poly : ℕ) (m : Memory) (a : ℕ)
    → buf ≢ 0
    → (a < buf) ⊎ (buf + count ≤ a)
    → let (n, m') = lfsr buf count init poly m in
      (n ≡ count) × (read_bytes m' buf count ≡ low_bytes poly count init) × (m' a ≡ m a)
unfolding lfsr
lfsr_lem buf count init poly m a h outside =
    rw (==_false buf 0 h) (refl, loop_inside poly count buf init m, kept outside)
  where
    kept : (a < buf) ⊎ (buf + count ≤ a) → lfsr_loop poly count buf init m a ≡ m a
    kept (inl below) = loop_below poly count buf init m a below
    kept (inr above) = loop_above poly count buf init m a above

-- The step backwards.
abbrev pub unstep : ℕ → ℕ → ℕ
unstep poly t = if ltb t (2 ^ 15) then t * 2 else bit_xor t poly * 2 + 1

module _ (poly : ℕ) (fits : poly < 2 ^ 16) where
  mask_lem :
      (s : ℕ) → bit_and ((2 ^ 32 - bit_and s 1) % 2 ^ 32) poly ≡ (if s % 2 == 1 then poly else 0)
  mask_lem s = elim (Bool-cases (s % 2 == 1)) [
    | inl odd ↦
        let all : (2 ^ 32 - bit_and s 1) % 2 ^ 32 ≡ 2 ^ 32 - 1 = ground (arith, bit_and_one s) in
        rw odd (ap (λ t. bit_and t poly) all ∙ ones_bit_and 32 poly (omega arith))
    | inr even ↦
        let no_bits : (2 ^ 32 - bit_and s 1) % 2 ^ 32 ≡ 0 = ground (arith, bit_and_one s) in
        rw even (ap (λ t. bit_and t poly) no_bits ∙ zero_bit_and poly)
  ]

  -- A step shifts, and takes the polynomial in where a one is shifted out.
  lfsr_step_lem :
      (s : ℕ) → s < 2 ^ 16 → lfsr_step poly s ≡ bit_xor (s / 2) (if s % 2 == 1 then poly else 0)
  unfolding lfsr_step
  lfsr_step_lem s h =
      ap (λ t. bit_xor (s / 2) t % 2 ^ 16) (mask_lem s)
      ∙ mod-eq_of_lt (bit_xor-lt 16 (s / 2) _ (omega arith) (ground arith))

  module _ (top : 2 ^ 15 ≤ poly) where
    -- For a polynomial of 16 bits whose highest bit is set, the step of the register on states
    -- of 16 bits is undone by a step backwards, so no two states have the same successor.
    pub unstep-step : (s : ℕ) → s < 2 ^ 16 → unstep poly (lfsr_step poly s) ≡ s
    unstep-step s h = elim (Bool-cases (s % 2 == 1)) [
      | inl odd ↦
          let e : lfsr_step poly s ≡ bit_xor (s / 2) poly = lfsr_step_lem s h ∙ rw odd in
          ground (
            arith,
            e,
            bit_xor_top 15 (s / 2) poly (omega arith) top fits,
            bit_xor_cancel 16 (s / 2) poly (omega arith) fits,
          )
      | inr even ↦
          let e : lfsr_step poly s ≡ s / 2 =
            lfsr_step_lem s h ∙ rw even (bit_xor-zero (s / 2) (s / 2) (omega arith)) in
          ground (arith, e)
    ]

    pub lfsr_step-injective :
        (s t : ℕ) → s < 2 ^ 16 → t < 2 ^ 16 → lfsr_step poly s ≡ lfsr_step poly t → s ≡ t
    lfsr_step-injective s t hs ht e = sym (unstep-step s hs) ∙ ap (unstep poly) e ∙ unstep-step t ht
