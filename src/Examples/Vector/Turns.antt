-- ===== src/Examples/Vector/Turns.antt =====
-- The order in which the elements are taken off, front and back in turn.
use ohmylib.Prelude.{
  ℕ, zero, suc, ◌≡◌, ◌≢◌, refl, sym, ap, ◌∙◌, arith, Bool, true, false, Bool-cases, not, ◌⊎◌, inl,
  inr, Option, some, List, [], ◌∷◌, ◌++◌, ◌==◌, ==_false, length, length-append, if◌then◌else◌,
}
use mathlib.Core.List.{reverse, reverse-append, reverse-reverse}
use ohmylib.Vector.Cells.{Cells, popv, popv_front}
use ohmylib.Vector.Items.{items, IsVector}
use ohmylib.Vector.Ends.{pop_lem}
use ohmylib.Examples.Vector.{drain}

-- The first, the last, the second, the last but one, and so on, of `n` elements.
abbrev pub in_turn : ℕ → List ℕ → List ℕ
in_turn zero xs = []
in_turn (suc n) [] = []
in_turn (suc n) (x ∷ xs) = x ∷ in_turn n (reverse xs)

abbrev pub NonNull : List ℕ → Type 0
NonNull [] = Unit
NonNull (x ∷ xs) = (x ≢ 0) × NonNull xs

items-NonNull : (cs : Cells) → NonNull (items cs)
items-NonNull [] = tt
items-NonNull (c ∷ cs) = elim (Bool-cases (c == 0)) [
  | inl e ↦ rw e tt
  | inr e ↦ rw e (ground arith, items-NonNull cs)
]

NonNull-last : (xs : List ℕ) (p : ℕ) → NonNull (xs ++ (p ∷ [])) → p ≢ 0
NonNull-last [] p h = h.0
NonNull-last (x ∷ xs) p h = NonNull-last xs p h.1

-- The side from which the next element is taken comes first.
abbrev facing : Bool → List ℕ → List ℕ
facing true xs = reverse xs
facing false xs = xs

abbrev Empties : Bool → Cells → ℕ → Type 0
Empties flipflop cs n =
    (cs' : Cells) × (drain (suc n) flipflop cs ≡ some (in_turn n (facing flipflop (items cs)), cs'))
    × IsVector cs'
    × (items cs' ≡ [])

-- One round of the loop.
abbrev popped : Bool → Cells → Option (ℕ × Cells)
popped flipflop cs = if flipflop then popv cs else popv_front cs

drain_stop :
    (k : ℕ) (flipflop : Bool) (cs cs' : Cells)
    → popped flipflop cs ≡ some (0, cs')
    → drain (suc k) flipflop cs ≡ some ([], cs')
unfolding drain
drain_stop k true cs cs' e = rw (e, drain) refl
drain_stop k false cs cs' e = rw (e, drain) refl

drain_step :
    (k : ℕ) (flipflop : Bool) (cs cs' end : Cells) (p : ℕ) (ps : List ℕ)
    → popped flipflop cs ≡ some (p, cs')
    → p ≢ 0
    → drain k (not flipflop) cs' ≡ some (ps, end)
    → drain (suc k) flipflop cs ≡ some (p ∷ ps, end)
unfolding drain
drain_step k true cs cs' end p ps e ne rest = rw (e, drain) (rw (==_false p 0 ne, rest) refl)
drain_step k false cs cs' end p ps e ne rest = rw (e, drain) (rw (==_false p 0 ne, rest) refl)

-- What the next call takes: nothing, or the element that the loop faces.
abbrev Takes : Bool → Cells → ℕ → Cells → Type 0
Takes flipflop cs p cs' =
    (popped flipflop cs ≡ some (p, cs'))
    × IsVector cs'
    × (((items cs ≡ []) × (p ≡ 0) × (cs' ≡ cs))
        ⊎ ((p ≢ 0)
            × (length (items cs) ≡ suc (length (items cs')))
            × (facing flipflop (items cs) ≡ p ∷ reverse (facing (not flipflop) (items cs')))))

takes_lem :
    (flipflop : Bool) (cs : Cells) → IsVector cs → (p : ℕ) × (cs' : Cells) × Takes flipflop cs p cs'
takes_lem true cs v =
    let (p, cs', e, v', taken) = (pop_lem cs v).0 in
    (
      p,
      cs',
      (
        e,
        v',
        elim taken [
          | inl none_left ↦ inl none_left
          | inr split ↦ inr (
            NonNull-last (items cs') p (rw split at (items-NonNull cs)),
            ap length split ∙ length-append (items cs') (p ∷ []) ∙ omega arith,
            ap reverse split ∙ reverse-append (items cs') (p ∷ []),
          )
        ],
      ),
    )
takes_lem false cs v =
    let (p, cs', e, v', taken) = (pop_lem cs v).1 in
    (
      p,
      cs',
      (
        e,
        v',
        elim taken [
          | inl none_left ↦ inl none_left
          | inr split ↦ inr (
            (rw split at (items-NonNull cs)).0,
            ap length split,
            split ∙ ap (λ xs. p ∷ xs) (sym (reverse-reverse (items cs'))),
          )
        ],
      ),
    )

pub drain_lem :
    (n : ℕ) (flipflop : Bool) (cs : Cells)
    → IsVector cs
    → length (items cs) ≡ n
    → Empties flipflop cs n
drain_lem zero flipflop cs v e =
    let (p, cs', (took, v', taken)) = takes_lem flipflop cs v in
    elim taken [
      | inl (empty, null, same) ↦ (
        cs',
        drain_stop 0 flipflop cs cs' (took ∙ ap (λ q. some (q, cs')) null),
        v',
        ap items same ∙ empty,
      )
      | inr (ne, longer, split) ↦ absurd (omega arith)
    ]
drain_lem (suc n) flipflop cs v e =
    let (p, cs', (took, v', taken)) = takes_lem flipflop cs v in
    elim taken [
      | inl (empty, null, same) ↦ absurd (omega (arith, ap length empty))
      | inr (ne, longer, split) ↦
          let rest = facing (not flipflop) (items cs') in
          let (end, drained, v'', empty) = drain_lem n (not flipflop) cs' v' (omega arith) in
          let order : in_turn (suc n) (facing flipflop (items cs)) ≡ p ∷ in_turn n rest =
            ap (in_turn (suc n)) split ∙ ap (λ xs. p ∷ in_turn n xs) (reverse-reverse rest) in
          (
            end,
            drain_step (suc n) flipflop cs cs' end p (in_turn n rest) took ne drained
                ∙ ap (λ ps. some (ps, end)) (sym order),
            v'',
            empty,
          )
    ]
