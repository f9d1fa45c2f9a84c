-- ===== src/Examples/Queue/Keeping.antt =====
-- A queue of pointers that it keeps in a buffer, and what a put and a take do to it.
use ohmylib.Prelude.{
  ℕ, ◌+◌, ◌*◌, ◌^◌, ◌≤◌, ◌<◌, ◌≡◌, ◌≢◌, ◌⊎◌, sym, ap, ap₂, ◌∙◌, arith, inl, inr, true, false, List,
  [], ◌∷◌, ◌++◌, ==_true, ==_false, length, length-map, Disjoint, read_bytes,
}
use mathlib.Core.List.{map, map-append}
use ohmylib.Prelude.Words.{
  bytes, word, word-bytes, store_pointer, load_pointer, store_pointer_outside,
}
use ohmylib.Queue.State.{Shared, queue_is_empty_locked, queue_is_full_locked}
use ohmylib.Queue.Transfer.{queue_put, queue_take}
use ohmylib.Queue.Layout.{IsValid}
use ohmylib.Queue.Contents.{contents, window_agree, length-window}
use ohmylib.Queue.Refine.{queue_put-IsValid, queue_put_lem, queue_take-IsValid, queue_take_lem}

-- A queue of `n` pointers with its buffer at `b` holds `ptrs`.
pub record Keeps (b n : ℕ) (s : Shared) (ptrs : List ℕ) : Type 0 where
  pub valid : IsValid s.queue
  pub sized : s.queue.size ≡ 8
  pub count : s.queue.nmemb ≡ n
  pub head_at : s.queue.p_head ≡ b
  pub held : contents s ≡ map (bytes 8) ptrs

-- A write to the pointer variable at `p`.
abbrev pub with_pointer : ℕ → ℕ → Shared → Shared
with_pointer p v s = record s { memory = store_pointer p v s.memory }

cons_injective {ℓ} :
    {A : Type ℓ} (x y : A) (xs ys : List A) → (x ∷ xs) ≡ (y ∷ ys) → (x ≡ y) × (xs ≡ ys)
cons_injective x y xs ys e = (cc e, cc e)

module _ (b n : ℕ) (s : Shared) (ptrs : List ℕ) (h : Keeps b n s ptrs) where
  pub avail_lem : s.queue.avail ≡ length ptrs
  avail_lem =
      sym (length-window s.queue s.memory _ s.queue.avail)
      ∙ ap length h.held
      ∙ length-map (bytes 8) ptrs

  pub full_lem : length ptrs ≡ n → queue_is_full_locked s.queue ≡ true
  unfolding queue_is_full_locked
  full_lem e = ==_true s.queue.nmemb s.queue.avail (h.count ∙ sym e ∙ sym avail_lem)

  pub room_lem : length ptrs < n → queue_is_full_locked s.queue ≡ false
  unfolding queue_is_full_locked
  room_lem e =
      ==_false s.queue.nmemb s.queue.avail (λ same. omega (arith, same, e, h.count, avail_lem))

  module _ (p : ℕ) (outside : Disjoint p 8 b (n * 8)) where
    contents-with_pointer : (v : ℕ) → contents (with_pointer p v s) ≡ contents s
    contents-with_pointer v =
        window_agree s.queue (store_pointer p v s.memory) s.memory _ s.queue.avail
          (λ a low high. store_pointer_outside p v a s.memory (apart a low high)) h.valid.read_in
      where
        apart :
            (a : ℕ)
            → s.queue.p_head ≤ a
            → a < s.queue.p_head + s.queue.nmemb * s.queue.size
            → (a < p) ⊎ (p + 8 ≤ a)
        apart a low high =
            let bytes_of_buffer : s.queue.nmemb * s.queue.size ≡ n * 8 = ap₂ ◌*◌ h.count h.sized in
            elim outside [
              | inl before ↦ inr (omega (arith, low, before, h.head_at))
              | inr behind ↦ inl (omega (arith, high, behind, bytes_of_buffer, h.head_at))
            ]

    pub Keeps-with_pointer : (v : ℕ) → Keeps b n (with_pointer p v s) ptrs
    Keeps-with_pointer v = record {
      valid = h.valid;
      sized = h.sized;
      count = h.count;
      head_at = h.head_at;
      held = contents-with_pointer v ∙ h.held;
    }

  -- The variable at `p` is put behind the others.
  pub Keeps-put :
      (p v : ℕ)
      → length ptrs < n
      → read_bytes s.memory p 8 ≡ bytes 8 v
      → Keeps b n (queue_put p s) (ptrs ++ (v ∷ []))
  unfolding queue_put
  Keeps-put p v room stored =
      let below : s.queue.avail < s.queue.nmemb = omega (arith, room, h.count, avail_lem) in
      record {
        valid = queue_put-IsValid s p h.valid below;
        sized = h.sized;
        count = h.count;
        head_at = h.head_at;
        held =
            queue_put_lem s p h.valid below
            ∙ ap₂ (λ ms m. ms ++ (m ∷ [])) h.held (ap (read_bytes s.memory p) h.sized ∙ stored)
            ∙ sym (map-append (bytes 8) ptrs (v ∷ []));
      }

-- The first pointer is taken into the variable at `p`.
pub Keeps-take :
    (b n : ℕ) (s : Shared) (v : ℕ) (rest : List ℕ) (p : ℕ)
    → Keeps b n s (v ∷ rest)
    → Disjoint p 8 b (n * 8)
    → v < 256 ^ 8
    → Keeps b n (queue_take p s) rest × (load_pointer p (queue_take p s).memory ≡ v)
unfolding queue_take
Keeps-take b n s v rest p h outside small =
    let held = avail_lem b n s (v ∷ rest) h in
    let some_left : 0 < s.queue.avail = omega (arith, held) in
    let apart : Disjoint p s.queue.size s.queue.p_head (s.queue.nmemb * s.queue.size) =
      rw (h.sized, h.count, h.head_at) outside in
    let taken = queue_take_lem s p h.valid some_left apart in
    let (first, others) = cons_injective _ _ _ _ (sym taken ∙ h.held) in
    (
      record {
        valid = queue_take-IsValid s p h.valid some_left;
        sized = h.sized;
        count = h.count;
        head_at = h.head_at;
        held = others;
      },
      ap (λ k. word (read_bytes (queue_take p s).memory p k)) (sym h.sized)
          ∙ ap word first
          ∙ word-bytes 8 v small,
    )

-- No message is left exactly where no pointer is kept.
pub empty_lem : (b n : ℕ) (s : Shared) → Keeps b n s [] → queue_is_empty_locked s.queue ≡ true
unfolding queue_is_empty_locked
empty_lem b n s h = ==_true s.queue.avail 0 (avail_lem b n s [] h)

pub more_lem :
    (b n : ℕ) (s : Shared) (v : ℕ) (rest : List ℕ)
    → Keeps b n s (v ∷ rest)
    → queue_is_empty_locked s.queue ≡ false
unfolding queue_is_empty_locked
more_lem b n s v rest h =
    ==_false s.queue.avail 0 (λ e. omega (arith, e, avail_lem b n s (v ∷ rest) h))

-- What the two tests say of the pointers that are kept.
pub room_left :
    (b n : ℕ) (s : Shared) (ptrs : List ℕ)
    → Keeps b n s ptrs
    → queue_is_full_locked s.queue ≡ false
    → length ptrs < n
room_left b n s ptrs h e =
    let at_most : length ptrs ≤ n =
      omega (arith, h.valid.avail_in, avail_lem b n s ptrs h, h.count) in
    let other : length ptrs ≢ n = λ same. cc (full_lem b n s ptrs h same) in
    omega (arith, at_most, other)
