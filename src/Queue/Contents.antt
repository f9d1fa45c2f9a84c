-- ===== src/Queue/Contents.antt =====
-- The messages that a queue holds, oldest first, read from the slots of its buffer.
use ohmylib.Prelude.{ℕ, zero, suc, ◌+◌, ◌*◌, ◌%◌, ◌≤◌, ◌<◌, ◌≡◌, refl, ap, ap₂, arith}
use native.Mathlib.Nat.{mod-eq_of_lt, add-zero}
use ohmylib.Prelude.{
  ◌∙◌, List, [], ◌∷◌, ◌++◌, length, Memory, memcpy, read_bytes, read_bytes_ext, Disjoint,
}
use ohmylib.Prelude.{read_bytes-memcpy_self, read_bytes-memcpy-Disjoint}
use ohmylib.Queue.State.{Queue, Shared}
use ohmylib.Queue.Layout.{
  slot, index_of, next, slot-Disjoint, slot-le, slot-outside, mod_ne, shift_mod,
}

-- The bytes of one element.
abbrev pub Message : Type 0
Message = List ℕ

abbrev pub element : Queue → Memory → ℕ → Message
element q m i = read_bytes m (slot q i) q.size

-- The `n` elements from slot `i` on, going round at the end of the buffer.
abbrev pub window : Queue → Memory → ℕ → ℕ → List Message
window q m i zero = []
window q m i (suc n) = element q m i ∷ window q m (next q.nmemb i) n

abbrev pub contents : Shared → List Message
contents s = window s.queue s.memory (index_of s.queue s.queue.p_read) s.queue.avail

pub length-window : (q : Queue) (m : Memory) (i n : ℕ) → length (window q m i n) ≡ n
length-window q m i zero = refl
length-window q m i (suc n) = ap suc (length-window q m (next q.nmemb i) n)

pub window_ext :
    (q : Queue) (m m' : Memory) (i n : ℕ)
    → ((k : ℕ) → k < n → element q m ((i + k) % q.nmemb) ≡ element q m' ((i + k) % q.nmemb))
    → i < q.nmemb
    → window q m i n ≡ window q m' i n
window_ext q m m' i zero h lt = refl
window_ext q m m' i (suc n) h lt = ap₂ ◌∷◌ (rw head at (h 0 (omega arith))) (
    window_ext q m m' (next q.nmemb i) n
      (λ k below. rw (shift_mod q.nmemb i k) (h (suc k) (omega arith))) (omega arith))
  where
    head : (i + 0) % q.nmemb ≡ i
    head = rw add-zero (mod-eq_of_lt lt)

-- One more element at the end of a window.
pub window-suc :
    (q : Queue) (m : Memory) (i n : ℕ)
    → i < q.nmemb
    → window q m i (suc n) ≡ window q m i n ++ (element q m ((i + n) % q.nmemb) ∷ [])
window-suc q m i zero lt = rw (add-zero, mod-eq_of_lt lt)
window-suc q m i (suc n) lt =
    ap (λ ms. element q m i ∷ ms)
      (rw (← shift_mod q.nmemb i n) (window-suc q m (next q.nmemb i) n (omega arith)))

-- A message copied into the slot behind a window is its new last element.
pub window-memcpy_next :
    (q : Queue) (m : Memory) (i n p : ℕ)
    → i < q.nmemb
    → n < q.nmemb
    → window q (memcpy (slot q ((i + n) % q.nmemb)) p q.size m) i (suc n)
      ≡ window q m i n ++ (read_bytes m p q.size ∷ [])
window-memcpy_next q m i n p hi hn =
    window-suc q _ i n hi
    ∙ ap₂ (λ ms e. ms ++ (e ∷ []))
        (window_ext q _ m i n
          (λ k below.
            read_bytes-memcpy-Disjoint m _ p q.size _ q.size
              (slot-Disjoint q _ _ (mod_ne q.nmemb i k n hi hn below)))
          hi)
        (read_bytes-memcpy_self m (slot q ((i + n) % q.nmemb)) p q.size)

-- A copy to a block outside the buffer leaves every element as it was.
pub window-memcpy_outside :
    (q : Queue) (m : Memory) (i n p src : ℕ)
    → i < q.nmemb
    → Disjoint p q.size q.p_head (q.nmemb * q.size)
    → window q (memcpy p src q.size m) i n ≡ window q m i n
window-memcpy_outside q m i n p src hi d =
    window_ext q _ m i n
      (λ k below.
        read_bytes-memcpy-Disjoint m p _ q.size _ q.size
          (slot-outside q ((i + k) % q.nmemb) p d (omega arith)))
      hi

-- A window depends on the place and the shape of the buffer alone.
pub window_same :
    (q r : Queue) (m : Memory) (i n : ℕ)
    → q.p_head ≡ r.p_head
    → q.size ≡ r.size
    → q.nmemb ≡ r.nmemb
    → window q m i n ≡ window r m i n
window_same q r m i zero h s c = refl
window_same q r m i (suc n) h s c =
    ap₂ ◌∷◌ (ap₂ (λ p k. read_bytes m (p + i * k) k) h s)
      (window_same q r m (next q.nmemb i) n h s c ∙ ap (λ k. window r m (next k i) n) c)

-- A window reads nothing outside the buffer.
pub window_agree :
    (q : Queue) (m m' : Memory) (i n : ℕ)
    → ((a : ℕ) → q.p_head ≤ a → a < q.p_head + q.nmemb * q.size → m a ≡ m' a)
    → i < q.nmemb
    → window q m i n ≡ window q m' i n
window_agree q m m' i n h lt =
    window_ext q m m' i n
      (λ k below. read_bytes_ext m m' _ _ q.size (λ b inside.
        h _ (omega arith) (omega (arith, slot-le q ((i + k) % q.nmemb) q.nmemb (omega arith)))))
      lt
