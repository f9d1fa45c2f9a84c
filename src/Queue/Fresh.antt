-- ===== src/Queue/Fresh.antt =====
-- queue_create, queue_create_static and the status functions: what a new queue is, where its
-- buffer lies, and what the status functions report.
use ohmylib.Prelude.{◌∷◌, []}
use ohmylib.Prelude.{
  ℕ, zero, suc, ◌+◌, ◌-◌, ◌*◌, ◌/◌, ◌%◌, ◌^◌, ◌≤◌, ◌<◌, ◌≡◌, ◌≢◌, refl, arith, Option, some,
}
use native.Mathlib.Nat.{mod-eq_of_lt}
use ohmylib.Prelude.{ltb, Bool, false, ap₂, ==_false, ◌==◌, length, true, ◌∙◌, ap, if◌then◌else◌}
use ohmylib.Prelude.Int.{pos}
use ohmylib.Queue.State.{Queue, Shared, returns}
use ohmylib.Queue.Create.{
  queue_destroy, created, u32, u64, queue_setup, queue_create, queue_create_static,
}
use ohmylib.Queue.Status.{
  queue_is_empty, queue_is_full, queue_space_available, queue_space_available_locked,
}
use ohmylib.Queue.Layout.{index_of, slot, IsValid, slot-le}
use ohmylib.Queue.Contents.{contents, length-window}

-- A queue that is valid and empty, with all its elements in the block of `n` bytes at `p`.
pub record IsFresh (p n : ℕ) (q : Queue) : Type 0 where
  pub valid : IsValid q
  pub empty : q.avail ≡ 0
  pub inside : (i : ℕ) → i < q.nmemb → (p ≤ slot q i) × (slot q i + q.size ≤ p + n)

pred_mul : (n k : ℕ) → n ≢ 0 → (n - 1) * k + k ≡ n * k
pred_mul zero k h = absurd (h refl)
pred_mul (suc n) k h = let e : suc n - 1 ≡ n = omega arith in rw e (omega arith)

mul_lt : (a b n : ℕ) → a ≢ 0 → b ≢ 0 → a * b < n → (a < n) × (b < n)
mul_lt a b n ha hb h = (grind arith, grind arith)

abbrev fresh : Bool → ℕ → ℕ → ℕ → Queue
fresh static nmemb size p = record {
  statically_allocated = static;
  nmemb = nmemb;
  size = size;
  avail = 0;
  p_head = p;
  p_tail = p + (nmemb - 1) * size;
  p_write = p;
  p_read = p;
}

module _ (static : Bool) (nmemb size p : ℕ) (hn : nmemb ≢ 0) (hs : size ≢ 0)
    (small : nmemb * size < 2 ^ 32) where
  index_zero : (p - p) / size ≡ 0
  index_zero = omega arith

  at_start : p ≡ p + ((p - p) / size + 0) % nmemb * size
  at_start = rw (index_zero, mod-eq_of_lt {n = 0} {m = nmemb} (omega arith)) (omega arith)

  fresh-IsFresh : IsFresh p (nmemb * size) (fresh static nmemb size p)
  fresh-IsFresh = record {
    valid = record {
      sized = omega arith;
      fits = (mul_lt nmemb size _ hn hs small).0;
      tail_at = refl;
      read_at = rw index_zero (omega arith);
      read_in = rw index_zero (omega arith);
      write_at = at_start;
      avail_in = omega arith;
    };
    empty = refl;
    inside = λ i h. (omega arith, slot-le (fresh static nmemb size p) i nmemb h);
  }

  -- No conversion to uint32_t and no product wraps.
  setup_lem :
      (block : ℕ)
      → queue_setup (some block) p (u32 nmemb) (u32 size) ≡ some (block, fresh false nmemb size p)
  unfolding queue_setup
  setup_lem block = ap made (ap₂ laid nmemb_fits size_fits ∙ tail_fits)
    where
      made : Queue → Option (ℕ × Queue)
      made q = some (block, q)

      laid : ℕ → ℕ → Queue
      laid n k = record (fresh false n k p) { p_tail = p + u32 (u32 (n + 2 ^ 32 - 1) * k) }

      nmemb_fits : u32 nmemb ≡ nmemb
      nmemb_fits = omega (arith, mul_lt nmemb size _ hn hs small)

      size_fits : u32 size ≡ size
      size_fits = omega (arith, mul_lt nmemb size _ hn hs small)

      before : u32 (nmemb + 2 ^ 32 - 1) ≡ nmemb - 1
      before = omega (arith, mul_lt nmemb size _ hn hs small)

      less : (nmemb - 1) * size < 2 ^ 32
      less = grind arith

      tail_fits : laid nmemb size ≡ fresh false nmemb size p
      tail_fits =
          ap (λ k. record (fresh false nmemb size p) { p_tail = p + k })
            (ap (λ k. u32 (k * size)) before ∙ mod-eq_of_lt less)

-- Where neither count nor size is 0, their product is below 2 ^ 32 and both allocations
-- succeed, queue_create yields a queue of that count and size over the allocated block that is
-- valid, is empty, has its head at the start of the block, is marked as allocated, and has
-- every element inside the block.
pub queue_create-IsFresh :
    (calloc : ℕ → Option ℕ) (block p nmemb size : ℕ)
    → nmemb ≢ 0
    → size ≢ 0
    → nmemb * size < 2 ^ 32
    → calloc (nmemb * size) ≡ some p
    → (q : Queue) × (queue_create calloc (some block) nmemb size ≡ created block q)
      × (q.nmemb ≡ nmemb)
      × (q.size ≡ size)
      × (q.p_head ≡ p)
      × (q.statically_allocated ≡ false)
      × IsFresh p (nmemb * size) q
queue_create-IsFresh calloc block p nmemb size hn hs small got = (
  fresh false nmemb size p,
  makes,
  refl,
  refl,
  refl,
  refl,
  fresh-IsFresh false nmemb size p hn hs small,
)
  where
    asked : calloc (u64 (nmemb * size)) ≡ some p
    asked = ap calloc (omega arith) ∙ got

    makes : queue_create calloc (some block) nmemb size ≡ created block (fresh false nmemb size p)
    makes =
        unfold queue_create in
        rw (
          ==_false nmemb 0 hn,
          ==_false size 0 hs,
          asked,
          setup_lem false nmemb size p hn hs small block,
        )

-- On a valid queue of fewer than 2 ^ 31 elements, queue_is_empty returns 1 exactly where no
-- message is held, queue_is_full returns 1 exactly where as many are held as the queue has
-- elements, both return 0 elsewhere, and queue_space_available returns the number of elements
-- less that of the messages held.
pub status_lem :
    (s : Shared)
    → IsValid s.queue
    → s.queue.nmemb < 2 ^ 31
    → (queue_is_empty (some s.queue) ≡ returns (if length (contents s) == 0 then pos 1 else pos 0))
      × (queue_is_full (some s.queue)
          ≡ returns (if length (contents s) == s.queue.nmemb then pos 1 else pos 0))
      × (queue_space_available (some s.queue) ≡ returns (pos (s.queue.nmemb - length (contents s))))
unfolding queue_is_empty queue_is_full queue_space_available queue_space_available_locked
status_lem s v small =
    let held = length-window s.queue s.memory (index_of s.queue s.queue.p_read) s.queue.avail in
    (rw held (ground arith), rw held (ground arith), rw held (ground arith))

-- queue_create_static over a buffer that is not longer than the elements.
module _ (block p count nmemb size : ℕ) (hn : nmemb ≢ 0) (hs : size ≢ 0)
    (small : nmemb * size < 2 ^ 32) (at_most : count ≤ nmemb * size) where
  pub queue_create_static-IsFresh :
      (q : Queue) × (queue_create_static (some block) p count nmemb size ≡ created block q)
      × (q.nmemb ≡ nmemb)
      × (q.size ≡ size)
      × (q.p_head ≡ p)
      × (q.statically_allocated ≡ true)
      × IsFresh p (nmemb * size) q
  queue_create_static-IsFresh = (
    fresh true nmemb size p,
    makes,
    refl,
    refl,
    refl,
    refl,
    fresh-IsFresh true nmemb size p hn hs small,
  )
    where
      asked : u64 (nmemb * size) ≡ nmemb * size
      asked = omega arith

      guard : ltb (nmemb * size) count ≡ false
      guard = ground arith

      makes :
          queue_create_static (some block) p count nmemb size
          ≡ created block (fresh true nmemb size p)
      makes =
          unfold queue_create_static in
          rw (
            ==_false nmemb 0 hn,
            ==_false size 0 hs,
            asked,
            guard,
            setup_lem false nmemb size p hn hs small block,
          )

-- Where neither count nor size is 0, their product is below 2 ^ 32, the struct is allocated
-- and the given buffer is shorter than the product, queue_create_static succeeds with a queue
-- that is valid and empty, and whose last element ends behind the buffer.
pub queue_create_static_overruns :
    (block p count nmemb size : ℕ)
    → nmemb ≢ 0
    → size ≢ 0
    → nmemb * size < 2 ^ 32
    → count < nmemb * size
    → (q : Queue) × (queue_create_static (some block) p count nmemb size ≡ created block q)
      × IsFresh p (nmemb * size) q
      × (p + count < slot q (q.nmemb - 1) + q.size)
queue_create_static_overruns block p count nmemb size hn hs small short =
    let (q, makes, counted, sized, head, static, is_fresh) =
      queue_create_static-IsFresh block p count nmemb size hn hs small (omega arith) in
    (q, makes, is_fresh, past_end q counted sized head)
  where
    past_end :
        (q : Queue)
        → q.nmemb ≡ nmemb
        → q.size ≡ size
        → q.p_head ≡ p
        → p + count < slot q (q.nmemb - 1) + q.size
    past_end q counted sized head =
        rw (counted, sized, head) (omega (arith, pred_mul nmemb size hn))

-- Of a queue as queue_create returned it, queue_destroy frees the buffer that calloc gave and
-- then the struct; of one as queue_create_static returned it, it frees the struct alone.
pub queue_destroy_lem :
    (calloc : ℕ → Option ℕ) (block p count nmemb size : ℕ) (q static_q : Queue)
    → queue_create calloc (some block) nmemb size ≡ created block q
    → queue_create_static (some block) p count nmemb size ≡ created block static_q
    → (some q.p_head ≡ calloc (u64 (nmemb * size)))
      × (queue_destroy (some (block, q)) ≡ q.p_head ∷ block ∷ [])
      × (queue_destroy (some (block, static_q)) ≡ block ∷ [])
unfolding queue_create queue_create_static queue_setup queue_destroy
queue_destroy_lem calloc block p count nmemb size q static_q h hs =
    (ground arith, ground arith, ground arith)
