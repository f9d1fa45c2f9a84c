-- ===== src/Examples/Multithreaded/Program.antt =====
-- The program from its start to its end.
use ohmylib.Prelude.{
  ℕ, ◌*◌, ◌^◌, ◌≤◌, ◌<◌, ◌≡◌, ◌≢◌, ◌⊎◌, refl, ap, arith, Bool, inl, inr, some, List, [], ◌++◌,
  if◌then◌else◌, Memory, take,
}
use mathlib.Core.List.{map}
use mathlib.Core.Path.{subst}
use ohmylib.Prelude.Words.{bytes}
use ohmylib.Queue.Contents.{contents, window}
use ohmylib.Queue.Layout.{index_of}
use ohmylib.Queue.Fresh.{queue_create_static-IsFresh}
use ohmylib.Examples.Vector.{Values}
use ohmylib.Examples.Multithreaded.State.{
  Reader, MainAt, looping, in_queue_send, at_queue_empty_wait, returned, not_created, Process,
}
use ohmylib.Examples.Multithreaded.System.{Runs, RunLocks, starts}
use ohmylib.Examples.Multithreaded.Delivery.{
  AtMain, collect, pushed_in, attempted_in, got_in, in_hand, taken_by, indices, numbers, held,
}
use ohmylib.Examples.Multithreaded.Sends.{Delivered}
use ohmylib.Examples.Multithreaded.Turns.{ArePlaced, Runs-Delivered, Runs-RunLocks}
use ohmylib.Examples.Multithreaded.Prefill.{Fills, first_pushed}

-- main's queue at the start is empty, and nothing was printed.
starts_well :
    (n block b p_main : ℕ) (m : Memory) (vals : Values) (live : ℕ → Bool) (s : Process)
    → n ≢ 0
    → n * 8 < 2 ^ 32
    → starts n (some block) b m vals live ≡ some s
    → Delivered n b p_main s × Fills n s
unfolding starts
starts_well n block b p_main m vals live s some_elements small made =
    let (q, makes, count, sized, head, static, fresh) =
      queue_create_static-IsFresh block b (n * 8) n 8 some_elements (omega arith) small
        (omega arith) in
    let s0 : Process = record {
      shared = record { queue = q; memory = m };
      values = vals;
      live = live;
      i = 0;
      main = looping;
      readers = λ k. not_created;
      log = [];
    } in
    let given : some s0 ≡ some s = rw (makes, starts) at made in
    let same : s0 ≡ s = cc given in
    let empty : contents s0.shared ≡ [] =
      ap (λ k. window q m (index_of q q.p_read) k) fresh.empty in
    let fills : Fills n s0 = record {
      below = omega arith;
      loops = refl;
      none_created = λ k. refl;
      all_pushed = refl;
    } in
    let delivers : Delivered n b p_main s0 = (
      [],
      [],
      record {
        keeps = record {
          valid = fresh.valid;
          sized = sized;
          count = count;
          head_at = head;
          held = empty;
        };
        order = refl;
        owned = λ k. refl;
        attempts = refl;
        small = tt;
        apart = λ x. omega arith;
        at_main = tt;
      },
    ) in
    subst (λ t. Delivered n b p_main t × Fills n t) same (delivers, fills)

-- Behind its loops main has tried all indices.
ends :
    (n : ℕ) (l : MainAt) (vals : Values) (m : Memory) (i p : ℕ) (ptrs : List ℕ)
    → AtMain n l vals m i p ptrs
    → (l ≢ at_queue_empty_wait) ⊎ (i ≡ 2 * n)
ends n looping vals m i p ptrs at = inl (λ e. cc e)
ends n (in_queue_send e ts) vals m i p ptrs at = inl (λ e. cc e)
ends n at_queue_empty_wait vals m i p ptrs at = inr at
ends n (returned v) vals m i p ptrs at = inl (λ e. cc e)

-- Of fewer than 2 ^ 29 elements, but one at least, with the variables outside the buffer, up
-- to the call of queue_empty_wait and whatever the order of the turns before it: each call on
-- the queue locks the mutex once and holds it up to its end or its next wait; main has tried
-- the indices from 0 on, each once; the indices that it pushed are, in their order, those that
-- readers took and then those of the queue; each reader has printed what it took, in this
-- order, but for one index that it may have in its hand; no push fails before as many were
-- made as there are elements; if main has come to that call, it has tried twice as many
-- indices as there are elements; and a struct that is to be sent, in the queue or in a hand is
-- in one of these places only, and is not freed.
pub deliveries :
    (n block b p_main : ℕ) (p_reader : Reader → ℕ) (m : Memory) (vals : Values) (live : ℕ → Bool)
    (start y : Process)
    → n ≢ 0
    → n * 8 < 2 ^ 32
    → starts n (some block) b m vals live ≡ some start
    → ArePlaced n b p_main p_reader
    → (runs : Runs n p_main p_reader start y)
    → RunLocks n p_main p_reader runs
      × ((ptrs : List ℕ) × (taken : List (Reader × ℕ)) × (contents y.shared ≡ map (bytes 8) ptrs)
          × (collect attempted_in y.log ≡ numbers y.i)
          × (collect pushed_in y.log ≡ indices taken ++ map y.values ptrs)
          × ((k : Reader) → taken_by k taken ≡ collect (got_in k) y.log ++ in_hand k y)
          × (take n (collect pushed_in y.log) ≡ take n (collect attempted_in y.log))
          × ((y.main ≢ at_queue_empty_wait) ⊎ (y.i ≡ 2 * n))
          × ((x : ℕ) → held x y.main y.readers ptrs ≤ (if y.live x then 1 else 0)))
deliveries n block b p_main p_reader m vals live start y some_elements small made placed runs =
    let (at_start, fills) =
      starts_well n block b p_main m vals live start some_elements small made in
    let (ptrs, taken, d) = Runs-Delivered n b p_main p_reader placed runs at_start in
    let behind = ends n y.main y.values y.shared.memory y.i p_main ptrs d.at_main in
    let filled = first_pushed n b p_main p_reader placed runs at_start fills in
    (
      Runs-RunLocks n p_main p_reader runs,
      (ptrs, taken, d.keeps.held, d.attempts, d.order, d.owned, filled, behind, d.apart),
    )
