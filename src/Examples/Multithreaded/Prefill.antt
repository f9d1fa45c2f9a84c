-- ===== src/Examples/Multithreaded/Prefill.antt =====
-- The sends before the threads are created: the queue has room for all of them.
use ohmylib.Prelude.{
  ℕ, zero, suc, ◌≤◌, ◌<◌, ◌≡◌, ◌⊎◌, refl, sym, ap, ◌∙◌, arith, false, inl, inr, some, List, [], ◌∷◌,
  ◌++◌, take, length, length-append, length-map,
}
use mathlib.Core.List.{map}
use native.Mathlib.Decide.{dec_lt}
use ohmylib.Prelude.Int.{ℤ, pos}
use ohmylib.Queue.State.{Shared, returns, queue_is_full_locked}
use ohmylib.Queue.Deadline.{Timespec, deadline}
use ohmylib.Queue.Transfer.{Outcome, queue_send}
use ohmylib.Examples.Queue.Keeping.{room_lem}
use ohmylib.Examples.Multithreaded.State.{
  Reader, first, second, pushed, looping, not_created, Process,
}
use ohmylib.Examples.Multithreaded.Handlers.{calloced, after_send}
use ohmylib.Examples.Multithreaded.System.{
  Turn, send, send_wakes, create, reach_empty_wait, recv, recv_wakes, print, Runs, here, then_turn,
}
use ohmylib.Examples.Multithreaded.Delivery.{
  Delivers, collect, pushed_in, attempted_in, collect-append, collect_one, indices, numbers,
}
use ohmylib.Examples.Multithreaded.Sends.{Delivered}
use ohmylib.Examples.Multithreaded.Growth.{Grows, Turn-Grows}
use ohmylib.Examples.Multithreaded.Turns.{ArePlaced, Runs-Delivered}

take-append : (n : ℕ) (xs ys : List ℕ) → n ≤ length xs → take n (xs ++ ys) ≡ take n xs
take-append zero xs ys h = refl
take-append (suc n) [] ys h = absurd (omega arith)
take-append (suc n) (x ∷ xs) ys h = ap (λ zs. x ∷ zs) (take-append n xs ys (omega arith))

-- The first loop: no thread is created, and every index was pushed.
pub record Fills (n : ℕ) (y : Process) : Type 0 where
  pub below : y.i < n
  pub loops : y.main ≡ looping
  pub none_created : (k : Reader) → y.readers k ≡ not_created
  pub all_pushed : collect pushed_in y.log ≡ collect attempted_in y.log

-- Behind it, the first `n` indices are settled.
record IsFilled (n : ℕ) (y : Process) : Type 0 where
  pushed_enough : n ≤ length (collect pushed_in y.log)
  attempted_enough : n ≤ length (collect attempted_in y.log)
  agree : take n (collect pushed_in y.log) ≡ take n (collect attempted_in y.log)

Grows-IsFilled : (n : ℕ) (y z : Process) → Grows y z → IsFilled n y → IsFilled n z
Grows-IsFilled n y z (es, grown) f =
    let pushed_more = ap (collect pushed_in) grown ∙ collect-append pushed_in y.log es in
    let attempted_more = ap (collect attempted_in) grown ∙ collect-append attempted_in y.log es in
    record {
      pushed_enough = rw (pushed_more, length-append) (omega (arith, f.pushed_enough));
      attempted_enough = rw (attempted_more, length-append) (omega (arith, f.attempted_enough));
      agree =
          ap (take n) pushed_more
          ∙ take-append n (collect pushed_in y.log) (collect pushed_in es) f.pushed_enough
          ∙ f.agree
          ∙ sym (
              ap (take n) attempted_more
              ∙ take-append n (collect attempted_in y.log) (collect attempted_in es)
                  f.attempted_enough);
    }

length-numbers : (n : ℕ) → length (numbers n) ≡ n
length-numbers zero = refl
length-numbers (suc n) = omega (arith, length-append (numbers n) (n ∷ []), length-numbers n)

-- In the first loop fewer pointers are in the queue than there are elements.
Fills-room :
    (n b p_main : ℕ) (y : Process) (ptrs : List ℕ) (taken : List (Reader × ℕ))
    → Fills n y
    → Delivers n b p_main y ptrs taken
    → length ptrs < n
Fills-room n b p_main y ptrs taken f d =
    let counted : length (indices taken ++ map y.values ptrs) ≡ y.i =
      ap length (sym d.order ∙ f.all_pushed ∙ d.attempts) ∙ length-numbers y.i in
    omega (
      arith,
      counted,
      length-append (indices taken) (map y.values ptrs),
      length-map y.values ptrs,
      f.below,
    )

send_replies :
    (s : Shared) (p : ℕ) (now : Timespec) (timeout : ℤ)
    → queue_is_full_locked s.queue ≡ false
    → (queue_send now [] (some s) p timeout).reply ≡ some (returns (pos 0))
unfolding queue_send
send_replies s p now timeout room = rw room refl

-- A send of the first loop pushes its index.
push :
    (n : ℕ) (y : Process) (e : ℕ) (ts : Timespec) (o : Outcome)
    → Fills n y
    → length (collect attempted_in y.log) ≡ y.i
    → o.reply ≡ some (returns (pos 0))
    → Fills n (after_send y e ts o) ⊎ IsFilled n (after_send y e ts o)
unfolding after_send
push n y e ts o f counted replied =
    let pushes = collect_one pushed_in y.log (pushed y.i) in
    let attempts = collect_one attempted_in y.log (pushed y.i) in
    let same = pushes ∙ ap (λ is. is ++ (y.i ∷ [])) f.all_pushed ∙ sym attempts in
    let long : length (collect attempted_in (y.log ++ (pushed y.i ∷ []))) ≡ suc y.i =
      ap length attempts
      ∙ length-append (collect attempted_in y.log) (y.i ∷ [])
      ∙ omega (arith, counted) in
    elim (dec_lt (suc y.i) n) [
      | yes lt ↦ rw replied (
          inl
            (record { below = lt; loops = refl; none_created = f.none_created; all_pushed = same }))
      | no ge ↦ rw replied (
          inr (record {
            pushed_enough = omega (arith, ge, long, ap length same);
            attempted_enough = omega (arith, ge, long);
            agree = ap (take n) same;
          }))
    ]

module _ (n b p_main : ℕ) (p_reader : Reader → ℕ) where
  abbrev Prefilled : Process → Type 0
  Prefilled y = Fills n y ⊎ IsFilled n y

  Turn-Prefilled :
      {y z : Process}
      → Turn n p_main p_reader y z
      → Delivered n b p_main y
      → Prefilled y
      → Prefilled z
  unfolding calloced
  Turn-Prefilled {y} {z} t d (inr f) = inr (Grows-IsFilled n y z (Turn-Grows n p_main p_reader t) f)
  Turn-Prefilled {y} (send e now at can not_null small fresh) (ptrs, taken, d) (inl f) =
      let z = calloced p_main e y in
      let fills : Fills n z = record {
        below = f.below;
        loops = f.loops;
        none_created = f.none_created;
        all_pushed = f.all_pushed;
      } in
      let counted = ap length d.attempts ∙ length-numbers y.i in
      let room = room_lem b n y.shared ptrs d.keeps (Fills-room n b p_main y ptrs taken f d) in
      push n z e (deadline now (pos 1000)) _ fills counted
        (send_replies z.shared p_main now (pos 1000) room)
  Turn-Prefilled {y} (send_wakes e ts ret at) d (inl f) = absurd (cc f.loops)
  Turn-Prefilled {y} (create first ret at can) d (inl f) = absurd (omega (arith, f.below, can.0))
  Turn-Prefilled {y} (create second ret at can) d (inl f) = absurd (omega (arith, f.below, can.0))
  Turn-Prefilled {y} (reach_empty_wait at end) d (inl f) = absurd (omega (arith, f.below, end))
  Turn-Prefilled {y} (recv k now alive at) d (inl f) = absurd (cc (f.none_created k))
  Turn-Prefilled {y} (recv_wakes k ts ret alive at) d (inl f) = absurd (cc (f.none_created k))
  Turn-Prefilled {y} (print k e alive at) d (inl f) = absurd (cc (f.none_created k))

  Runs-Prefilled :
      {x y : Process}
      → ArePlaced n b p_main p_reader
      → Runs n p_main p_reader x y
      → Delivered n b p_main x
      → Prefilled x
      → Prefilled y
  Runs-Prefilled placed here d f = f
  Runs-Prefilled placed (then_turn r t) d f =
      Turn-Prefilled t (Runs-Delivered n b p_main p_reader placed r d) (Runs-Prefilled placed r d f)

  -- None of the first pushes fails.
  pub first_pushed :
      {x y : Process}
      → ArePlaced n b p_main p_reader
      → Runs n p_main p_reader x y
      → Delivered n b p_main x
      → Fills n x
      → take n (collect pushed_in y.log) ≡ take n (collect attempted_in y.log)
  first_pushed placed runs d f = elim (Runs-Prefilled placed runs d (inl f)) [
    | inl g ↦ ap (take n) g.all_pushed
    | inr g ↦ g.agree
  ]
