-- ===== src/Examples/Multithreaded/Turns.antt =====
-- Every turn keeps what is delivered.
use ohmylib.Prelude.{ℕ, ◌*◌, ◌≡◌, refl, sym, ap, inl, inr, none, List, [], Disjoint, Bool-cases}
use mathlib.Core.Path.{subst}
use ohmylib.Prelude.Int.{ℤ, pos, negsuc}
use ohmylib.Network.{equals}
use ohmylib.Queue.Deadline.{deadline}
use ohmylib.Queue.State.{queue_is_full_locked, queue_is_empty_locked}
use ohmylib.Queue.Transfer.{cond_write, cond_read}
use ohmylib.Queue.Locking.{
  queue_send-Locks, queue_recv-Locks, send_waited-Locks, recv_waited-Locks, wait_loop_holds,
}
use ohmylib.Examples.Multithreaded.State.{
  Reader, first, second, MainAt, looping, in_queue_send, at_queue_empty_wait, returned, running,
  hand, Process,
}
use ohmylib.Examples.Multithreaded.Handlers.{calloced, after_create}
use ohmylib.Examples.Multithreaded.System.{
  Turn, send, send_wakes, create, reach_empty_wait, TurnLocks, RunLocks, recv, recv_wakes, print,
  Runs, here, then_turn, CanCreate,
}
use ohmylib.Examples.Multithreaded.Outcomes.{send_lem, send_wakes_lem, recv_lem, recv_wakes_lem}
use ohmylib.Examples.Multithreaded.Delivery.{Delivers, AtMain, to_send}
use ohmylib.Examples.Multithreaded.Sends.{Delivered, calloced-Delivers, after_send-Delivered}
use ohmylib.Examples.Multithreaded.Receives.{
  moves-Delivers, after_print-Delivers, after_recv-Delivered,
}

-- The variables `e` of the three threads lie outside the buffer, and those of the readers apart
-- from that of main.
pub record ArePlaced (n b p_main : ℕ) (p_reader : Reader → ℕ) : Type 0 where
  pub main_outside : Disjoint p_main 8 b (n * 8)
  pub outside : (k : Reader) → Disjoint (p_reader k) 8 b (n * 8)
  pub apart : (k : Reader) → Disjoint (p_reader k) 8 p_main 8

module _ (n b p_main : ℕ) where
  standing :
      (y : Process) (m : MainAt) (ptrs : List ℕ) (taken : List (Reader × ℕ))
      → y.main ≡ m
      → Delivers n b p_main y ptrs taken
      → Delivers n b p_main (record y { main = m }) ptrs taken
  standing y m ptrs taken e d =
      subst (λ l. Delivers n b p_main (record y { main = l }) ptrs taken) e d

  -- main goes from one place without a pointer to another.
  goes :
      (y : Process) (l m : MainAt) (ptrs : List ℕ) (taken : List (Reader × ℕ))
      → Delivers n b p_main (record y { main = l }) ptrs taken
      → to_send l ≡ to_send m
      → AtMain n m y.values y.shared.memory y.i p_main ptrs
      → Delivers n b p_main (record y { main = m }) ptrs taken
  goes y l m ptrs taken d same at = record {
    keeps = d.keeps;
    order = d.order;
    owned = d.owned;
    attempts = d.attempts;
    small = d.small;
    apart = λ x. rw (← same) (d.apart x);
    at_main = at;
  }

  -- A reader that was not created has nothing in its hand.
  idle : (y : Process) (k : Reader) → CanCreate n k y → hand (y.readers k) ≡ none
  idle y first can = ap hand can.1
  idle y second can = ap hand can.2

  after_create-Delivers :
      (y : Process) (k : Reader) (ret : ℤ) (ptrs : List ℕ) (taken : List (Reader × ℕ))
      → Delivers n b p_main (record y { main = looping }) ptrs taken
      → Delivers n b p_main y ptrs taken
      → CanCreate n k y
      → Delivers n b p_main (after_create y k ret) ptrs taken
  unfolding after_create
  after_create-Delivers y k ret ptrs taken loops d can = elim (Bool-cases (equals ret (pos 0))) [
    | inl e ↦ rw e (moves-Delivers n b p_main y k ptrs taken d running (sym (idle y k can)))
    | inr e ↦ rw e (goes y looping (returned (negsuc 0)) ptrs taken loops refl tt)
  ]

  module _ (p_reader : Reader → ℕ) (placed : ArePlaced n b p_main p_reader) where
    Turn-Delivered :
        {y z : Process}
        → Turn n p_main p_reader y z
        → Delivered n b p_main y
        → Delivered n b p_main z
    Turn-Delivered {y} (send e now at can not_null small fresh) (ptrs, taken, d) =
        let ts = deadline now (pos 1000) in
        after_send-Delivered n b p_main (calloced p_main e y) ptrs taken e ts ts _
          (calloced-Delivers n b p_main y ptrs taken e ts (standing y looping ptrs taken at d)
            placed.main_outside small fresh)
          (send_lem ((calloced p_main e y).shared) p_main now (pos 1000))
    Turn-Delivered {y} (send_wakes e ts ret at) (ptrs, taken, d) =
        after_send-Delivered n b p_main y ptrs taken e ts ts _
          (standing y (in_queue_send e ts) ptrs taken at d) (send_wakes_lem y.shared p_main ts ret)
    Turn-Delivered {y} (create k ret at can) (ptrs, taken, d) = (
      ptrs,
      taken,
      after_create-Delivers y k ret ptrs taken (standing y looping ptrs taken at d) d can,
    )
    Turn-Delivered {y} (reach_empty_wait at end) (ptrs, taken, d) =
        let loops = standing y looping ptrs taken at d in
        (ptrs, taken, goes y looping at_queue_empty_wait ptrs taken loops refl end)
    Turn-Delivered {y} (recv k now alive at) (ptrs, taken, d) =
        after_recv-Delivered n b p_main y k ptrs taken (p_reader k) (deadline now (pos 100)) _ d
          (placed.outside k) (placed.apart k) (ap hand at)
          (recv_lem y.shared (p_reader k) now (pos 100))
    Turn-Delivered {y} (recv_wakes k ts ret alive at) (ptrs, taken, d) =
        after_recv-Delivered n b p_main y k ptrs taken (p_reader k) ts _ d (placed.outside k)
          (placed.apart k) (ap hand at) (recv_wakes_lem y.shared (p_reader k) ts ret)
    Turn-Delivered {y} (print k e alive at) (ptrs, taken, d) =
        (ptrs, taken, after_print-Delivers n b p_main y k ptrs taken d e at)

    pub Runs-Delivered :
        {x y : Process}
        → Runs n p_main p_reader x y
        → Delivered n b p_main x
        → Delivered n b p_main y
    Runs-Delivered here at_start = at_start
    Runs-Delivered (then_turn r t) at_start = Turn-Delivered t (Runs-Delivered r at_start)

-- No other thread is in the queue during a turn: its call holds the mutex.
module _ (n p_main : ℕ) (p_reader : Reader → ℕ) where
  Turn-TurnLocks : {y z : Process} (t : Turn n p_main p_reader y z) → TurnLocks n p_main p_reader t
  Turn-TurnLocks {y} (send e now at can not_null small fresh) =
      queue_send-Locks now (pos 1000) p_main [] (calloced p_main e y).shared
  Turn-TurnLocks {y} (send_wakes e ts ret at) =
      send_waited-Locks p_main _
        (wait_loop_holds queue_is_full_locked cond_write ts [] y.shared ret)
  Turn-TurnLocks (create k ret at can) = tt
  Turn-TurnLocks (reach_empty_wait at end) = tt
  Turn-TurnLocks {y} (recv k now alive at) = queue_recv-Locks now (pos 100) (p_reader k) [] y.shared
  Turn-TurnLocks {y} (recv_wakes k ts ret alive at) =
      recv_waited-Locks (p_reader k) _
        (wait_loop_holds queue_is_empty_locked cond_read ts [] y.shared ret)
  Turn-TurnLocks (print k e alive at) = tt

  pub Runs-RunLocks :
      {x y : Process} (r : Runs n p_main p_reader x y) → RunLocks n p_main p_reader r
  Runs-RunLocks here = tt
  Runs-RunLocks (then_turn r t) = (Runs-RunLocks r, Turn-TurnLocks t)
