-- ===== src/Examples/Multithreaded/System.antt =====
-- The turns of the threads of examples/queue_multithreaded/main.c, up to the call of
-- queue_empty_wait. A turn ends where a call on the queue returns or starts to wait; the mutex makes
-- it whole, which `RunLocks` says. queue_empty_wait releases a mutex that main does not hold, so
-- from its call on nothing is said. `p_main` and `p_reader` are the addresses of the variables `e`,
-- and `element_count` is the macro, which is 1024: main sends twice as many.
use ohmylib.Prelude.{ℕ, ◌*◌, ◌^◌, ◌<◌, ◌≡◌, ◌≢◌, ◌⊎◌, Bool, false, Option, none, some, [], Memory}
use ohmylib.Prelude.Int.{ℤ, pos}
use ohmylib.Queue.State.{queue_is_full_locked, queue_is_empty_locked}
use ohmylib.Queue.Create.{created, refused, queue_create_static}
use ohmylib.Queue.Deadline.{Timespec, deadline}
use ohmylib.Queue.Locking.{Locks}
use ohmylib.Queue.Transfer.{
  cond_write, cond_read, wait_loop, send_waited, recv_waited, queue_send, queue_recv,
}
use ohmylib.Examples.Vector.{Values}
use ohmylib.Examples.Multithreaded.State.{
  Reader, MainAt, Process, first, second, looping, in_queue_send, at_queue_empty_wait, returned,
  not_created, running, in_queue_recv, received,
}
use ohmylib.Examples.Multithreaded.Handlers.{
  calloced, after_send, after_recv, after_print, after_create,
}

-- The threads are created, in order, between the two loops that send.
abbrev pub CanSend : ℕ → Process → Type 0
CanSend element_count y =
    (y.i < element_count)
    ⊎ ((y.i < 2 * element_count)
        × (y.readers first ≢ not_created)
        × (y.readers second ≢ not_created))

abbrev pub CanCreate : ℕ → Reader → Process → Type 0
CanCreate element_count first y = (y.i ≡ element_count) × (y.readers first ≡ not_created)
CanCreate element_count second y =
    (y.i ≡ element_count) × (y.readers first ≢ not_created) × (y.readers second ≡ not_created)

-- A process that has returned has no threads. What its threads do from the call of queue_empty_wait
-- on is not described.
abbrev pub IsAlive : MainAt → Type 0
IsAlive looping = Unit
IsAlive (in_queue_send e ts) = Unit
IsAlive at_queue_empty_wait = ⊥
IsAlive (returned v) = ⊥

module _ (element_count : ℕ) (p_main : ℕ) (p_reader : Reader → ℕ) where
  -- A turn. calloc gives a block that is not in use, and a wait ends with any result.
  pub data Turn : Process → Process → Type 0 where
    send :
        {y : Process} (e : ℕ) (now : Timespec)
        → y.main ≡ looping
        → CanSend element_count y
        → e ≢ 0
        → e < 256 ^ 8
        → y.live e ≡ false
        → Turn y (
            after_send
              (calloced p_main e y)
              e
              (deadline now (pos 1000))
              (queue_send now [] (some ((calloced p_main e y).shared)) p_main (pos 1000)))
    send_wakes :
        {y : Process} (e : ℕ) (ts : Timespec) (ret : ℕ)
        → y.main ≡ in_queue_send e ts
        → Turn y (
            after_send y e ts
              (send_waited p_main (wait_loop queue_is_full_locked cond_write ts [] y.shared ret)))
    create :
        {y : Process} (k : Reader) (ret : ℤ)
        → y.main ≡ looping
        → CanCreate element_count k y
        → Turn y (after_create y k ret)
    reach_empty_wait :
        {y : Process}
        → y.main ≡ looping
        → y.i ≡ 2 * element_count
        → Turn y (record y { main = at_queue_empty_wait })
    recv :
        {y : Process} (k : Reader) (now : Timespec)
        → IsAlive y.main
        → y.readers k ≡ running
        → Turn y (
            after_recv y k
              (p_reader k)
              (deadline now (pos 100))
              (queue_recv now [] (some y.shared) (p_reader k) (pos 100)))
    recv_wakes :
        {y : Process} (k : Reader) (ts : Timespec) (ret : ℕ)
        → IsAlive y.main
        → y.readers k ≡ in_queue_recv ts
        → Turn y (
            after_recv y k (p_reader k) ts (
              recv_waited
                (p_reader k)
                (wait_loop queue_is_empty_locked cond_read ts [] y.shared ret)))
    print :
        {y : Process} (k : Reader) (e : ℕ)
        → IsAlive y.main
        → y.readers k ≡ received e
        → Turn y (after_print y k e)

  -- Any number of turns, in any order.
  pub data Runs (start : Process) : Process → Type 0 where
    here : Runs start start
    then_turn : {y z : Process} → Runs start y → Turn y z → Runs start z

  -- The call on the queue of a turn locks the mutex once, and holds it up to its end, or up to
  -- where it waits; in a turn behind a wait the lock is the one that the wait takes again.
  abbrev pub TurnLocks : {y z : Process} → Turn y z → Type 0
  TurnLocks {y} (send e now at can not_null small fresh) =
      Locks (queue_send now [] (some ((calloced p_main e y).shared)) p_main (pos 1000))
  TurnLocks {y} (send_wakes e ts ret at) =
      Locks (send_waited p_main (wait_loop queue_is_full_locked cond_write ts [] y.shared ret))
  TurnLocks (create k ret at can) = Unit
  TurnLocks (reach_empty_wait at end) = Unit
  TurnLocks {y} (recv k now alive at) =
      Locks (queue_recv now [] (some y.shared) (p_reader k) (pos 100))
  TurnLocks {y} (recv_wakes k ts ret alive at) =
      Locks
        (recv_waited (p_reader k) (wait_loop queue_is_empty_locked cond_read ts [] y.shared ret))
  TurnLocks (print k e alive at) = Unit

  abbrev pub RunLocks : {y z : Process} → Runs y z → Type 0
  RunLocks here = Unit
  RunLocks (then_turn r t) = RunLocks r × TurnLocks t

-- main before its first loop, over the buffer at `elements`; `none` where it has no queue.
unfoldable pub starts : ℕ → Option ℕ → ℕ → Memory → Values → (ℕ → Bool) → Option Process
starts element_count block elements m vals live =
    elim (queue_create_static block elements (element_count * 8) element_count 8) [
      | refused e fs ↦ none
      | created q fields ↦ some (record {
        shared = record { queue = fields; memory = m };
        values = vals;
        live = live;
        i = 0;
        main = looping;
        readers = λ k. not_created;
        log = [];
      })
    ]
