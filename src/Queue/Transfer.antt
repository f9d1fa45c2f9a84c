-- ===== src/Queue/Transfer.antt =====
-- queue_send, queue_recv and queue_empty_wait, with the loops that wait on a condition.
use ohmylib.Prelude.{ℕ, ◌+◌, ◌-◌, ◌%◌, ◌^◌, Bool, true, not, ◌&&◌, Option, none, some}
use ohmylib.Prelude.{List, [], ◌∷◌, ◌++◌, ◌==◌, if◌then◌else◌, memcpy}
use ohmylib.Prelude.Int.{ℤ, pos}
use ohmylib.Queue.State.{Queue, Shared, Reply, returns, fails, einval, enospc, eagain}
use ohmylib.Queue.State.{queue_is_empty_locked, queue_is_full_locked}
use ohmylib.Queue.Deadline.{Timespec, deadline}

pub data Condition : Type 0 where
  cond_write cond_read cond_empty : Condition

-- The calls of pthread functions that a function makes, in order.
pub data Sync : Type 0 where
  lock unlock : Sync
  timedwait : Condition → Timespec → Sync
  broadcast : Condition → Sync

-- One return of pthread_cond_timedwait: its result, and the state that the other threads left.
pub record Wake : Type 0 where
  pub shared : Shared
  pub ret : ℕ

pub record Waited : Type 0 where
  pub sync : List Sync
  pub shared : Shared
  pub finished : Bool

-- `while(busy(q) && ret == 0) ret = pthread_cond_timedwait(&cond, &q->lock, &ts);`
-- over the returns of the call. Where these run out the thread still waits.
unfoldable pub wait_loop : (Queue → Bool) → Condition → Timespec → List Wake → Shared → ℕ → Waited
wait_loop busy c ts [] s ret = record {
  sync = [];
  shared = s;
  finished = not (busy s.queue && ret == 0);
}
wait_loop busy c ts (w ∷ ws) s ret =
    let rest = wait_loop busy c ts ws w.shared w.ret in
    if busy s.queue && ret == 0
    then record rest { sync = timedwait c ts ∷ rest.sync }
    else record { sync = []; shared = s; finished = true }

unfoldable pub queue_send_wait : Timespec → ℤ → List Wake → Shared → Waited
unfolding wait_loop
queue_send_wait now timeout ws s =
    wait_loop queue_is_full_locked cond_write (deadline now timeout) ws s 0

unfoldable pub queue_recv_wait : Timespec → ℤ → List Wake → Shared → Waited
unfolding wait_loop
queue_recv_wait now timeout ws s =
    wait_loop queue_is_empty_locked cond_read (deadline now timeout) ws s 0

-- `reply` is `none` while the call has not returned; the state is `none` where `q` is NULL.
pub record Outcome : Type 0 where
  pub reply : Option Reply
  pub shared : Option Shared
  pub sync : List Sync

-- The copy into the slot at `p_write` and the updates after it.
unfoldable pub queue_put : ℕ → Shared → Shared
queue_put p s =
    let q = s.queue in
    record {
      queue = record q {
        avail = (q.avail + 1) % 2 ^ 64;
        p_write = if q.p_write == q.p_tail then q.p_head else q.p_write + q.size;
      };
      memory = memcpy q.p_write p q.size s.memory;
    }

-- The copy out of the slot at `p_read` and the updates after it.
unfoldable pub queue_take : ℕ → Shared → Shared
queue_take p s =
    let q = s.queue in
    record {
      queue = record q {
        avail = (q.avail + 2 ^ 64 - 1) % 2 ^ 64;
        p_read = if q.p_read == q.p_tail then q.p_head else q.p_read + q.size;
      };
      memory = memcpy p q.p_read q.size s.memory;
    }

abbrev pub sent : ℕ → List Sync → Shared → Outcome
sent p before s = record {
  reply = some (returns (pos 0));
  shared = some (queue_put p s);
  sync = lock ∷ before ++ (broadcast cond_read ∷ unlock ∷ []);
}

abbrev pub received : ℕ → List Sync → Shared → Outcome
received p before s = record {
  reply = some (returns (pos 0));
  shared = some (queue_take p s);
  sync = lock ∷ before ++ (broadcast cond_write ∷ unlock ∷ []);
}

abbrev pub still_waiting : Waited → Outcome
still_waiting w = record { reply = none; shared = some w.shared; sync = lock ∷ w.sync }

abbrev pub send_waited : ℕ → Waited → Outcome
send_waited p w =
    if w.finished
    then if queue_is_full_locked w.shared.queue
      then record {
        reply = some (fails enospc);
        shared = some w.shared;
        sync = lock ∷ w.sync ++ (unlock ∷ []);
      }
      else sent p w.sync w.shared
    else still_waiting w

abbrev pub recv_waited : ℕ → Waited → Outcome
recv_waited p w =
    if w.finished
    then if queue_is_empty_locked w.shared.queue
      then record {
        reply = some (fails eagain);
        shared = some w.shared;
        sync = lock ∷ w.sync ++ (broadcast cond_empty ∷ unlock ∷ []);
      }
      else received p w.sync w.shared
    else still_waiting w

abbrev null_queue : Outcome
null_queue = record { reply = some (fails einval); shared = none; sync = [] }

-- `now` is what clock_gettime reads.
unfoldable pub queue_send : Timespec → List Wake → Option Shared → ℕ → ℤ → Outcome
queue_send now ws none p timeout = null_queue
queue_send now ws (some s) p timeout =
    if queue_is_full_locked s.queue
    then send_waited p (queue_send_wait now timeout ws s)
    else sent p [] s

unfoldable pub queue_recv : Timespec → List Wake → Option Shared → ℕ → ℤ → Outcome
queue_recv now ws none p timeout = null_queue
queue_recv now ws (some s) p timeout =
    if queue_is_empty_locked s.queue
    then recv_waited p (queue_recv_wait now timeout ws s)
    else received p [] s

abbrev pub empty_waited : Waited → Outcome
empty_waited w =
    if w.finished
    then record {
      reply = some (returns (if queue_is_empty_locked w.shared.queue then pos 0 else pos 1));
      shared = some w.shared;
      sync = w.sync ++ (unlock ∷ []);
    }
    else record { reply = none; shared = some w.shared; sync = w.sync }

-- It releases the lock, and does not take it.
unfoldable pub queue_empty_wait : Timespec → List Wake → Option Shared → ℤ → Outcome
queue_empty_wait now ws none timeout = null_queue
queue_empty_wait now ws (some s) timeout =
    empty_waited
      (wait_loop (λ q. not (queue_is_empty_locked q)) cond_empty (deadline now timeout) ws s 0)
