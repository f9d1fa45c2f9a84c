-- ===== src/Queue/Tests.antt =====
-- Runs of the queue at concrete inputs, and the theorems at inputs that meet their hypotheses.
use ohmylib.Prelude.{ℕ, ◌+◌, ◌-◌, ◌*◌, ◌%◌, ◌<◌, ◌≡◌, ◌≢◌, inl, inr, refl, arith}
use ohmylib.Prelude.{false, some, none, List, [], ◌∷◌, ◌++◌, if◌then◌else◌}
use ohmylib.Prelude.Int.{pos}
use ohmylib.Queue.State.{
  Queue, Shared, returns, fails, enospc, queue_is_full_locked, queue_is_empty_locked,
}
use ohmylib.Queue.Create.{created, queue_create, queue_create_static}
use ohmylib.Queue.Deadline.{Timespec, at_time, nanoseconds, carried, queue_ts_add, queue_ts_add_lem}
use ohmylib.Queue.Transfer.{
  Wake, queue_put, queue_take, wait_loop, queue_send_wait, queue_send, queue_recv, queue_empty_wait,
}
use ohmylib.Queue.Layout.{IsValid, slot}
use ohmylib.Queue.Contents.{contents}
use ohmylib.Queue.Waiting.{IsSeen, Receivable}
use ohmylib.Queue.Sending.{SendEnds, queue_send_lem}
use ohmylib.Queue.Receiving.{RecvEnds, queue_recv_lem}
use ohmylib.Queue.Progress.{sending, receiving, transfers_return, transfers_succeed}
use ohmylib.Queue.Locking.{Locks, holds_after, transfers-Locks, queue_empty_wait_unheld}
use ohmylib.Queue.History.{System, Step, Reach, IsOrdered, Reach-IsOrdered}
use ohmylib.Prelude.{Bool, Option, ℕ}
use ohmylib.Queue.Create.{queue_create, queue_create_static}
use ohmylib.Queue.Fresh.{IsFresh, queue_create-IsFresh, queue_create_static_overruns}

-- Three elements of two bytes at 100; the oldest message is in the last slot.
abbrev wrapped : Queue
wrapped = record {
  statically_allocated = false;
  nmemb = 3;
  size = 2;
  avail = 2;
  p_head = 100;
  p_tail = 104;
  p_write = 102;
  p_read = 104;
}

abbrev two_held : Shared
two_held = record { queue = wrapped; memory = λ a. a % 256 }

abbrev full : Shared
full = record { queue = record wrapped { avail = 3; p_write = 104 }; memory = λ a. a % 256 }

abbrev now : Timespec
now = at_time 7 999999999

wrapped-IsValid : IsValid wrapped
wrapped-IsValid = omega arith

full-IsValid : IsValid full.queue
full-IsValid = omega arith

contents-two_held : contents two_held ≡ (104 ∷ 105 ∷ []) ∷ (100 ∷ 101 ∷ []) ∷ []
contents-two_held = refl

contents-send :
    contents (queue_put 7 two_held) ≡ (104 ∷ 105 ∷ []) ∷ (100 ∷ 101 ∷ []) ∷ (7 ∷ 8 ∷ []) ∷ []
unfolding queue_put
contents-send = refl

late_by_one : queue_ts_add now (pos 1500) ≡ at_time 9 500000000
unfolding queue_ts_add
late_by_one = refl

send_times_out :
    (queue_send now (record { shared = full; ret = 110 } ∷ []) (some full) 7 (pos 5)).reply
    ≡ some (fails enospc)
unfolding queue_send queue_is_full_locked queue_send_wait
send_times_out = refl

queue_ts_add_example :
    (s' : ℕ) × (n' : ℕ) × (queue_ts_add (at_time 7 999999999) (pos 1500) ≡ at_time s' n')
    × (n' < 1000000000)
    × (nanoseconds s' n'
        ≡ nanoseconds 7 999999999 + 1500 * 1000000 + (if carried 999999999 1500 then 1 else 0))
queue_ts_add_example = queue_ts_add_lem 7 999999999 1500 (omega arith)

-- A send while the queue is full: a receiver has made room when the wait returns.
abbrev made_room : List Wake
made_room = record { shared = two_held; ret = 0 } ∷ []

queue_send_example :
    (t : Shared) × IsSeen full made_room t
    × IsValid t.queue
    × SendEnds 7 (queue_send now made_room (some full) 7 (pos 5)) t
queue_send_example = queue_send_lem now (pos 5) 7 made_room full (wrapped-IsValid, tt) full-IsValid

queue_recv_example :
    (t : Shared) × IsSeen two_held [] t
    × Receivable 7 t
    × RecvEnds 7 (queue_recv now [] (some two_held) 7 (pos 5)) t
queue_recv_example =
    queue_recv_lem now (pos 5) 7 [] two_held tt (wrapped-IsValid, inl (omega arith))

abbrev none_held : Shared
none_held = record full { queue = record wrapped { avail = 0; p_write = 104 } }

abbrev timed_out : List Wake
timed_out = record { shared = full; ret = 110 } ∷ []

-- A send to a full queue whose wait times out, a send to an empty queue, and a receive from a full
-- one, these two without a wait.
transfers_return_example :
    ((queue_send now timed_out (some full) 7 (pos 5)).reply ≢ none)
    × ((queue_send now [] (some none_held) 7 (pos 5)).reply ≢ none)
    × ((queue_recv now [] (some full) 7 (pos 5)).reply ≢ none)
transfers_return_example = (
  transfers_return sending now (pos 5) 7 timed_out full (inl (inl (omega arith))),
  transfers_return sending now (pos 5) 7 [] none_held (inr (omega arith)),
  transfers_return receiving now (pos 5) 7 [] full (inr (omega arith)),
)

transfers-Locks_example :
    Locks (queue_send now timed_out (some full) 7 (pos 5))
    × Locks (queue_recv now timed_out (some full) 7 (pos 5))
transfers-Locks_example = transfers-Locks now (pos 5) 7 timed_out full

-- A receiver has made room when the wait of a send returns; a send to an empty queue, and a receive
-- from a full one, do not wait.
transfers_succeed_example :
    (((queue_send now made_room (some full) 7 (pos 5)).reply ≡ some (returns (pos 0)))
      × ((queue_send now made_room (some full) 7 (pos 5)).shared ≡ some (queue_put 7 two_held)))
    × ((queue_send now [] (some none_held) 7 (pos 5)).reply ≡ some (returns (pos 0)))
    × (((queue_recv now [] (some full) 7 (pos 5)).reply ≡ some (returns (pos 0)))
        × ((queue_recv now [] (some full) 7 (pos 5)).shared ≡ some (queue_take 7 full)))
transfers_succeed_example = (
  transfers_succeed sending now (pos 5) 7 made_room full two_held refl,
  (transfers_succeed sending now (pos 5) 7 [] none_held none_held refl).0,
  transfers_succeed receiving now (pos 5) 7 [] full full refl,
)

empty_wait_replies : (queue_empty_wait now timed_out (some full) (pos 5)).reply ≢ none
unfolding queue_empty_wait wait_loop queue_is_empty_locked
empty_wait_replies = cc

queue_empty_wait_unheld_example :
    holds_after false (queue_empty_wait now timed_out (some full) (pos 5)).sync ≡ none
queue_empty_wait_unheld_example =
    queue_empty_wait_unheld now (pos 5) timed_out full empty_wait_replies

abbrev begun : System
begun = record { shared = two_held; sent = contents two_held; received = [] }

abbrev after_send : System
after_send = record {
  shared = queue_put 7 two_held;
  sent = contents two_held ++ ((7 ∷ 8 ∷ []) ∷ []);
  received = [];
}

begun_sends : Reach begun after_send
unfolding queue_send queue_is_full_locked
begun_sends = Reach.step Reach.here (Step.send now 7 (pos 0) (queue_put 7 two_held) refl refl)

Reach-IsOrdered_example : IsOrdered after_send
Reach-IsOrdered_example =
    Reach-IsOrdered {start = begun} (record { valid = wrapped-IsValid; order = refl }) begun_sends

queue_create-IsFresh_example :
    (q : Queue) × (queue_create (λ n. some 100) (some 8) 3 2 ≡ created 8 q)
    × (q.nmemb ≡ 3)
    × (q.size ≡ 2)
    × (q.p_head ≡ 100)
    × (q.statically_allocated ≡ false)
    × IsFresh 100 6 q
queue_create-IsFresh_example =
    queue_create-IsFresh (λ n. some 100) 8 100 3 2 (omega arith) (omega arith) (omega arith) refl

queue_create_static_overruns_example :
    (q : Queue) × (queue_create_static (some 8) 100 2 3 2 ≡ created 8 q)
    × IsFresh 100 6 q
    × (102 < slot q (q.nmemb - 1) + q.size)
queue_create_static_overruns_example =
    queue_create_static_overruns 8 100 2 3 2 (omega arith) (omega arith) (omega arith) (omega arith)

abbrev created_queue : Bool → Queue
created_queue static = record {
  statically_allocated = static;
  nmemb = 3;
  size = 2;
  avail = 0;
  p_head = 100;
  p_tail = 104;
  p_write = 100;
  p_read = 100;
}

abbrev calloc_100 : ℕ → Option ℕ
calloc_100 n = some 100
