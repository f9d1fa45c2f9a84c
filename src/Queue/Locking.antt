-- ===== src/Queue/Locking.antt =====
-- The mutex of the queue, as the calls of one thread use it.
use ohmylib.Prelude.{◌≡◌, refl, Bool, true, false, Option, some, none, List, [], ◌∷◌, ◌++◌, ◌∙◌}
use ohmylib.Prelude.{◌≢◌, ◌&&◌, ◌==◌, ℕ, Bool-cases, inl, inr, ap, sym, append-nil}
use ohmylib.Prelude.Int.{ℤ}
use ohmylib.Queue.State.{Queue, Shared, queue_is_empty_locked, queue_is_full_locked}
use ohmylib.Queue.Deadline.{Timespec, deadline}
use ohmylib.Queue.Transfer.{
  Sync, lock, unlock, timedwait, broadcast, Wake, Condition, cond_empty, cond_read, cond_write,
  Waited, Outcome, wait_loop, queue_send_wait, queue_recv_wait, queue_send, queue_recv,
  queue_empty_wait, send_waited, recv_waited, empty_waited, still_waiting,
}

-- The mutex as one thread uses it: whether it holds the lock after the calls, or `none` where it
-- takes a lock that it has, or waits on or releases one that it has not.
abbrev pub holds_after : Bool → List Sync → Option Bool
holds_after held [] = some held
holds_after false (lock ∷ t) = holds_after true t
holds_after true (lock ∷ t) = none
holds_after true (unlock ∷ t) = holds_after false t
holds_after false (unlock ∷ t) = none
holds_after true (timedwait c ts ∷ t) = holds_after true t
holds_after false (timedwait c ts ∷ t) = none
holds_after held (broadcast c ∷ t) = holds_after held t

-- A thread that is to lock the mutex once: before, while it holds it, and after it released it.
pub data Phase : Type 0 where
  before held after : Phase

-- The phase after the calls, or `none` where one is out of place: the mutex is taken only before,
-- and waited with, signalled under and released only while it is held.
abbrev pub phase_after : Phase → List Sync → Option Phase
phase_after p [] = some p
phase_after before (lock ∷ t) = phase_after held t
phase_after held (lock ∷ t) = none
phase_after after (lock ∷ t) = none
phase_after before (unlock ∷ t) = none
phase_after held (unlock ∷ t) = phase_after after t
phase_after after (unlock ∷ t) = none
phase_after before (timedwait c ts ∷ t) = none
phase_after held (timedwait c ts ∷ t) = phase_after held t
phase_after after (timedwait c ts ∷ t) = none
phase_after before (broadcast c ∷ t) = none
phase_after held (broadcast c ∷ t) = phase_after held t
phase_after after (broadcast c ∷ t) = none

-- The lock is free after a call that has returned, and in the waiting thread's hands before.
abbrev pub phase_at_end : Outcome → Phase
phase_at_end o = elim o.reply [ none ↦ held | some r ↦ after ]

module _ (busy : Queue → Bool) (c : Condition) (ts : Timespec) where
  pub wait_loop_holds :
      (ws : List Wake) (s : Shared) (ret : ℕ) (t : List Sync)
      → phase_after held ((wait_loop busy c ts ws s ret).sync ++ t) ≡ phase_after held t
  unfolding wait_loop
  wait_loop_holds [] s ret t = refl
  wait_loop_holds (w ∷ ws) s ret t = elim (Bool-cases (busy s.queue && ret == 0)) [
    | inl e ↦ rw e (wait_loop_holds ws w.shared w.ret t)
    | inr e ↦ rw e
  ]

  -- It begins by a wait, or makes no call.
  wait_loop_unheld :
      (ws : List Wake) (s : Shared) (ret : ℕ)
      → holds_after false ((wait_loop busy c ts ws s ret).sync ++ (unlock ∷ [])) ≡ none
  unfolding wait_loop
  wait_loop_unheld [] s ret = refl
  wait_loop_unheld (w ∷ ws) s ret = elim (Bool-cases (busy s.queue && ret == 0)) [
    | inl e ↦ rw e
    | inr e ↦ rw e
  ]

abbrev pub Keeps : Waited → Type 0
Keeps w = (t : List Sync) → phase_after held (w.sync ++ t) ≡ phase_after held t

abbrev pub Locks : Outcome → Type 0
Locks o = phase_after before o.sync ≡ some (phase_at_end o)

still_waiting-Locks : (w : Waited) → Keeps w → Locks (still_waiting w)
still_waiting-Locks w h = ap (phase_after held) (sym (append-nil w.sync)) ∙ h []

pub send_waited-Locks : (p : ℕ) (w : Waited) → Keeps w → Locks (send_waited p w)
send_waited-Locks p w h = elim (Bool-cases w.finished) [
  | inr e ↦ rw e (still_waiting-Locks w h)
  | inl e ↦ elim (Bool-cases (queue_is_full_locked w.shared.queue)) [
    | inl full ↦ rw (e, full) (h (unlock ∷ []))
    | inr room ↦ rw (e, room) (h (broadcast cond_read ∷ unlock ∷ []))
  ]
]

pub recv_waited-Locks : (p : ℕ) (w : Waited) → Keeps w → Locks (recv_waited p w)
recv_waited-Locks p w h = elim (Bool-cases w.finished) [
  | inr e ↦ rw e (still_waiting-Locks w h)
  | inl e ↦ elim (Bool-cases (queue_is_empty_locked w.shared.queue)) [
    | inl empty ↦ rw (e, empty) (h (broadcast cond_empty ∷ unlock ∷ []))
    | inr more ↦ rw (e, more) (h (broadcast cond_write ∷ unlock ∷ []))
  ]
]

module _ (now : Timespec) (timeout : ℤ) (p : ℕ) (ws : List Wake) (s : Shared) where
  pub queue_send-Locks : Locks (queue_send now ws (some s) p timeout)
  unfolding queue_send queue_send_wait
  queue_send-Locks = elim (Bool-cases (queue_is_full_locked s.queue)) [
    | inr room ↦ rw room
    | inl full ↦ rw full (send_waited-Locks p _ (wait_loop_holds _ _ _ ws s 0))
  ]

  pub queue_recv-Locks : Locks (queue_recv now ws (some s) p timeout)
  unfolding queue_recv queue_recv_wait
  queue_recv-Locks = elim (Bool-cases (queue_is_empty_locked s.queue)) [
    | inr more ↦ rw more
    | inl empty ↦ rw empty (recv_waited-Locks p _ (wait_loop_holds _ _ _ ws s 0))
  ]

  -- A call of queue_send or of queue_recv on a queue locks the mutex once, waits and signals
  -- only while it holds it, and has released it once when it returns, on every path and after
  -- any number of waits.
  pub transfers-Locks :
      Locks (queue_send now ws (some s) p timeout) × Locks (queue_recv now ws (some s) p timeout)
  transfers-Locks = (queue_send-Locks, queue_recv-Locks)

empty_waited_unheld :
    (w : Waited)
    → holds_after false (w.sync ++ (unlock ∷ [])) ≡ none
    → (empty_waited w).reply ≢ none
    → holds_after false (empty_waited w).sync ≡ none
empty_waited_unheld w h = elim (Bool-cases w.finished) [
  | inl e ↦ rw e (λ _. h)
  | inr e ↦ rw e (λ ne. absurd (ne refl))
]

-- Every call of queue_empty_wait on a queue that returns has released, or waited with, a mutex
-- that the calling thread does not hold.
pub queue_empty_wait_unheld :
    (now : Timespec) (timeout : ℤ) (ws : List Wake) (s : Shared)
    → (queue_empty_wait now ws (some s) timeout).reply ≢ none
    → holds_after false (queue_empty_wait now ws (some s) timeout).sync ≡ none
unfolding queue_empty_wait
queue_empty_wait_unheld now timeout ws s =
    empty_waited_unheld _ (wait_loop_unheld _ cond_empty (deadline now timeout) ws s 0)
