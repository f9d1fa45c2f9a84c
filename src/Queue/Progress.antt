-- ===== src/Queue/Progress.antt =====
-- When queue_send and queue_recv return, and when they succeed.
use ohmylib.Prelude.{
  ℕ, ◌≡◌, ◌≢◌, ◌⊎◌, inl, inr, refl, sym, ap, ◌∙◌, Bool, true, false, Bool-cases, ◌==◌, Option, none,
  some, List, [], ◌∷◌, if◌then◌else◌,
}
use ohmylib.Prelude.Int.{ℤ, pos}
use ohmylib.Queue.State.{Queue, Shared, returns, queue_is_empty_locked, queue_is_full_locked}
use ohmylib.Queue.Deadline.{Timespec, deadline}
use ohmylib.Queue.Transfer.{
  Condition, cond_read, cond_write, Wake, Outcome, wait_loop, queue_send_wait, queue_recv_wait,
  queue_send, queue_recv, queue_put, queue_take,
}
use ohmylib.Queue.Waiting.{EndsWaiting}
use ohmylib.Queue.Sending.{queue_send_returns}
use ohmylib.Queue.Receiving.{queue_recv_returns}

-- The first state with `busy` false of those that the thread finds, on entry and at each return
-- of the wait up to the first with a result other than 0. `ret` is the last result.
abbrev pub first_free : (Queue → Bool) → Shared → ℕ → List Wake → Option Shared
first_free busy s ret [] = if busy s.queue then none else some s
first_free busy s ret (w ∷ ws) =
    let rest = first_free busy w.shared w.ret ws in
    if busy s.queue then if ret == 0 then rest else none else some s

first_free_now :
    (busy : Queue → Bool) (s t : Shared) (ret : ℕ) (ws : List Wake)
    → busy s.queue ≡ false
    → first_free busy s ret ws ≡ some t
    → s ≡ t
first_free_now busy s t ret [] e h = cc (rw e at h)
first_free_now busy s t ret (w ∷ ws) e h = cc (rw e at h)

module _ (busy : Queue → Bool) (c : Condition) (ts : Timespec) where
  wait_loop-first_free :
      (ws : List Wake) (s t : Shared) (ret : ℕ)
      → first_free busy s ret ws ≡ some t
      → let w = wait_loop busy c ts ws s ret in
        (w.finished ≡ true) × (w.shared ≡ t) × (busy t.queue ≡ false)
  unfolding wait_loop
  wait_loop-first_free [] s t ret h = elim (Bool-cases (busy s.queue)) [
    | inl e ↦ absurd (cc (rw e at h))
    | inr e ↦
        let same : s ≡ t = cc (rw e at h) in
        (rw e refl, same, ap (λ u. busy u.queue) (sym same) ∙ e)
  ]
  wait_loop-first_free (w ∷ ws) s t ret h = elim (Bool-cases (busy s.queue)) [
    | inl e ↦ elim (Bool-cases (ret == 0)) [
      | inl f ↦ rw (e, f) (wait_loop-first_free ws w.shared t w.ret (rw (e, f) at h))
      | inr f ↦ absurd (cc (rw (e, f) at h))
    ]
    | inr e ↦
        let same : s ≡ t = cc (rw e at h) in
        rw e (refl, same, ap (λ u. busy u.queue) (sym same) ∙ e)
  ]

module _ (now : Timespec) (timeout : ℤ) (p : ℕ) (ws : List Wake) (s : Shared) where
  abbrev pub send_outcome : Outcome
  send_outcome = queue_send now ws (some s) p timeout

  abbrev pub recv_outcome : Outcome
  recv_outcome = queue_recv now ws (some s) p timeout

  pub send_free :
      (t : Shared)
      → first_free queue_is_full_locked s 0 ws ≡ some t
      → (send_outcome.reply ≡ some (returns (pos 0))) × (send_outcome.shared ≡ some (queue_put p t))
  unfolding queue_send queue_send_wait
  send_free t h =
      let (finished, same, room) =
        wait_loop-first_free queue_is_full_locked cond_write (deadline now timeout) ws s t 0 h in
      elim (Bool-cases (queue_is_full_locked s.queue)) [
        | inl e ↦ rw (e, finished, same, room) (refl, refl)
        | inr e ↦ rw e (
          refl,
          ap (λ u. some (queue_put p u)) (first_free_now queue_is_full_locked s t 0 ws e h),
        )
      ]

  pub recv_free :
      (t : Shared)
      → first_free queue_is_empty_locked s 0 ws ≡ some t
      → (recv_outcome.reply ≡ some (returns (pos 0)))
        × (recv_outcome.shared ≡ some (queue_take p t))
  unfolding queue_recv queue_recv_wait
  recv_free t h =
      let (finished, same, more) =
        wait_loop-first_free queue_is_empty_locked cond_read (deadline now timeout) ws s t 0 h in
      elim (Bool-cases (queue_is_empty_locked s.queue)) [
        | inl e ↦ rw (e, finished, same, more) (refl, refl)
        | inr e ↦ rw e (
          refl,
          ap (λ u. some (queue_take p u)) (first_free_now queue_is_empty_locked s t 0 ws e h),
        )
      ]

-- The two calls that transfer a message: the number of messages with which each has to wait, and
-- what it does to the queue.
pub data Transfer : Type 0 where
  sending receiving : Transfer

abbrev pub limit : Transfer → Queue → ℕ
limit sending q = q.nmemb
limit receiving q = 0

abbrev pub at_limit : Transfer → Queue → Bool
at_limit sending q = q.nmemb == q.avail
at_limit receiving q = q.avail == 0

abbrev pub outcome : Transfer → Timespec → List Wake → Shared → ℕ → ℤ → Outcome
outcome sending now ws s p timeout = queue_send now ws (some s) p timeout
outcome receiving now ws s p timeout = queue_recv now ws (some s) p timeout

abbrev pub transferred : Transfer → ℕ → Shared → Shared
transferred sending p s = queue_put p s
transferred receiving p s = queue_take p s

-- A call of queue_send or of queue_recv returns if one of the waits ends by a result other
-- than 0, as a timed-out one does; and it does without any wait if the queue is not full on
-- entry, for queue_send, or not empty, for queue_recv.
pub transfers_return :
    (d : Transfer) (now : Timespec) (timeout : ℤ) (p : ℕ) (ws : List Wake) (s : Shared)
    → EndsWaiting ws ⊎ (s.queue.avail ≢ limit d s.queue)
    → (outcome d now ws s p timeout).reply ≢ none
transfers_return sending now timeout p ws s h = queue_send_returns now timeout p ws s h
transfers_return receiving now timeout p ws s h = queue_recv_returns now timeout p ws s h

-- If one of the states that a call of queue_send finds, on entry and at each return of the
-- wait up to the first with a result other than 0, is not full, then the call returns 0 and
-- has put the message into the first such state, also where that wait has timed out; and
-- likewise a call of queue_recv takes a message from the first state that is not empty.
pub transfers_succeed :
    (d : Transfer) (now : Timespec) (timeout : ℤ) (p : ℕ) (ws : List Wake) (s free : Shared)
    → first_free (at_limit d) s 0 ws ≡ some free
    → ((outcome d now ws s p timeout).reply ≡ some (returns (pos 0)))
      × ((outcome d now ws s p timeout).shared ≡ some (transferred d p free))
unfolding queue_is_full_locked queue_is_empty_locked
transfers_succeed sending now timeout p ws s free h = send_free now timeout p ws s free h
transfers_succeed receiving now timeout p ws s free h = recv_free now timeout p ws s free h
