-- ===== src/Queue/Receiving.antt =====
-- queue_recv: the states it acts on and the ways it ends.
use ohmylib.Prelude.{ℕ, ◌<◌, ◌≡◌, ◌≢◌, ◌⊎◌, inl, inr, refl, arith, true, false}
use ohmylib.Prelude.{some, none, List, ◌∷◌, read_bytes}
use ohmylib.Prelude.{Bool-cases}
use ohmylib.Prelude.Int.{ℤ, pos}
use ohmylib.Queue.State.{Queue, Shared, returns, fails, eagain}
use ohmylib.Queue.State.{queue_is_empty_locked}
use ohmylib.Queue.Deadline.{Timespec}
use ohmylib.Queue.Transfer.{
  Wake, Waited, Outcome, queue_recv_wait, queue_recv, queue_take, recv_waited,
}
use ohmylib.Queue.Layout.{IsValid}
use ohmylib.Queue.Contents.{contents}
use ohmylib.Queue.Refine.{queue_take-IsValid, queue_take_lem}
use ohmylib.Queue.Waiting.{
  AllLeave, EndsWaiting, IsSeen, Receivable, wait_loop_keeps, wait_loop-IsSeen, wait_loop_finishes,
  IsSeen-first,
}

-- How a call of queue_recv ends, from the state `t` on which it acts.
abbrev pub RecvEnds : ℕ → Outcome → Shared → Type 0
RecvEnds p o t =
    (o.reply ≡ none)
    ⊎ ((o.reply ≡ some (fails eagain)) × (o.shared ≡ some t) × (t.queue.avail ≡ 0))
    ⊎ ((o.reply ≡ some (returns (pos 0)))
        × (o.shared ≡ some (queue_take p t))
        × IsValid (queue_take p t).queue
        × (contents t
            ≡ read_bytes (queue_take p t).memory p t.queue.size ∷ contents (queue_take p t)))

empty_avail : (q : Queue) → queue_is_empty_locked q ≡ true → q.avail ≡ 0
unfolding queue_is_empty_locked
empty_avail q e = ground arith

some_avail : (q : Queue) → queue_is_empty_locked q ≡ false → 0 < q.avail
unfolding queue_is_empty_locked
some_avail q e = ground arith

module _ (now : Timespec) (timeout : ℤ) (p : ℕ) where
  recv_ends :
      (t : Shared)
      → Receivable p t
      → queue_is_empty_locked t.queue ≡ false
      → IsValid (queue_take p t).queue
        × (contents t
            ≡ read_bytes (queue_take p t).memory p t.queue.size ∷ contents (queue_take p t))
  recv_ends t (v, d) e = (
    queue_take-IsValid t p v (some_avail t.queue e),
    queue_take_lem t p v (some_avail t.queue e) d,
  )

  recv_waited_ends : (w : Waited) → Receivable p w.shared → RecvEnds p (recv_waited p w) w.shared
  recv_waited_ends w v = elim (Bool-cases w.finished) [
    | inr e ↦ rw e (inl refl)
    | inl e ↦ elim (Bool-cases (queue_is_empty_locked w.shared.queue)) [
      | inl empty ↦ rw (e, empty) (inr (inl (refl, refl, empty_avail _ empty)))
      | inr more ↦
          rw (e, more)
            (inr (inr (refl, refl, (recv_ends w.shared v more).0, (recv_ends w.shared v more).1)))
    ]
  ]

  -- If the queue is valid, and the receiver's buffer lies outside the queue's, on entry and at
  -- each return of the wait, then queue_recv acts on one of the states it found: it has not
  -- returned, or it returns EAGAIN and leaves that state, which is empty, or it returns 0, the
  -- receiver's buffer has the oldest message, and the queue holds the others and is valid.
  pub queue_recv_lem :
      (ws : List Wake) (s : Shared)
      → AllLeave (Receivable p) ws
      → Receivable p s
      → (t : Shared) × IsSeen s ws t
        × Receivable p t
        × RecvEnds p (queue_recv now ws (some s) p timeout) t
  unfolding queue_recv queue_recv_wait
  queue_recv_lem ws s a v = elim (Bool-cases (queue_is_empty_locked s.queue)) [
    | inr more ↦ (
      s,
      IsSeen-first s ws,
      v,
      rw more (inr (inr (refl, refl, (recv_ends s v more).0, (recv_ends s v more).1))),
    )
    | inl empty ↦ (
      (queue_recv_wait now timeout ws s).shared,
      wait_loop-IsSeen _ _ _ ws s 0,
      wait_loop_keeps _ _ _ (Receivable p) ws s 0 a v,
      rw empty (recv_waited_ends _ (wait_loop_keeps _ _ _ (Receivable p) ws s 0 a v)),
    )
  ]

  recv_waited_replies : (w : Waited) → w.finished ≡ true → (recv_waited p w).reply ≢ none
  recv_waited_replies w e = elim (Bool-cases (queue_is_empty_locked w.shared.queue)) [
    | inl empty ↦ rw (e, empty) (cc)
    | inr more ↦ rw (e, more) (cc)
  ]

  pub queue_recv_returns :
      (ws : List Wake) (s : Shared)
      → EndsWaiting ws ⊎ (s.queue.avail ≢ 0)
      → (queue_recv now ws (some s) p timeout).reply ≢ none
  unfolding queue_recv queue_recv_wait
  queue_recv_returns ws s h = elim (Bool-cases (queue_is_empty_locked s.queue)) [
    | inr more ↦ rw more (cc)
    | inl empty ↦ rw empty (
        recv_waited_replies _
          (wait_loop_finishes _ _ _ ws s 0 (inr (ends h (empty_avail _ empty)))))
  ]
    where
      ends : EndsWaiting ws ⊎ (s.queue.avail ≢ 0) → s.queue.avail ≡ 0 → EndsWaiting ws
      ends (inl e) none_left = e
      ends (inr ne) none_left = absurd (ne none_left)
