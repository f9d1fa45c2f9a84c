-- ===== src/Queue/Sending.antt =====
-- queue_send: the states it acts on and the ways it ends.
use ohmylib.Prelude.{ℕ, ◌<◌, ◌≡◌, ◌≢◌, ◌⊎◌, inl, inr, refl, arith, true, false}
use ohmylib.Prelude.{some, none, List, [], ◌∷◌, ◌++◌, read_bytes}
use ohmylib.Prelude.{Bool-cases}
use ohmylib.Prelude.Int.{ℤ, pos}
use ohmylib.Queue.State.{Queue, Shared, returns, fails, enospc}
use ohmylib.Queue.State.{queue_is_full_locked}
use ohmylib.Queue.Deadline.{Timespec}
use ohmylib.Queue.Transfer.{
  Wake, Waited, Outcome, queue_send_wait, queue_send, queue_put, send_waited,
}
use ohmylib.Queue.Layout.{IsValid}
use ohmylib.Queue.Contents.{contents}
use ohmylib.Queue.Refine.{queue_put-IsValid, queue_put_lem}
use ohmylib.Queue.Waiting.{
  AllLeave, EndsWaiting, IsSeen, Sendable, wait_loop_keeps, wait_loop-IsSeen, wait_loop_finishes,
  IsSeen-first,
}

-- How a call of queue_send ends, from the state `t` on which it acts.
abbrev pub SendEnds : ℕ → Outcome → Shared → Type 0
SendEnds p o t =
    (o.reply ≡ none)
    ⊎ ((o.reply ≡ some (fails enospc)) × (o.shared ≡ some t) × (t.queue.avail ≡ t.queue.nmemb))
    ⊎ ((o.reply ≡ some (returns (pos 0)))
        × (o.shared ≡ some (queue_put p t))
        × IsValid (queue_put p t).queue
        × (contents (queue_put p t) ≡ contents t ++ (read_bytes t.memory p t.queue.size ∷ [])))

full_avail : (q : Queue) → queue_is_full_locked q ≡ true → q.avail ≡ q.nmemb
unfolding queue_is_full_locked
full_avail q e = ground arith

room_avail : (q : Queue) → IsValid q → queue_is_full_locked q ≡ false → q.avail < q.nmemb
unfolding queue_is_full_locked
room_avail q v e = ground arith

module _ (now : Timespec) (timeout : ℤ) (p : ℕ) where
  send_ends :
      (t : Shared)
      → IsValid t.queue
      → queue_is_full_locked t.queue ≡ false
      → (contents (queue_put p t) ≡ contents t ++ (read_bytes t.memory p t.queue.size ∷ []))
        × IsValid (queue_put p t).queue
  send_ends t v e = (
    queue_put_lem t p v (room_avail t.queue v e),
    queue_put-IsValid t p v (room_avail t.queue v e),
  )

  send_waited_ends : (w : Waited) → IsValid w.shared.queue → SendEnds p (send_waited p w) w.shared
  send_waited_ends w v = elim (Bool-cases w.finished) [
    | inr e ↦ rw e (inl refl)
    | inl e ↦ elim (Bool-cases (queue_is_full_locked w.shared.queue)) [
      | inl full ↦ rw (e, full) (inr (inl (refl, refl, full_avail _ full)))
      | inr room ↦
          rw (e, room)
            (inr (inr (refl, refl, (send_ends w.shared v room).1, (send_ends w.shared v room).0)))
    ]
  ]

  -- If the queue is valid on entry and the other threads leave it valid at each return of the
  -- wait, then queue_send acts on one of the states it found: it has not returned, or it
  -- returns ENOSPC and leaves that state, which is full, or it returns 0 and the messages held
  -- are then the former ones with the sent one behind them, in a valid queue.
  pub queue_send_lem :
      (ws : List Wake) (s : Shared)
      → AllLeave Sendable ws
      → Sendable s
      → (t : Shared) × IsSeen s ws t
        × IsValid t.queue
        × SendEnds p (queue_send now ws (some s) p timeout) t
  unfolding queue_send queue_send_wait
  queue_send_lem ws s a v = elim (Bool-cases (queue_is_full_locked s.queue)) [
    | inr room ↦ (
      s,
      IsSeen-first s ws,
      v,
      rw room (inr (inr (refl, refl, (send_ends s v room).1, (send_ends s v room).0))),
    )
    | inl full ↦ (
      (queue_send_wait now timeout ws s).shared,
      wait_loop-IsSeen _ _ _ ws s 0,
      wait_loop_keeps _ _ _ Sendable ws s 0 a v,
      rw full (send_waited_ends _ (wait_loop_keeps _ _ _ Sendable ws s 0 a v)),
    )
  ]

  send_waited_replies : (w : Waited) → w.finished ≡ true → (send_waited p w).reply ≢ none
  send_waited_replies w e = elim (Bool-cases (queue_is_full_locked w.shared.queue)) [
    | inl full ↦ rw (e, full) (cc)
    | inr room ↦ rw (e, room) (cc)
  ]

  pub queue_send_returns :
      (ws : List Wake) (s : Shared)
      → EndsWaiting ws ⊎ (s.queue.avail ≢ s.queue.nmemb)
      → (queue_send now ws (some s) p timeout).reply ≢ none
  unfolding queue_send queue_send_wait
  queue_send_returns ws s h = elim (Bool-cases (queue_is_full_locked s.queue)) [
    | inr room ↦ rw room (cc)
    | inl full ↦
        rw full (
          send_waited_replies _
            (wait_loop_finishes _ _ _ ws s 0 (inr (ends h (full_avail _ full)))))
  ]
    where
      ends :
          EndsWaiting ws ⊎ (s.queue.avail ≢ s.queue.nmemb)
          → s.queue.avail ≡ s.queue.nmemb
          → EndsWaiting ws
      ends (inl e) full = e
      ends (inr ne) full = absurd (ne full)
