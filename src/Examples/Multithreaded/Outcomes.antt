-- ===== src/Examples/Multithreaded/Outcomes.antt =====
-- What a turn of queue_send, queue_recv or queue_empty_wait comes to.
use ohmylib.Prelude.{ℕ, ◌≡◌, ◌⊎◌, refl, inl, inr, Bool-cases, Bool, false, none, some, [], ◌==◌}
use ohmylib.Prelude.Int.{ℤ, pos}
use ohmylib.Queue.State.{
  Queue, Shared, Errno, enospc, eagain, returns, fails, queue_is_full_locked, queue_is_empty_locked,
}
use ohmylib.Queue.Deadline.{Timespec}
use ohmylib.Queue.Transfer.{
  cond_write, cond_read, Outcome, wait_loop, send_waited, recv_waited, queue_send, queue_send_wait,
  queue_recv, queue_recv_wait, queue_put, queue_take,
}

-- It waits, or fails, with the queue as it was, or it transfers where `busy` is false.
abbrev pub Transfers : (Queue → Bool) → (Shared → Shared) → Shared → Outcome → Type 0
Transfers busy transfer s o =
    ((o.reply ≡ none) × (o.shared ≡ some s))
    ⊎ (((e : Errno) × (o.reply ≡ some (fails e)) × (o.shared ≡ some s))
        ⊎ ((busy s.queue ≡ false)
            × (o.reply ≡ some (returns (pos 0)))
            × (o.shared ≡ some (transfer s))))

module _ (s : Shared) (p : ℕ) where
  pub send_wakes_lem :
      (ts : Timespec) (ret : ℕ)
      → Transfers queue_is_full_locked
          (queue_put p)
          s
          (send_waited p (wait_loop queue_is_full_locked cond_write ts [] s ret))
  unfolding wait_loop
  send_wakes_lem ts ret = elim (Bool-cases (queue_is_full_locked s.queue)) [
    | inl full ↦ elim (Bool-cases (ret == 0)) [
      | inl e ↦ rw (full, e) (inl (refl, refl))
      | inr e ↦ rw (full, e) (inr (inl (enospc, refl, refl)))
    ]
    | inr room ↦ rw room (inr (inr (refl, refl, refl)))
  ]

  pub send_lem :
      (now : Timespec) (timeout : ℤ)
      → Transfers queue_is_full_locked (queue_put p) s (queue_send now [] (some s) p timeout)
  unfolding queue_send queue_send_wait
  send_lem now timeout = elim (Bool-cases (queue_is_full_locked s.queue)) [
    | inl full ↦ rw full (inl (refl, refl))
    | inr room ↦ rw room (inr (inr (refl, refl, refl)))
  ]

  pub recv_wakes_lem :
      (ts : Timespec) (ret : ℕ)
      → Transfers queue_is_empty_locked
          (queue_take p)
          s
          (recv_waited p (wait_loop queue_is_empty_locked cond_read ts [] s ret))
  unfolding wait_loop
  recv_wakes_lem ts ret = elim (Bool-cases (queue_is_empty_locked s.queue)) [
    | inl empty ↦ elim (Bool-cases (ret == 0)) [
      | inl e ↦ rw (empty, e) (inl (refl, refl))
      | inr e ↦ rw (empty, e) (inr (inl (eagain, refl, refl)))
    ]
    | inr more ↦ rw more (inr (inr (refl, refl, refl)))
  ]

  pub recv_lem :
      (now : Timespec) (timeout : ℤ)
      → Transfers queue_is_empty_locked (queue_take p) s (queue_recv now [] (some s) p timeout)
  unfolding queue_recv queue_recv_wait
  recv_lem now timeout = elim (Bool-cases (queue_is_empty_locked s.queue)) [
    | inl empty ↦ rw empty (inl (refl, refl))
    | inr more ↦ rw more (inr (inr (refl, refl, refl)))
  ]
