-- ===== src/Queue/Waiting.antt =====
-- The loops that wait: the states they find and what ends them.
use ohmylib.Prelude.{ℕ, ◌≡◌, ◌≢◌, ◌⊎◌, inl, inr, refl, arith, Bool, true, ◌&&◌, ◌==◌}
use ohmylib.Prelude.{List, [], ◌∷◌, Disjoint, ◌*◌}
use ohmylib.Prelude.{Bool-cases}
use ohmylib.Queue.State.{Queue, Shared}
use ohmylib.Queue.Deadline.{Timespec}
use ohmylib.Queue.Transfer.{Wake, Condition, wait_loop}
use ohmylib.Queue.Layout.{IsValid}

-- What the other threads leave, each time that the thread takes the lock again, satisfies `P`.
abbrev pub AllLeave : (Shared → Type 0) → List Wake → Type 0
AllLeave P [] = Unit
AllLeave P (w ∷ ws) = P w.shared × AllLeave P ws

abbrev pub Sendable : Shared → Type 0
Sendable s = IsValid s.queue

-- The receiver's buffer lies outside the queue's.
abbrev pub Receivable : ℕ → Shared → Type 0
Receivable p s =
    IsValid s.queue × Disjoint p s.queue.size s.queue.p_head (s.queue.nmemb * s.queue.size)

-- One of the waits ends by a result other than 0, as a timed-out one does.
abbrev pub EndsWaiting : List Wake → Type 0
EndsWaiting [] = ⊥
EndsWaiting (w ∷ ws) = (w.ret ≢ 0) ⊎ EndsWaiting ws

-- A state that the thread found on entry or on a return from the wait.
abbrev pub IsSeen : Shared → List Wake → Shared → Type 0
IsSeen s [] t = t ≡ s
IsSeen s (w ∷ ws) t = (t ≡ s) ⊎ IsSeen w.shared ws t

module _ (busy : Queue → Bool) (c : Condition) (ts : Timespec) where
  pub wait_loop_keeps :
      (P : Shared → Type 0) (ws : List Wake) (s : Shared) (ret : ℕ)
      → AllLeave P ws
      → P s
      → P (wait_loop busy c ts ws s ret).shared
  unfolding wait_loop
  wait_loop_keeps P [] s ret a v = v
  wait_loop_keeps P (w ∷ ws) s ret a v = elim (Bool-cases (busy s.queue && ret == 0)) [
    | inl e ↦ rw e (wait_loop_keeps P ws w.shared w.ret a.1 a.0)
    | inr e ↦ rw e v
  ]

  pub wait_loop-IsSeen :
      (ws : List Wake) (s : Shared) (ret : ℕ) → IsSeen s ws (wait_loop busy c ts ws s ret).shared
  unfolding wait_loop
  wait_loop-IsSeen [] s ret = refl
  wait_loop-IsSeen (w ∷ ws) s ret = elim (Bool-cases (busy s.queue && ret == 0)) [
    | inl e ↦ rw e (inr (wait_loop-IsSeen ws w.shared w.ret))
    | inr e ↦ rw e (inl refl)
  ]

  later :
      (w : Wake) (ws : List Wake) (s : Shared) (ret : ℕ)
      → (ret ≢ 0) ⊎ EndsWaiting (w ∷ ws)
      → (busy s.queue && ret == 0) ≡ true
      → EndsWaiting (w ∷ ws)
  later w ws s ret (inl ne) e = absurd (ne (ground arith))
  later w ws s ret (inr r) e = r

  pub wait_loop_finishes :
      (ws : List Wake) (s : Shared) (ret : ℕ)
      → (ret ≢ 0) ⊎ EndsWaiting ws
      → (wait_loop busy c ts ws s ret).finished ≡ true
  unfolding wait_loop
  wait_loop_finishes [] s ret (inl h) = ground arith
  wait_loop_finishes [] s ret (inr h) = absurd h
  wait_loop_finishes (w ∷ ws) s ret h = elim (Bool-cases (busy s.queue && ret == 0)) [
    | inl e ↦ rw e (wait_loop_finishes ws w.shared w.ret (later w ws s ret h e))
    | inr e ↦ rw e
  ]

pub IsSeen-first : (s : Shared) (ws : List Wake) → IsSeen s ws s
IsSeen-first s [] = refl
IsSeen-first s (w ∷ ws) = inl refl
