-- ===== src/Examples/Multithreaded/Growth.antt =====
-- Every turn only adds to what was printed.
use ohmylib.Prelude.{
  ℕ, ◌≡◌, refl, sym, Bool-cases, Option-cases, inl, inr, List, [], ◌++◌, append-nil,
}
use ohmylib.Prelude.Int.{ℤ, pos}
use ohmylib.Network.{equals}
use ohmylib.Queue.State.{returns, fails}
use ohmylib.Queue.Deadline.{Timespec, deadline}
use ohmylib.Queue.Transfer.{Outcome}
use ohmylib.Examples.Multithreaded.State.{Reader, Event, Process}
use ohmylib.Examples.Multithreaded.Handlers.{
  calloced, after_send, after_recv, after_create, after_print,
}
use ohmylib.Examples.Multithreaded.System.{
  Turn, send, send_wakes, create, reach_empty_wait, recv, recv_wakes, print,
}

-- A turn only adds to what was printed.
abbrev pub Grows : Process → Process → Type 0
Grows y z = (es : List Event) × (z.log ≡ y.log ++ es)

nothing_more : (y : Process) → (es : List Event) × (y.log ≡ y.log ++ es)
nothing_more y = ([], sym (append-nil y.log))

module _ (y : Process) where
  after_send-Grows : (e : ℕ) (ts : Timespec) (o : Outcome) → Grows y (after_send y e ts o)
  unfolding after_send
  after_send-Grows e ts o = elim (Option-cases o.reply) [
    | inl h ↦ rw h (nothing_more y)
    | inr (returns v, h) ↦ rw h (_, refl)
    | inr (fails errno, h) ↦ rw h (_, refl)
  ]

  after_recv-Grows :
      (k : Reader) (p : ℕ) (ts : Timespec) (o : Outcome) → Grows y (after_recv y k p ts o)
  unfolding after_recv
  after_recv-Grows k p ts o = elim (Option-cases o.reply) [
    | inl h ↦ rw h (nothing_more y)
    | inr (returns v, h) ↦ rw h (nothing_more y)
    | inr (fails errno, h) ↦ rw h (_, refl)
  ]

  after_create-Grows : (k : Reader) (ret : ℤ) → Grows y (after_create y k ret)
  unfolding after_create
  after_create-Grows k ret = elim (Bool-cases (equals ret (pos 0))) [
    | inl e ↦ rw e (nothing_more y)
    | inr e ↦ rw e (nothing_more y)
  ]

module _ (n p_main : ℕ) (p_reader : Reader → ℕ) where
  pub Turn-Grows : {y z : Process} → Turn n p_main p_reader y z → Grows y z
  unfolding after_print calloced
  Turn-Grows {y} (send e now at can not_null small fresh) =
      after_send-Grows (calloced p_main e y) e (deadline now (pos 1000)) _
  Turn-Grows {y} (send_wakes e ts ret at) = after_send-Grows y e ts _
  Turn-Grows {y} (create k ret at can) = after_create-Grows y k ret
  Turn-Grows {y} (reach_empty_wait at end) = nothing_more y
  Turn-Grows {y} (recv k now alive at) =
      after_recv-Grows y k (p_reader k) (deadline now (pos 100)) _
  Turn-Grows {y} (recv_wakes k ts ret alive at) = after_recv-Grows y k (p_reader k) ts _
  Turn-Grows {y} (print k e alive at) = (_, refl)
