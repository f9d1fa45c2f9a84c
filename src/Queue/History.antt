-- ===== src/Queue/History.antt =====
-- Calls of queue_send and queue_recv in any order, with the messages sent and received so far.
use ohmylib.Prelude.{ℕ, ◌+◌, ◌*◌, ◌<◌, ◌≡◌, ap, sym, ◌∙◌, some}
use ohmylib.Prelude.{
  List, [], ◌∷◌, ◌++◌, append_assoc, read_bytes, Disjoint, inl, inr, ap₂, ◌≤◌, Memory,
}
use ohmylib.Prelude.Int.{ℤ, pos}
use ohmylib.Queue.State.{Shared, returns}
use ohmylib.Queue.Deadline.{Timespec}
use ohmylib.Queue.Transfer.{queue_send, queue_recv, queue_put, queue_take}
use ohmylib.Queue.Layout.{IsValid}
use ohmylib.Queue.Contents.{Message, contents, window_agree}
use ohmylib.Queue.Waiting.{Receivable}
use ohmylib.Queue.Sending.{queue_send_lem}
use ohmylib.Queue.Receiving.{queue_recv_lem}

-- The queue, with the messages that calls have handed over and the ones that calls have delivered.
pub record System : Type 0 where
  pub shared : Shared
  pub sent : List Message
  pub received : List Message

-- One thread between taking the lock and releasing it, or at work on memory outside the buffer.
pub data Step : System → System → Type 0 where
  send :
      {y : System} (now : Timespec) (p : ℕ) (timeout : ℤ) (t : Shared)
      → (queue_send now [] (some y.shared) p timeout).reply ≡ some (returns (pos 0))
      → (queue_send now [] (some y.shared) p timeout).shared ≡ some t
      → Step y (record {
        shared = t;
        sent = y.sent ++ (read_bytes y.shared.memory p y.shared.queue.size ∷ []);
        received = y.received;
      })
  recv :
      {y : System} (now : Timespec) (p : ℕ) (timeout : ℤ) (t : Shared)
      → Disjoint p y.shared.queue.size y.shared.queue.p_head
          (y.shared.queue.nmemb * y.shared.queue.size)
      → (queue_recv now [] (some y.shared) p timeout).reply ≡ some (returns (pos 0))
      → (queue_recv now [] (some y.shared) p timeout).shared ≡ some t
      → Step y (record {
        shared = t;
        sent = y.sent;
        received = y.received ++ (read_bytes t.memory p y.shared.queue.size ∷ []);
      })
  work :
      {y : System} (m : Memory)
      → ((a : ℕ)
          → y.shared.queue.p_head ≤ a
          → a < y.shared.queue.p_head + y.shared.queue.nmemb * y.shared.queue.size
          → y.shared.memory a ≡ m a)
      → Step y (record {
        shared = record { queue = y.shared.queue; memory = m };
        sent = y.sent;
        received = y.received;
      })

pub data Reach (start : System) : System → Type 0 where
  here : Reach start start
  step : {y z : System} → Reach start y → Step y z → Reach start z

-- What was sent is what was received, and then what the queue holds.
pub record IsOrdered (y : System) : Type 0 where
  pub valid : IsValid y.shared.queue
  pub order : y.sent ≡ y.received ++ contents y.shared

send_done :
    (s t : Shared) (now : Timespec) (p : ℕ) (timeout : ℤ)
    → (queue_send now [] (some s) p timeout).reply ≡ some (returns (pos 0))
    → (queue_send now [] (some s) p timeout).shared ≡ some t
    → IsValid s.queue
    → IsValid t.queue × (contents t ≡ contents s ++ (read_bytes s.memory p s.queue.size ∷ []))
send_done s t now p timeout r e v =
    let (u, seen, _, ends) = queue_send_lem now timeout p [] s tt v in
    elim ends [
      | inl waits ↦ cc
      | inr (inl (fails, _, _)) ↦ cc
      | inr (inr (_, put, v', c)) ↦
          let same : queue_put p u ≡ t = cc in
          (
            rw same at v',
            ap contents (sym same)
                ∙ c
                ∙ ap (λ x. contents x ++ (read_bytes x.memory p x.queue.size ∷ [])) seen,
          )
    ]

recv_done :
    (s t : Shared) (now : Timespec) (p : ℕ) (timeout : ℤ)
    → (queue_recv now [] (some s) p timeout).reply ≡ some (returns (pos 0))
    → (queue_recv now [] (some s) p timeout).shared ≡ some t
    → Receivable p s
    → IsValid t.queue × (contents s ≡ read_bytes t.memory p s.queue.size ∷ contents t)
recv_done s t now p timeout r e v =
    let (u, seen, _, ends) = queue_recv_lem now timeout p [] s tt v in
    elim ends [
      | inl waits ↦ cc
      | inr (inl (fails, _, _)) ↦ cc
      | inr (inr (_, take, v', c)) ↦
          let same : queue_take p u ≡ t = cc in
          (
            rw same at v',
            ap contents (sym seen)
                ∙ c
                ∙ ap₂ (λ (x y : Shared). read_bytes y.memory p x.queue.size ∷ contents y) seen same,
          )
    ]

Step-IsOrdered : {y z : System} → Step y z → IsOrdered y → IsOrdered z
Step-IsOrdered {y} (send now p timeout t r e) o =
    let (v, c) = send_done y.shared t now p timeout r e o.valid in
    record {
      valid = v;
      order =
          ap (λ ms. ms ++ (read_bytes y.shared.memory p y.shared.queue.size ∷ [])) o.order
          ∙ append_assoc y.received (contents y.shared) _
          ∙ ap (λ ms. y.received ++ ms) (sym c);
    }
Step-IsOrdered {y} (recv now p timeout t d r e) o =
    let (v, c) = recv_done y.shared t now p timeout r e (o.valid, d) in
    record {
      valid = v;
      order =
          o.order
          ∙ ap (λ ms. y.received ++ ms) c
          ∙ sym (
              append_assoc y.received (read_bytes t.memory p y.shared.queue.size ∷ [])
                (contents t));
    }
Step-IsOrdered {y} (work m h) o = record {
  valid = o.valid;
  order =
      o.order
      ∙ ap (λ ms. y.received ++ ms)
          (window_agree y.shared.queue y.shared.memory m _ y.shared.queue.avail h o.valid.read_in);
}

-- From a state where the queue is valid and the messages sent are the messages received
-- followed by the ones the queue holds, every sequence of successful sends, of successful
-- receives into memory outside the buffer, and of writes outside the buffer leads to such a
-- state again: whatever the interleaving, messages are delivered in the order in which they
-- were sent, each once.
pub Reach-IsOrdered : {start y : System} → IsOrdered start → Reach start y → IsOrdered y
Reach-IsOrdered o here = o
Reach-IsOrdered o (step r st) = Step-IsOrdered st (Reach-IsOrdered o r)
