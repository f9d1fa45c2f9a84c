-- ===== src/Examples/Queue.antt =====
-- examples/queue/queue.c: it fills a queue of pointers until there is no room, and empties it.
-- The program has one thread, so a wait leaves the queue as it was. `p` is the address of the
-- variable `s`, and what calloc and pthread_cond_timedwait return is given.
pub mod Keeping
pub mod Filling
pub mod Emptying
pub mod Loops
pub mod Program
use ohmylib.Prelude.{
  ℕ, suc, ◌+◌, Option, none, some, List, [], ◌∷◌, ◌++◌, ◌==◌, Memory, if◌then◌else◌,
}
use ohmylib.Prelude.Int.{pos}
use ohmylib.Prelude.Words.{store_pointer, load_pointer}
use mathlib.Core.List.{map}
use mathlib.Core.Option
use ohmylib.Queue.State.{Queue, Shared, Reply, returns, fails}
use ohmylib.Queue.Create.{Created, created, refused, queue_create, queue_destroy}
use ohmylib.Queue.Status.{queue_is_empty, queue_is_full, queue_space_available}
use ohmylib.Queue.Deadline.{Timespec}
use ohmylib.Queue.Transfer.{Wake, Outcome, queue_send, queue_recv}
use ohmylib.Examples.Vector.{Values, store}

-- The lines that are printed, and the calls of free.
pub data Event : Type 0 where
  stat : Reply → Reply → Reply → Event
  prints frees : ℕ → Event

unfoldable pub q_stat : Queue → Event
q_stat q = stat (queue_is_empty (some q)) (queue_is_full (some q)) (queue_space_available (some q))

-- The returns of a wait that nothing else happens in.
abbrev pub alone : Shared → List ℕ → List Wake
alone s waits = map (λ ret. record { shared = s; ret = ret }) waits

pub record SendRound : Type 0 where
  pub calloc_ret : ℕ
  pub now : Timespec
  pub waits : List ℕ

-- Where the first loop leaves, or that it has not left yet.
pub data SendEnd : Type 0 where
  send_done : Shared → Values → SendEnd
  err_clear : Shared → SendEnd
  sending : SendEnd

abbrev pub shared_of : Shared → Outcome → Shared
shared_of s o = elim o.shared [ none ↦ s | some t ↦ t ]

unfoldable pub send_loop : ℕ → List SendRound → ℕ → Shared → Values → List Event × SendEnd
unfolding q_stat
send_loop p [] i s vals = ([], sending)
send_loop p (r ∷ rs) i s vals =
    let before = if i == 3 then q_stat s.queue ∷ [] else [] in
    let vals' = store r.calloc_ret (i + 1) vals in
    let s' = record s { memory = store_pointer p r.calloc_ret s.memory } in
    let o = queue_send r.now (alone s' r.waits) (some s') p (pos 1000) in
    let (es, end) = send_loop p rs (suc i) (shared_of s' o) vals' in
    if r.calloc_ret == 0 then (before, err_clear s) else elim o.reply [
      | none ↦ (before, sending)
      | some (fails e) ↦ (before ++ (frees r.calloc_ret ∷ []), send_done (shared_of s' o) vals')
      | some (returns v) ↦ (before ++ es, end)
    ]

pub record RecvRound : Type 0 where
  pub now : Timespec
  pub waits : List ℕ

-- The state at `recv_done`, if it gets there.
unfoldable pub recv_loop : ℕ → List RecvRound → Shared → Values → List Event × Option Shared
recv_loop p [] s vals = ([], none)
recv_loop p (r ∷ rs) s vals =
    let s' = record s { memory = store_pointer p 0 s.memory } in
    let o = queue_recv r.now (alone s' r.waits) (some s') p (pos 1000) in
    let t = shared_of s' o in
    let (es, end) = recv_loop p rs t vals in
    let ptr = load_pointer p t.memory in
    elim o.reply [
      | none ↦ ([], none)
      | some (fails e) ↦ ([], some t)
      | some (returns v) ↦ (prints (vals ptr) ∷ frees ptr ∷ es, end)
    ]

abbrev pub q_cnt : ℕ
q_cnt = 4

-- sizeof(struct some_struct_s *)
abbrev pub sizeof_pointer : ℕ
sizeof_pointer = 8

-- What follows the first loop. It is `none` where the program still waits.
unfoldable pub after_send : ℕ → ℕ → List RecvRound → List Event × SendEnd → Option (List Event)
unfolding recv_loop q_stat
after_send q p recvs (es, sending) = none
after_send q p recvs (es, err_clear s) = some (es ++ map frees (queue_destroy (some (q, s.queue))))
after_send q p recvs (es, send_done s vals) =
    let (fs, end) = recv_loop p recvs s vals in
    elim end [
      | none ↦ none
      | some t ↦ some (
          es
          ++ (q_stat s.queue ∷ fs
              ++ (q_stat t.queue ∷ map frees (queue_destroy (some (q, t.queue))))))
    ]

-- The events of main, from the queue that queue_create gives; without one it returns -1.
unfoldable pub main :
    ℕ
    → (ℕ → Option ℕ)
    → Option ℕ
    → List SendRound
    → List RecvRound
    → Memory
    → Values
    → Option (List Event)
unfolding send_loop after_send
main p calloc block sends recvs m vals = elim (queue_create calloc block q_cnt sizeof_pointer) [
  | refused e fs ↦ some []
  | created q fields ↦
      Option.map (λ es. q_stat fields ∷ es)
        (after_send q p recvs (send_loop p sends 0 (record { queue = fields; memory = m }) vals))
]
