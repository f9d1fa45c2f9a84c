-- ===== src/Examples/Queue/Program.antt =====
-- The program from the creation of its queue to the end.
use ohmylib.Prelude.{
  ℕ, suc, ◌*◌, ◌≡◌, refl, ap, ap₂, ◌∙◌, arith, false, Option, some, List, [], ◌∷◌, ◌++◌, append-nil,
  length, Memory, Disjoint,
}
use mathlib.Core.Option
use ohmylib.Queue.State.{Queue, Shared}
use ohmylib.Queue.Create.{queue_destroy}
use ohmylib.Queue.Contents.{window}
use ohmylib.Queue.Layout.{index_of}
use ohmylib.Queue.Fresh.{IsFresh, queue_create-IsFresh}
use ohmylib.Examples.Vector.{Values}
use ohmylib.Examples.Vector.Filling.{numbered}
use ohmylib.Examples.Queue.{
  Event, stat, prints, frees, q_stat, SendRound, send_done, send_loop, RecvRound, recv_loop,
  after_send, main,
}
use ohmylib.Examples.Queue.Filling.{TimesOut, Holds}
use ohmylib.Examples.Queue.Loops.{
  printed, freed, pointers, Allocates, AreSmall, send_loop_lem, recv_loop_lem,
}

printed-append : (es fs : List Event) → printed (es ++ fs) ≡ printed es ++ printed fs
printed-append [] fs = refl
printed-append (prints v ∷ es) fs = ap (λ vs. v ∷ vs) (printed-append es fs)
printed-append (frees q ∷ es) fs = printed-append es fs
printed-append (stat a b c ∷ es) fs = printed-append es fs

freed-append : (es fs : List Event) → freed (es ++ fs) ≡ freed es ++ freed fs
freed-append [] fs = refl
freed-append (frees v ∷ es) fs = ap (λ vs. v ∷ vs) (freed-append es fs)
freed-append (prints q ∷ es) fs = freed-append es fs
freed-append (stat a b c ∷ es) fs = freed-append es fs

length-pointers : (rs : List SendRound) → length (pointers rs) ≡ length rs
length-pointers [] = refl
length-pointers (r ∷ rs) = ap suc (length-pointers rs)

-- The pointers that are sent fit 8 bytes.
pointers-AreSmall :
    (rs : List SendRound) (r : SendRound) → Allocates (rs ++ (r ∷ [])) → AreSmall (pointers rs)
pointers-AreSmall [] r al = tt
pointers-AreSmall (q ∷ rs) r al = (al.1, pointers-AreSmall rs r al.3)

fresh-Holds :
    (p b n : ℕ) (q : Queue) (m : Memory)
    → IsFresh b (n * 8) q
    → q.nmemb ≡ n
    → q.size ≡ 8
    → q.p_head ≡ b
    → q.statically_allocated ≡ false
    → Disjoint p 8 b (n * 8)
    → Holds p b n (record { queue = q; memory = m }) []
fresh-Holds p b n q m fresh count sized head owned outside = record {
  keeps = record {
    valid = fresh.valid;
    sized = sized;
    count = count;
    head_at = head;
    held = ap (λ k. window q m (index_of q q.p_read) k) fresh.empty;
  };
  owned = owned;
  outside = outside;
}

-- What is freed at the end.
destroy_lem :
    (p b n q : ℕ) (s : Shared) (ptrs : List ℕ)
    → Holds p b n s ptrs
    → queue_destroy (some (q, s.queue)) ≡ b ∷ q ∷ []
unfolding queue_destroy
destroy_lem p b n q s ptrs h = rw (h.owned, h.keeps.head_at) refl

-- After a first loop that has left a queue and values.
after_send_lem :
    (q p : ℕ) (recvs : List RecvRound) (es : List Event) (s t : Shared) (vals : Values) (b n : ℕ)
    → let (fs, end) = recv_loop p recvs s vals in
      end ≡ some t
      → Holds p b n t []
      → (out : List Event) × (after_send q p recvs (es, send_done s vals) ≡ some out)
        × (printed out ≡ printed es ++ printed fs)
        × (freed out ≡ freed es ++ (freed fs ++ (b ∷ q ∷ [])))
unfolding after_send q_stat
after_send_lem q p recvs es s t vals b n e h =
    let fs = (recv_loop p recvs s vals).0 in
    let tail = q_stat t.queue ∷ frees b ∷ frees q ∷ [] in
    (
      es ++ (q_stat s.queue ∷ fs ++ tail),
      rw (e, after_send) (rw (destroy_lem p b n q t [] h) refl),
      printed-append es (q_stat s.queue ∷ fs ++ tail)
          ∙ ap (λ vs. printed es ++ vs) (printed-append fs tail ∙ append-nil (printed fs)),
      freed-append es (q_stat s.queue ∷ fs ++ tail)
          ∙ ap (λ vs. freed es ++ vs) (freed-append fs tail),
    )

-- If calloc gives the buffer of 32 bytes and a new struct each time, the variable s lies
-- outside the buffer, and the wait of the fifth send and that of the fifth receive end by a
-- result other than 0, then the queue example ends, has printed 1, 2, 3 and 4 in this order,
-- and has freed the struct of the fifth send, the four structs that were sent, in order, the
-- buffer and the queue.
pub queue_main_lem :
    (p q b : ℕ) (calloc : ℕ → Option ℕ) (sends : List SendRound) (last : SendRound)
    (recvs : List RecvRound) (end : RecvRound) (m : Memory) (vals : Values)
    → calloc 32 ≡ some b
    → Disjoint p 8 b 32
    → length sends ≡ 4
    → length recvs ≡ 4
    → Allocates (sends ++ (last ∷ []))
    → TimesOut last.waits
    → TimesOut end.waits
    → (es : List Event) × (main p calloc
          (some q)
          (sends ++ (last ∷ []))
          (recvs ++ (end ∷ []))
          m
          vals
        ≡ some es)
      × (printed es ≡ 1 ∷ 2 ∷ 3 ∷ 4 ∷ [])
      × (freed es ≡ last.calloc_ret ∷ pointers sends ++ (b ∷ q ∷ []))
unfolding main q_stat
queue_main_lem p q b calloc sends last recvs end m vals got outside four four' al out out' =
    let (fields, makes, count, sized, head, owned, fresh) =
      queue_create-IsFresh calloc q b 4 8 (omega arith) (omega arith) (omega arith) got in
    let begin = fresh-Holds p b 4 fields m fresh count sized head owned outside in
    let s0 : Shared = record { queue = fields; memory = m } in
    let (none_printed, one_freed, (s, vals', sent, held, values, kept)) =
      send_loop_lem p b 4 sends last [] 0 s0 [] vals begin (omega (arith, four)) al out in
    let ptrs = pointers sends in
    let (back, gone, (t, received, empty)) =
      recv_loop_lem p b 4 recvs end [] s ptrs vals' held
        (omega (arith, four, four', length-pointers sends)) (pointers-AreSmall sends last al)
        out' in
    let first = (send_loop p (sends ++ (last ∷ [])) 0 s0 vals).0 in
    let rounds = recvs ++ (end ∷ []) in
    let (es, ends, prints', frees') =
      after_send_lem q p rounds first s t vals' b 4 received empty in
    (
      q_stat fields ∷ es,
      rw (makes, main)
          (ap (λ x. Option.map (λ es. q_stat fields ∷ es) (after_send q p rounds (first, x))) sent
            ∙ ap (Option.map (λ es. q_stat fields ∷ es)) ends),
      prints' ∙ ap₂ ◌++◌ none_printed (back ∙ values ∙ ap (numbered 0) four),
      frees' ∙ ap₂ (λ xs ys. xs ++ (ys ++ (b ∷ q ∷ []))) one_freed gone,
    )
