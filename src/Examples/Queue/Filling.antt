-- ===== src/Examples/Queue/Filling.antt =====
-- One transfer of the program, and what a queue without room or without messages answers.
use ohmylib.Prelude.{
  ℕ, ◌*◌, ◌<◌, ◌≡◌, ◌≢◌, ◌⊎◌, refl, sym, ap, Bool, false, inl, inr, none, some, List, [], ◌∷◌, ◌++◌,
  length, Disjoint,
}
use mathlib.Core.Path.{subst}
use ohmylib.Prelude.Int.{pos}
use ohmylib.Prelude.Words.{read_bytes-store_pointer}
use ohmylib.Queue.State.{Queue, Shared, returns, fails, enospc, queue_is_full_locked}
use ohmylib.Queue.Deadline.{Timespec, deadline}
use ohmylib.Queue.Transfer.{cond_write, queue_put, queue_send, queue_send_wait}
use ohmylib.Queue.Waiting.{AllLeave, EndsWaiting, wait_loop_keeps, wait_loop_finishes}
use ohmylib.Queue.Progress.{first_free, send_free}
use ohmylib.Examples.Queue.{alone, shared_of}
use ohmylib.Examples.Queue.Keeping.{
  Keeps, with_pointer, Keeps-with_pointer, Keeps-put, full_lem, room_lem,
}

-- A wait ends by a result other than 0.
abbrev pub TimesOut : List ℕ → Type 0
TimesOut [] = ⊥
TimesOut (r ∷ rs) = (r ≢ 0) ⊎ TimesOut rs

pub alone-EndsWaiting : (s : Shared) (waits : List ℕ) → TimesOut waits → EndsWaiting (alone s waits)
alone-EndsWaiting s [] h = absurd h
alone-EndsWaiting s (r ∷ rs) (inl h) = inl h
alone-EndsWaiting s (r ∷ rs) (inr h) = inr (alone-EndsWaiting s rs h)

pub alone-AllLeave : (s : Shared) (waits : List ℕ) → AllLeave (λ t. t ≡ s) (alone s waits)
alone-AllLeave s [] = tt
alone-AllLeave s (r ∷ rs) = (refl, alone-AllLeave s rs)

pub alone-first_free :
    (busy : Queue → Bool) (s : Shared) (waits : List ℕ)
    → busy s.queue ≡ false
    → first_free busy s 0 (alone s waits) ≡ some s
alone-first_free busy s [] h = rw h refl
alone-first_free busy s (r ∷ rs) h = rw h refl

-- The variable `s` at `p` lies outside the allocated buffer at `b` of a queue of `n` pointers, which
-- holds `ptrs`.
pub record Holds (p b n : ℕ) (s : Shared) (ptrs : List ℕ) : Type 0 where
  pub keeps : Keeps b n s ptrs
  pub owned : s.queue.statically_allocated ≡ false
  pub outside : Disjoint p 8 b (n * 8)

module _ (p b n : ℕ) (s : Shared) (ptrs : List ℕ) (h : Holds p b n s ptrs) where
  pub Holds-with_pointer : (v : ℕ) → Holds p b n (with_pointer p v s) ptrs
  Holds-with_pointer v = record {
    keeps = Keeps-with_pointer b n s ptrs h.keeps p h.outside v;
    owned = h.owned;
    outside = h.outside;
  }

  -- A send while there is room.
  pub send_room :
      (now : Timespec) (waits : List ℕ) (v : ℕ)
      → length ptrs < n
      → let s' = with_pointer p v s in
        let o = queue_send now (alone s' waits) (some s') p (pos 1000) in
        (o.reply ≡ some (returns (pos 0))) × Holds p b n (shared_of s' o) (ptrs ++ (v ∷ []))
  send_room now waits v room =
      let s' = with_pointer p v s in
      let room_left = room_lem b n s ptrs h.keeps room in
      let (replied, left) =
        send_free now (pos 1000) p (alone s' waits) s' s'
          (alone-first_free queue_is_full_locked s' waits room_left) in
      (
        replied,
        subst (λ t. Holds p b n t (ptrs ++ (v ∷ [])))
            (sym (ap (λ o. elim o [ none ↦ s' | some t ↦ t ]) left))
            (record {
              keeps =
                  Keeps-put b n s' ptrs (Holds-with_pointer v).keeps p v room
                    (read_bytes-store_pointer p v s.memory);
              owned = unfold queue_put in h.owned;
              outside = h.outside;
            }),
      )

  -- A send where there is none: the queue is left as it was.
  pub send_full :
      (now : Timespec) (waits : List ℕ) (v : ℕ)
      → TimesOut waits
      → length ptrs ≡ n
      → let s' = with_pointer p v s in
        let o = queue_send now (alone s' waits) (some s') p (pos 1000) in
        (o.reply ≡ some (fails enospc)) × (o.shared ≡ some s')
  unfolding queue_send queue_send_wait
  send_full now waits v out e =
      let s' = with_pointer p v s in
      let full = full_lem b n s ptrs h.keeps e in
      let kept =
        wait_loop_keeps queue_is_full_locked cond_write (deadline now (pos 1000)) (λ t. t ≡ s')
          (alone s' waits) s' 0 (alone-AllLeave s' waits) refl in
      let finished =
        wait_loop_finishes queue_is_full_locked cond_write (deadline now (pos 1000))
          (alone s' waits) s' 0 (inr (alone-EndsWaiting s' waits out)) in
      rw (full, finished, kept) (rw full (refl, refl))
