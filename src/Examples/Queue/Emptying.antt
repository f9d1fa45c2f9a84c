-- ===== src/Examples/Queue/Emptying.antt =====
-- A receive of the program, with and without messages.
use ohmylib.Prelude.{ℕ, ◌^◌, ◌<◌, ◌≡◌, refl, sym, ap, inr, none, some, List, [], ◌∷◌}
use mathlib.Core.Path.{subst}
use ohmylib.Prelude.Int.{pos}
use ohmylib.Prelude.Words.{load_pointer}
use ohmylib.Queue.State.{Shared, returns, fails, eagain, queue_is_empty_locked}
use ohmylib.Queue.Deadline.{Timespec, deadline}
use ohmylib.Queue.Transfer.{cond_read, queue_take, queue_recv, queue_recv_wait}
use ohmylib.Queue.Waiting.{wait_loop_keeps, wait_loop_finishes}
use ohmylib.Queue.Progress.{recv_free}
use ohmylib.Examples.Queue.{alone, shared_of}
use ohmylib.Examples.Queue.Keeping.{with_pointer, Keeps-take, more_lem, empty_lem}
use ohmylib.Examples.Queue.Filling.{
  TimesOut, alone-EndsWaiting, alone-AllLeave, alone-first_free, Holds, Holds-with_pointer,
}

module _ (p b n : ℕ) (s : Shared) where
  pub recv_more :
      (now : Timespec) (waits : List ℕ) (v : ℕ) (rest : List ℕ)
      → Holds p b n s (v ∷ rest)
      → v < 256 ^ 8
      → let s' = with_pointer p 0 s in
        let o = queue_recv now (alone s' waits) (some s') p (pos 1000) in
        (o.reply ≡ some (returns (pos 0)))
        × Holds p b n (shared_of s' o) rest
        × (load_pointer p (shared_of s' o).memory ≡ v)
  recv_more now waits v rest h small =
      let s' = with_pointer p 0 s in
      let t = queue_take p s' in
      let stored = (Holds-with_pointer p b n s (v ∷ rest) h 0).keeps in
      let (replied, left) =
        recv_free now (pos 1000) p (alone s' waits) s' s'
          (alone-first_free queue_is_empty_locked s' waits (more_lem b n s v rest h.keeps)) in
      let (kept, loaded) = Keeps-take b n s' v rest p stored h.outside small in
      let here : Holds p b n t rest = record {
        keeps = kept;
        owned = unfold queue_take in h.owned;
        outside = h.outside;
      } in
      let same : t ≡ shared_of s' (queue_recv now (alone s' waits) (some s') p (pos 1000)) =
        sym (ap (λ o. elim o [ none ↦ s' | some u ↦ u ]) left) in
      (
        replied,
        subst (λ u. Holds p b n u rest) same here,
        subst (λ u. load_pointer p u.memory ≡ v) same loaded,
      )

  pub recv_none :
      (now : Timespec) (waits : List ℕ)
      → Holds p b n s []
      → TimesOut waits
      → let s' = with_pointer p 0 s in
        let o = queue_recv now (alone s' waits) (some s') p (pos 1000) in
        (o.reply ≡ some (fails eagain)) × (o.shared ≡ some s')
  unfolding queue_recv queue_recv_wait
  recv_none now waits h out =
      let s' = with_pointer p 0 s in
      let empty = empty_lem b n s h.keeps in
      let kept =
        wait_loop_keeps queue_is_empty_locked cond_read (deadline now (pos 1000)) (λ t. t ≡ s')
          (alone s' waits) s' 0 (alone-AllLeave s' waits) refl in
      let finished =
        wait_loop_finishes queue_is_empty_locked cond_read (deadline now (pos 1000))
          (alone s' waits) s' 0 (inr (alone-EndsWaiting s' waits out)) in
      rw (empty, finished, kept) (rw empty (refl, refl))
