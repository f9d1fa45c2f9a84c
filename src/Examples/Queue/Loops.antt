-- ===== src/Examples/Queue/Loops.antt =====
-- The two loops, and the program from its queue on.
use ohmylib.Prelude.{
  ℕ, suc, ◌+◌, ◌^◌, ◌<◌, ◌≡◌, ◌≢◌, refl, sym, ap, ap₂, ◌∙◌, arith, Bool-cases, inl, inr, some, List,
  [], ◌∷◌, ◌++◌, append_assoc, append-nil, ◌==◌, ==_false, length, length-append,
}
use mathlib.Core.List.{map}
use mathlib.Core.Path.{subst}
use ohmylib.Prelude.Int.{pos}
use ohmylib.Prelude.Words.{load_pointer}
use ohmylib.Queue.State.{Shared, returns, fails, enospc, eagain}
use ohmylib.Queue.Transfer.{queue_send, queue_recv}
use ohmylib.Examples.Vector.{Values, store}
use ohmylib.Examples.Vector.Filling.{IsFresh, numbered, store_self}
use ohmylib.Examples.Queue.{
  Event, prints, frees, alone, q_stat, SendRound, SendEnd, send_done, shared_of, send_loop,
  RecvRound, recv_loop,
}
use ohmylib.Examples.Queue.Keeping.{with_pointer}
use ohmylib.Examples.Queue.Filling.{TimesOut, Holds, Holds-with_pointer, send_room, send_full}
use ohmylib.Examples.Queue.Emptying.{recv_more, recv_none}

abbrev pub printed : List Event → List ℕ
printed [] = []
printed (prints v ∷ es) = v ∷ printed es
printed (e ∷ es) = printed es

abbrev pub freed : List Event → List ℕ
freed [] = []
freed (frees q ∷ es) = q ∷ freed es
freed (e ∷ es) = freed es

abbrev pub pointers : List SendRound → List ℕ
pointers [] = []
pointers (r ∷ rs) = r.calloc_ret ∷ pointers rs

-- calloc gives a new struct each time.
abbrev pub Allocates : List SendRound → Type 0
Allocates [] = Unit
Allocates (r ∷ rs) =
    (r.calloc_ret ≢ 0)
    × (r.calloc_ret < 256 ^ 8)
    × IsFresh r.calloc_ret (pointers rs)
    × Allocates rs

-- A send that answers 0, and one that finds no room.
send_step :
    (p i : ℕ) (r : SendRound) (rs : List SendRound) (s : Shared) (vals : Values)
    → r.calloc_ret ≢ 0
    → let s' = with_pointer p r.calloc_ret s in
      let o = queue_send r.now (alone s' r.waits) (some s') p (pos 1000) in
      let rest = send_loop p rs (suc i) (shared_of s' o) (store r.calloc_ret (i + 1) vals) in
      o.reply ≡ some (returns (pos 0))
      → (printed (send_loop p (r ∷ rs) i s vals).0 ≡ printed rest.0)
        × (freed (send_loop p (r ∷ rs) i s vals).0 ≡ freed rest.0)
        × ((send_loop p (r ∷ rs) i s vals).1 ≡ rest.1)
unfolding send_loop q_stat
send_step p i r rs s vals ne e = elim (Bool-cases (i == 3)) [
  | inl f ↦ rw (==_false r.calloc_ret 0 ne, e, f) (refl, refl, refl)
  | inr f ↦ rw (==_false r.calloc_ret 0 ne, e, f) (refl, refl, refl)
]

send_last :
    (p i : ℕ) (r : SendRound) (rs : List SendRound) (s : Shared) (vals : Values)
    → r.calloc_ret ≢ 0
    → let s' = with_pointer p r.calloc_ret s in
      let o = queue_send r.now (alone s' r.waits) (some s') p (pos 1000) in
      o.reply ≡ some (fails enospc)
      → o.shared ≡ some s'
      → (printed (send_loop p (r ∷ rs) i s vals).0 ≡ [])
        × (freed (send_loop p (r ∷ rs) i s vals).0 ≡ r.calloc_ret ∷ [])
        × ((send_loop p (r ∷ rs) i s vals).1 ≡ send_done s' (store r.calloc_ret (i + 1) vals))
unfolding send_loop q_stat
send_last p i r rs s vals ne e l = elim (Bool-cases (i == 3)) [
  | inl f ↦ rw (==_false r.calloc_ret 0 ne, e, f, l) (refl, refl, refl)
  | inr f ↦ rw (==_false r.calloc_ret 0 ne, e, f, l) (refl, refl, refl)
]

pub pointers-snoc :
    (rs : List SendRound) (r : SendRound)
    → pointers (rs ++ (r ∷ [])) ≡ pointers rs ++ (r.calloc_ret ∷ [])
pointers-snoc [] r = refl
pointers-snoc (q ∷ rs) r = ap (λ ps. q.calloc_ret ∷ ps) (pointers-snoc rs r)

-- What the first loop leaves: a queue of all pointers but the last, and the values of all.
abbrev pub Fills :
    ℕ → ℕ → ℕ → List ℕ → ℕ → List SendRound → ℕ → Values → List Event × SendEnd → Type 0
Fills p b n ptrs i rs last vals (es, end) =
    (printed es ≡ [])
    × (freed es ≡ last ∷ [])
    × ((s' : Shared) × (vals' : Values) × (end ≡ send_done s' vals')
        × Holds p b n s' (ptrs ++ pointers rs)
        × (map vals' (pointers rs) ≡ numbered i (length rs))
        × ((a : ℕ) → IsFresh a (pointers rs ++ (last ∷ [])) → vals' a ≡ vals a))

pub send_loop_lem :
    (p b n : ℕ) (rs : List SendRound) (r : SendRound) (later : List SendRound) (i : ℕ) (s : Shared)
    (ptrs : List ℕ) (vals : Values)
    → Holds p b n s ptrs
    → length ptrs + length rs ≡ n
    → Allocates (rs ++ (r ∷ []))
    → TimesOut r.waits
    → Fills p b n ptrs i rs r.calloc_ret vals (send_loop p (rs ++ (r ∷ later)) i s vals)
send_loop_lem p b n [] r later i s ptrs vals h full al out =
    let (replied, left) =
      send_full p b n s ptrs h r.now r.waits r.calloc_ret out (omega (arith, full)) in
    let (none_printed, one_freed, end) = send_last p i r later s vals al.0 replied left in
    (
      none_printed,
      one_freed,
      (
        with_pointer p r.calloc_ret s,
        store r.calloc_ret (i + 1) vals,
        end,
        subst (λ ps. Holds p b n (with_pointer p r.calloc_ret s) ps) (sym (append-nil ptrs))
            (Holds-with_pointer p b n s ptrs h r.calloc_ret),
        refl,
        λ a fresh. rw (==_false a r.calloc_ret (λ e. fresh.0 (sym e))) refl,
      ),
    )
send_loop_lem p b n (q ∷ rs) r later i s ptrs vals h full al out =
    let c = q.calloc_ret in
    let vals1 = store c (i + 1) vals in
    let o =
      queue_send q.now (alone (with_pointer p c s) q.waits) (some (with_pointer p c s)) p
        (pos 1000) in
    let t = shared_of (with_pointer p c s) o in
    let (replied, holds) = send_room p b n s ptrs h q.now q.waits c (omega (arith, full)) in
    let (same_printed, same_freed, same_end) =
      send_step p i q (rs ++ (r ∷ later)) s vals al.0 replied in
    let (none_printed, one_freed, rest) =
      send_loop_lem p b n rs r later (suc i) t (ptrs ++ (c ∷ [])) vals1 holds
        (omega (arith, full, length-append ptrs (c ∷ []))) al.3 out in
    let (s', vals', end, held, values, kept) = rest in
    let fresh : IsFresh c (pointers rs ++ (r.calloc_ret ∷ [])) =
      subst (IsFresh c) (pointers-snoc rs r) al.2 in
    (
      same_printed ∙ none_printed,
      same_freed ∙ one_freed,
      (
        s',
        vals',
        same_end ∙ end,
        subst (λ ps. Holds p b n s' ps) (append_assoc ptrs (c ∷ []) (pointers rs)) held,
        ap₂ ◌∷◌ (kept c fresh ∙ store_self vals c (i + 1)) values,
        λ a (other, others). kept a others ∙ rw (==_false a c (λ e. other (sym e))) refl,
      ),
    )

recv_step :
    (p : ℕ) (q : RecvRound) (rs : List RecvRound) (s : Shared) (vals : Values)
    → let s' = with_pointer p 0 s in
      let o = queue_recv q.now (alone s' q.waits) (some s') p (pos 1000) in
      let t = shared_of s' o in
      let v = load_pointer p t.memory in
      let rest = recv_loop p rs t vals in
      o.reply ≡ some (returns (pos 0))
      → recv_loop p (q ∷ rs) s vals ≡ (prints (vals v) ∷ frees v ∷ rest.0, rest.1)
unfolding recv_loop
recv_step p q rs s vals e = rw (e, recv_loop) refl

recv_last :
    (p : ℕ) (q : RecvRound) (rs : List RecvRound) (s : Shared) (vals : Values)
    → let s' = with_pointer p 0 s in
      let o = queue_recv q.now (alone s' q.waits) (some s') p (pos 1000) in
      o.reply ≡ some (fails eagain)
      → o.shared ≡ some s'
      → recv_loop p (q ∷ rs) s vals ≡ ([], some s')
unfolding recv_loop
recv_last p q rs s vals e l = rw (e, l, recv_loop) refl

abbrev pub AreSmall : List ℕ → Type 0
AreSmall [] = Unit
AreSmall (v ∷ vs) = (v < 256 ^ 8) × AreSmall vs

pub recv_loop_lem :
    (p b n : ℕ) (rs : List RecvRound) (r : RecvRound) (later : List RecvRound) (s : Shared)
    (ptrs : List ℕ) (vals : Values)
    → Holds p b n s ptrs
    → length ptrs ≡ length rs
    → AreSmall ptrs
    → TimesOut r.waits
    → let (es, end) = recv_loop p (rs ++ (r ∷ later)) s vals in
      (printed es ≡ map vals ptrs)
      × (freed es ≡ ptrs)
      × ((t : Shared) × (end ≡ some t) × Holds p b n t [])
recv_loop_lem p b n [] r later s [] vals h e small out =
    let (replied, left) = recv_none p b n s r.now r.waits h out in
    rw (recv_last p r later s vals replied left)
      (refl, refl, (with_pointer p 0 s, refl, Holds-with_pointer p b n s [] h 0))
recv_loop_lem p b n [] r later s (v ∷ ptrs) vals h e small out = absurd (omega (arith, e))
recv_loop_lem p b n (q ∷ rs) r later s [] vals h e small out = absurd (omega (arith, e))
recv_loop_lem p b n (q ∷ rs) r later s (v ∷ ptrs) vals h e small out =
    let (replied, holds, loaded) = recv_more p b n s q.now q.waits v ptrs h small.0 in
    let o =
      queue_recv q.now (alone (with_pointer p 0 s) q.waits) (some (with_pointer p 0 s)) p
        (pos 1000) in
    let (same_printed, same_freed, rest) =
      recv_loop_lem p b n rs r later (shared_of (with_pointer p 0 s) o) ptrs vals holds
        (omega (arith, e)) small.1 out in
    rw (recv_step p q (rs ++ (r ∷ later)) s vals replied)
      (ap₂ ◌∷◌ (ap vals loaded) same_printed, ap₂ ◌∷◌ loaded same_freed, rest)
