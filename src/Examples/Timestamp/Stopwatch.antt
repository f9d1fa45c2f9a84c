-- ===== src/Examples/Timestamp/Stopwatch.antt =====
-- The program as a stopwatch that knows only the time since the last reset.
use mathlib.Core.Option
use ohmylib.Prelude.{
  ℕ, ◌+◌, ◌-◌, ◌*◌, ◌<◌, ◌≡◌, refl, sym, ◌∙◌, ap, arith, Bool-cases, inl, inr, Option, none, some,
  List, [], ◌∷◌, ◌++◌, if◌then◌else◌,
}
use ohmylib.Prelude.Int.{ℤ, pos}
use ohmylib.Network.{equals}
use ohmylib.Timestamp.{
  Itimerspec, Timers, int32_max, longest, timestamp_create, timestamp_reset, timestamp_elapsed,
}
use ohmylib.Timestamp.Elapsed.{split_time, remaining, to_elapsed_lem}
use ohmylib.Timestamp.Stopwatch.{created_was_set}
use ohmylib.Examples.Timestamp.{
  Event, getchar_once, usage, carriage_return, dump_itimerspec, timestamp_destory, termios_reset,
  KeyRound, show_elapsed, key_round, key_loop, main,
}

abbrev pub elapsed_time : ℕ → Event
elapsed_time e = dump_itimerspec (some (remaining int32_max (split_time e)))

-- The events of a key `e` nanoseconds after the last reset, and the time since then.
unfoldable pub watch_key : ℤ → ℕ → List Event × ℕ
watch_key c e =
    if equals c (pos 104)
    then (carriage_return ∷ usage ∷ [], e)
    else if equals c (pos 101)
    then (elapsed_time e ∷ [], e)
    else if equals c (pos 114)
    then (elapsed_time 0 ∷ [], 0)
    else ([], e)

-- Keys, each with the time before it, up to a 'q'.
unfoldable pub watch : List (ℤ × ℕ) → ℕ → Option (List Event)
watch [] e = none
watch ((c, d) ∷ ks) e =
    let (shown, since) = watch_key c (e + d) in
    let rest = watch ks since in
    if equals c (pos 113) then some shown else Option.map (λ es. shown ++ es) rest

abbrev pub total : List (ℤ × ℕ) → ℕ
total [] = 0
total ((c, d) ∷ ks) = d + total ks

-- Timers whose calls succeed, with the time since each was set to INT32_MAX seconds.
pub record Ages (T : Timers) : Type 1 where
  pub Age : T.World → ℕ → ℕ → Type 0
  pub sets :
      (w : T.World) (tid : ℕ)
      → (w1 : T.World) × (T.timer_settime w tid longest ≡ (pos 0, w1)) × Age w1 tid 0
  pub shows :
      (w : T.World) (tid e : ℕ) (buf : Itimerspec)
      → Age w tid e
      → e < int32_max * 1000000000
      → T.timer_gettime w tid (some buf)
        ≡ (pos 0, some (remaining int32_max (split_time (int32_max * 1000000000 - e))))

module _ (T : Timers) (A : Ages T) (stale : Itimerspec) (tid : ℕ) where
  -- Before each key the time passes that stands beside it.
  abbrev pub Waits : List (KeyRound T) → List (ℤ × ℕ) → Type 0
  Waits [] [] = Unit
  Waits [] (k ∷ ks) = ⊥
  Waits (r ∷ rs) [] = ⊥
  Waits (r ∷ rs) ((c, d) ∷ ks) =
      (r.c ≡ c)
      × ((w : T.World) (e : ℕ) → A.Age w tid e → A.Age (r.later w) tid (e + d))
      × Waits rs ks

  show_elapsed_lem :
      (w : T.World) (e : ℕ)
      → A.Age w tid e
      → e < int32_max * 1000000000
      → show_elapsed T stale tid w ≡ elapsed_time e ∷ []
  unfolding show_elapsed timestamp_elapsed
  show_elapsed_lem w e age lt = rw (
    A.shows w tid e stale age lt,
    to_elapsed_lem int32_max e (omega arith) (omega arith) (omega arith),
  )

  key_round_lem :
      (c : ℤ) (w : T.World) (e : ℕ)
      → A.Age w tid e
      → e < int32_max * 1000000000
      → ((key_round T stale tid c w).0 ≡ (watch_key c e).0)
        × A.Age (key_round T stale tid c w).1 tid (watch_key c e).1
        × ((watch_key c e).1 < e + 1)
  unfolding key_round watch_key timestamp_reset
  key_round_lem c w e age lt =
      let (w1, set, age1) = A.sets w tid in
      let at_once = show_elapsed_lem w1 0 age1 (omega arith) in
      elim (Bool-cases (equals c (pos 104))) [
        | inl h ↦ rw h (refl, age, omega arith)
        | inr h ↦ elim (Bool-cases (equals c (pos 101))) [
          | inl k ↦ rw (h, k) (show_elapsed_lem w e age lt, age, omega arith)
          | inr k ↦ elim (Bool-cases (equals c (pos 114))) [
            | inl r ↦ rw (h, k, r, set) (at_once, age1, omega arith)
            | inr r ↦ rw (h, k, r) (refl, age, omega arith)
          ]
        ]
      ]

  key_loop_lem :
      (rs : List (KeyRound T)) (ks : List (ℤ × ℕ)) (w : T.World) (e : ℕ)
      → Waits rs ks
      → A.Age w tid e
      → e + total ks < int32_max * 1000000000
      → key_loop T stale tid rs w ≡ watch ks e
  unfolding key_loop watch
  key_loop_lem [] [] w e waits age lt = refl
  key_loop_lem [] (k ∷ ks) w e waits age lt = absurd waits
  key_loop_lem (r ∷ rs) [] w e waits age lt = absurd waits
  key_loop_lem (r ∷ rs) ((c, d) ∷ ks) w e (same, waits, more) age lt =
      let (shown, aged, le) = key_round_lem c (r.later w) (e + d) (waits w e age) (omega arith) in
      let rest =
        key_loop_lem rs ks (key_round T stale tid c (r.later w)).1 (watch_key c (e + d)).1 more aged
          (omega arith) in
      rw (same, shown, rest) refl

-- Over timers that count down and are always set and read without an error, where
-- timestamp_create succeeds and the times between the keys add up to less than INT32_MAX
-- seconds, main returns exactly where a 'q' comes; what it prints is what a stopwatch shows
-- that keeps only the time since the creation or the last 'r', and at the end it deletes the
-- timer.
pub timestamp_main_lem :
    (T : Timers) (A : Ages T) (stale : Itimerspec) (rs : List (KeyRound T)) (ks : List (ℤ × ℕ))
    (w : T.World) (w1 : T.World) (tid : ℕ)
    → timestamp_create T w ≡ (pos 0, tid, w1)
    → Waits T A stale tid rs ks
    → total ks < int32_max * 1000000000
    → main T stale rs w
      ≡ Option.map {B = ℤ × List Event}
          (λ es.
            (pos 0, (getchar_once ∷ usage ∷ es) ++ (timestamp_destory tid ∷ termios_reset ∷ [])))
          (watch ks 0)
unfolding main timestamp_reset
timestamp_main_lem T A stale rs ks w w1 tid made waits lt =
    let (w2, set, age) = A.sets (T.timer_create w).2 tid in
    let same : (pos 0, w2) ≡ (pos 0, w1) = sym set ∙ created_was_set T w w1 tid made in
    let set_now : A.Age w1 tid 0 = rw (← ap (λ (x : ℤ × T.World). x.1) same) age in
    rw (made, key_loop_lem T A stale tid rs ks w1 0 waits set_now (omega arith)) refl
