-- ===== src/Timestamp/Stopwatch.antt =====
-- timestamp_create, timestamp_reset and timestamp_elapsed over timers that count down.
use ohmylib.Prelude.{ℕ, ◌-◌, ◌*◌, ◌<◌, ◌≡◌, arith, some, Bool-cases, inl, inr}
use ohmylib.Prelude.Int.{pos, ltb_ℤ}
use ohmylib.Timestamp.{
  Itimerspec, Timers, int32_max, timestamp_reset, timestamp_create, timestamp_elapsed,
}
use ohmylib.Timestamp.Elapsed.{split_time, remaining, to_elapsed_lem}

-- timer_settime(2): a timer that was set shows its interval, and what remains of its value.
pub record CountsDown (T : Timers) : Type 1 where
  -- The second world is `d` nanoseconds after the first, and no call on the timer was made.
  pub Passes : T.World → T.World → ℕ → ℕ → Type 0
  pub shows :
      (w w1 w2 : T.World) (tid d interval : ℕ) (buf : Itimerspec)
      → T.timer_settime w tid (remaining interval (split_time (interval * 1000000000)))
        ≡ (pos 0, w1)
      → Passes w1 w2 tid d
      → d < interval * 1000000000
      → T.timer_gettime w2 tid (some buf)
        ≡ (pos 0, some (remaining interval (split_time (interval * 1000000000 - d))))

module _ (T : Timers) where
  pub created_was_set :
      (w w1 : T.World) (tid : ℕ)
      → timestamp_create T w ≡ (pos 0, tid, w1)
      → timestamp_reset T (T.timer_create w).2 tid ≡ (pos 0, w1)
  unfolding timestamp_create timestamp_reset
  created_was_set w w1 tid made = elim (Bool-cases (ltb_ℤ (T.timer_create w).0 (pos 0))) [
    | inl e ↦ cc
    | inr e ↦ cc
  ]

module _ (T : Timers) (C : CountsDown T) where
  reset-elapsed :
      (w w1 w2 : T.World) (tid d : ℕ) (buf : Itimerspec)
      → timestamp_reset T w tid ≡ (pos 0, w1)
      → C.Passes w1 w2 tid d
      → d < int32_max * 1000000000
      → timestamp_elapsed T w2 tid (some buf) ≡ (pos 0, some (remaining int32_max (split_time d)))
  unfolding timestamp_reset timestamp_elapsed
  reset-elapsed w w1 w2 tid d buf set passes lt = rw (
    C.shows w w1 w2 tid d int32_max buf set passes lt,
    to_elapsed_lem int32_max d (omega arith) (omega arith) (omega arith),
  )

  -- Over timers that show what remains of the value that they were set to, where
  -- timestamp_create succeeds and d nanoseconds pass, fewer than INT32_MAX seconds,
  -- timestamp_elapsed succeeds and gives d in seconds and nanoseconds.
  pub create-elapsed :
      (w w1 w2 : T.World) (tid d : ℕ) (buf : Itimerspec)
      → timestamp_create T w ≡ (pos 0, tid, w1)
      → C.Passes w1 w2 tid d
      → d < int32_max * 1000000000
      → timestamp_elapsed T w2 tid (some buf) ≡ (pos 0, some (remaining int32_max (split_time d)))
  unfolding timestamp_create
  create-elapsed w w1 w2 tid d buf made passes lt =
      reset-elapsed (T.timer_create w).2 w1 w2 tid d buf (created_was_set T w w1 tid made) passes lt
