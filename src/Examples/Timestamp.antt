-- ===== src/Examples/Timestamp.antt =====
-- examples/timestamp/timestamp.c: a stopwatch by single keys, over the model of timestamp.
pub mod Stopwatch
mod Settings
mod Tests
use mathlib.Core.Option
use ohmylib.Prelude.{ℕ, Bool, Option, none, some, List, [], ◌∷◌, ◌++◌, if◌then◌else◌}
use ohmylib.Prelude.Int.{ℤ, pos, negsuc, ltb_ℤ}
use ohmylib.Network.{equals}
use ohmylib.Timestamp.{Itimerspec, Timers, timestamp_create, timestamp_reset, timestamp_elapsed}

-- What the program prints, and its other calls.
pub data Event : Type 0 where
  getchar_once usage carriage_return gettime_fails create_fails termios_reset : Event
  dump_itimerspec : Option Itimerspec → Event
  timestamp_destory : ℕ → Event

module _ (T : Timers) where
  -- A key, and how the world is when fgetc returns it, from how it was before.
  pub record KeyRound : Type 0 where
    pub c : ℤ
    pub later : T.World → T.World

  -- `stale` is what the struct on the stack has before.
  unfoldable pub show_elapsed : Itimerspec → ℕ → T.World → List Event
  unfolding timestamp_elapsed
  show_elapsed stale tid w =
      let (ret, elapsed_value) = timestamp_elapsed T w tid (some stale) in
      if ltb_ℤ ret (pos 0) then gettime_fails ∷ [] else dump_itimerspec elapsed_value ∷ []

  -- The switch over 'h', 'e' and 'r'.
  unfoldable pub key_round : Itimerspec → ℕ → ℤ → T.World → List Event × T.World
  unfolding show_elapsed timestamp_reset
  key_round stale tid c w =
      let (ret, w1) = timestamp_reset T w tid in
      if equals c (pos 104)
      then (carriage_return ∷ usage ∷ [], w)
      else if equals c (pos 101)
      then (show_elapsed stale tid w, w)
      else if equals c (pos 114)
      then if ltb_ℤ ret (pos 0) then ([], w1) else (show_elapsed stale tid w1, w1)
      else ([], w)

  -- `none` where no 'q' comes.
  unfoldable pub key_loop : Itimerspec → ℕ → List KeyRound → T.World → Option (List Event)
  unfolding key_round
  key_loop stale tid [] w = none
  key_loop stale tid (r ∷ rs) w =
      let (shown, w1) = key_round stale tid r.c (r.later w) in
      let rest = key_loop stale tid rs w1 in
      if equals r.c (pos 113) then some shown else Option.map (λ es. shown ++ es) rest

  unfoldable pub main : Itimerspec → List KeyRound → T.World → Option (ℤ × List Event)
  unfolding key_loop timestamp_create
  main stale rs w =
      let (ret, tid, w1) = timestamp_create T w in
      let ran = key_loop stale tid rs w1 in
      if ltb_ℤ ret (pos 0)
      then some (negsuc 0, create_fails ∷ [])
      else Option.map {B = ℤ × List Event}
          (λ es.
            (pos 0, (getchar_once ∷ usage ∷ es) ++ (timestamp_destory tid ∷ termios_reset ∷ [])))
          ran
