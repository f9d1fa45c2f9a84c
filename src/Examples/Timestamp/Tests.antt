-- ===== src/Examples/Timestamp/Tests.antt =====
-- A run of the stopwatch over a timer that is the time since it was set.
use ohmylib.Prelude.{ℕ, ◌+◌, ◌-◌, ◌*◌, ◌≡◌, refl, ap, arith, some, List, [], ◌∷◌}
use ohmylib.Prelude.Int.{ℤ, pos}
use ohmylib.Network.{equals}
use ohmylib.Timestamp.{Itimerspec, Timers, int32_max, timestamp_create, timestamp_reset}
use ohmylib.Timestamp.Elapsed.{split_time, remaining}
use ohmylib.Examples.Timestamp.{
  getchar_once, usage, carriage_return, timestamp_destory, termios_reset, KeyRound, main,
}
use ohmylib.Examples.Timestamp.Stopwatch.{Ages, elapsed_time, watch, watch_key, timestamp_main_lem}

abbrev one_timer : Timers
one_timer = record {
  World = ℕ;
  timer_create = λ w. (pos 0, 4, w);
  timer_settime = λ w tid s. (pos 0, 0);
  timer_gettime =
      λ w tid buf. (pos 0, some (remaining int32_max (split_time (int32_max * 1000000000 - w))));
  timer_delete = λ w tid. w;
}

abbrev ages : Ages one_timer
ages = record {
  Age = λ w tid e. w ≡ e;
  sets = λ w tid. (0, refl, refl);
  shows = λ w tid e buf age lt. rw age refl;
}

abbrev key : ℕ → ℕ → KeyRound one_timer
key c d = record { c = pos c; later = λ w. w + d }

abbrev keys : List (KeyRound one_timer)
keys = key 101 2500000000 ∷ key 114 7 ∷ key 101 3000000001 ∷ key 104 1 ∷ key 113 0 ∷ []

abbrev delays : List (ℤ × ℕ)
delays =
    (pos 101, 2500000000) ∷ (pos 114, 7) ∷ (pos 101, 3000000001) ∷ (pos 104, 1) ∷ (pos 113, 0) ∷ []

abbrev unread : Itimerspec
unread = remaining 0 (split_time 0)

passes : (d w e : ℕ) → w ≡ e → w + d ≡ e + d
passes d w e age = ap (λ n. n + d) age

timestamp_main_example :
    main one_timer unread keys 77
    ≡ some (
      pos 0,
      getchar_once
          ∷ usage
          ∷ elapsed_time 2500000000
          ∷ elapsed_time 0
          ∷ elapsed_time 3000000001
          ∷ carriage_return
          ∷ usage
          ∷ timestamp_destory 4
          ∷ termios_reset
          ∷ [],
    )
unfolding watch watch_key equals
timestamp_main_example =
    timestamp_main_lem one_timer ages unread keys delays 77 0 4
      (unfold timestamp_create timestamp_reset in refl)
      (
        refl,
        passes 2500000000,
        (refl, passes 7, (refl, passes 3000000001, (refl, passes 1, (refl, passes 0, tt)))),
      )
      (omega arith)
