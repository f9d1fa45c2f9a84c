-- ===== src/Examples/Timestamp/Settings.antt =====
-- What the program makes of the terminal.
use mathlib.Core.Option
use ohmylib.Prelude.{
  ℕ, ◌≡◌, refl, ap, ◌∙◌, Bool-cases, inl, inr, Option, none, some, List, [], ◌∷◌, ◌++◌,
}
use ohmylib.Prelude.Int.{ℤ, pos, ltb_ℤ}
use ohmylib.Network.{equals}
use ohmylib.Terminal
use ohmylib.Terminal.{Termios}
use ohmylib.Terminal.Flags.{IsCooked, termios_reset_restores}
use ohmylib.Timestamp.{Itimerspec, Timers, timestamp_create, timestamp_reset, timestamp_elapsed}
use ohmylib.Examples.Timestamp.{
  Event, getchar_once, usage, carriage_return, gettime_fails, create_fails, dump_itimerspec,
  timestamp_destory, termios_reset, KeyRound, show_elapsed, key_round, key_loop, main,
}

abbrev pub terminal_after : List Event → Termios → Termios
terminal_after [] t = t
terminal_after (getchar_once ∷ es) t = terminal_after es (Terminal.getchar_once t)
terminal_after (termios_reset ∷ es) t = terminal_after es (Terminal.termios_reset t)
terminal_after (e ∷ es) t = terminal_after es t

terminal_after-++ :
    (es fs : List Event) (t : Termios)
    → terminal_after (es ++ fs) t ≡ terminal_after fs (terminal_after es t)
terminal_after-++ [] fs t = refl
terminal_after-++ (getchar_once ∷ es) fs t = terminal_after-++ es fs (Terminal.getchar_once t)
terminal_after-++ (termios_reset ∷ es) fs t = terminal_after-++ es fs (Terminal.termios_reset t)
terminal_after-++ (usage ∷ es) fs t = terminal_after-++ es fs t
terminal_after-++ (carriage_return ∷ es) fs t = terminal_after-++ es fs t
terminal_after-++ (gettime_fails ∷ es) fs t = terminal_after-++ es fs t
terminal_after-++ (create_fails ∷ es) fs t = terminal_after-++ es fs t
terminal_after-++ (dump_itimerspec v ∷ es) fs t = terminal_after-++ es fs t
terminal_after-++ (timestamp_destory v ∷ es) fs t = terminal_after-++ es fs t

-- Events, where there are any, that leave the terminal alone.
Keeps : Termios → Option (List Event) → Type 0
Keeps t none = Unit
Keeps t (some es) = terminal_after es t ≡ t

map-Keeps :
    (t : Termios) (es : List Event) (o : Option (List Event))
    → terminal_after es t ≡ t
    → Keeps t o
    → Keeps t (Option.map (λ fs. es ++ fs) o)
unfolding Keeps
map-Keeps t es none h k = k
map-Keeps t es (some fs) h k = terminal_after-++ es fs t ∙ ap (terminal_after fs) h ∙ k

module _ (T : Timers) (stale : Itimerspec) (tid : ℕ) (t : Termios) where
  show_elapsed_settings : (w : T.World) → terminal_after (show_elapsed T stale tid w) t ≡ t
  unfolding show_elapsed
  show_elapsed_settings w =
      elim (Bool-cases (ltb_ℤ (timestamp_elapsed T w tid (some stale)).0 (pos 0))) [
        | inl f ↦ rw f refl
        | inr f ↦ rw f refl
      ]

  key_round_settings : (c : ℤ) (w : T.World) → terminal_after (key_round T stale tid c w).0 t ≡ t
  unfolding key_round
  key_round_settings c w = elim (Bool-cases (equals c (pos 104))) [
    | inl h ↦ rw h refl
    | inr h ↦ elim (Bool-cases (equals c (pos 101))) [
      | inl k ↦ rw (h, k) (show_elapsed_settings w)
      | inr k ↦ elim (Bool-cases (equals c (pos 114))) [
        | inr r ↦ rw (h, k, r) refl
        | inl r ↦ elim (Bool-cases (ltb_ℤ (timestamp_reset T w tid).0 (pos 0))) [
          | inl f ↦ rw (h, k, r, f) refl
          | inr f ↦ rw (h, k, r, f) (show_elapsed_settings (timestamp_reset T w tid).1)
        ]
      ]
    ]
  ]

  key_loop-Keeps : (rs : List (KeyRound T)) (w : T.World) → Keeps t (key_loop T stale tid rs w)
  unfolding key_loop Keeps
  key_loop-Keeps [] w = tt
  key_loop-Keeps (r ∷ rs) w =
      let shown = key_round_settings r.c (r.later w) in
      let rest = key_loop-Keeps rs (key_round T stale tid r.c (r.later w)).1 in
      elim (Bool-cases (equals r.c (pos 113))) [
        | inl q ↦ rw q shown
        | inr q ↦ rw q (map-Keeps t (key_round T stale tid r.c (r.later w)).0 _ shown rest)
      ]

-- The events of a main that returns leave the flags of a terminal that was in canonical mode
-- with echo as they were.
Restores : Termios → Option (ℤ × List Event) → Type 0
Restores t none = Unit
Restores t (some (ret, es)) = (terminal_after es t).c_lflag ≡ t.c_lflag

ends-Restores :
    (t : Termios) (tid : ℕ) (o : Option (List Event))
    → IsCooked t
    → Keeps (Terminal.getchar_once t) o
    → Restores t (
        Option.map {B = ℤ × List Event}
          (λ es.
            (pos 0, (getchar_once ∷ usage ∷ es) ++ (timestamp_destory tid ∷ termios_reset ∷ [])))
          o)
unfolding Restores Keeps
ends-Restores t tid none cooked k = tt
ends-Restores t tid (some es) cooked k =
    let u = Terminal.getchar_once t in
    ap (λ x. x.c_lflag)
      (terminal_after-++ es (timestamp_destory tid ∷ termios_reset ∷ []) u
        ∙ ap Terminal.termios_reset k)
    ∙ termios_reset_restores t cooked

-- Whatever the calls on the timer return.
main-Restores :
    (T : Timers) (stale : Itimerspec) (rs : List (KeyRound T)) (w : T.World) (t : Termios)
    → IsCooked t
    → Restores t (main T stale rs w)
unfolding main Restores
main-Restores T stale rs w t cooked =
    let (ret, tid, w1) = timestamp_create T w in
    elim (Bool-cases (ltb_ℤ ret (pos 0))) [
      | inl f ↦ rw f refl
      | inr f ↦ rw f (
          ends-Restores t tid (key_loop T stale tid rs w1) cooked
            (key_loop-Keeps T stale tid (Terminal.getchar_once t) rs w1))
    ]
