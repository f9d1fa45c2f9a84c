-- ===== src/Printlog/Levels.antt =====
-- The logging macros of includes/printlog.h, and the level that they are compiled for.
use ohmylib.Prelude.{
  ℕ, ◌≤◌, ◌≡◌, refl, sym, ap, ◌∙◌, arith, Bool, true, false, Option, none, some, List, [], ◌∷◌,
  ◌++◌, leb, if◌then◌else◌,
}

pub data Severity : Type 0 where
  emerg alert crit err warning notice info debug : Severity

-- LOG_EMERG to LOG_DEBUG.
abbrev pub number : Severity → ℕ
number emerg = 0
number alert = 1
number crit = 2
number err = 3
number warning = 4
number notice = 5
number info = 6
number debug = 7

-- A line of the log: its label by the severity, its colour where it goes to stderr, whether it
-- names the place of the call, and its text.
pub record LogLine : Type 0 where
  pub severity : Severity
  pub colour : Option ℕ
  pub located : Bool
  pub text : List ℕ

abbrev pub log_line : Bool → Severity → ℕ → Bool → List ℕ → List LogLine
log_line syslog s colour located text =
    record {
      severity = s;
      colour = if syslog then none else some colour;
      located = located;
      text = text;
    }
    ∷ []

-- PRINTLOG_EMERG to PRINTLOG_DEBUG: with PRINTLOG_SYSLOG or not, for a LOG_LEVEL.
unfoldable pub printlog : Bool → ℕ → Severity → List ℕ → List LogLine
printlog syslog level emerg text = if leb 0 level then log_line syslog emerg 31 false text else []
printlog syslog level alert text = if leb 1 level then log_line syslog alert 31 false text else []
printlog syslog level crit text = if leb 2 level then log_line syslog crit 31 false text else []
printlog syslog level err text = if leb 3 level then log_line syslog err 31 false text else []
printlog syslog level warning text =
    if leb 4 level then log_line syslog warning 33 false text else []
printlog syslog level notice text = if leb 5 level then log_line syslog notice 37 false text else []
printlog syslog level info text = if leb 6 level then log_line syslog info 32 false text else []
printlog syslog level debug text = if leb 7 level then log_line syslog debug 36 true text else []

-- What a sequence of uses of the macros logs.
abbrev pub log_of : Bool → ℕ → List (Severity × List ℕ) → List LogLine
log_of syslog level [] = []
log_of syslog level ((s, text) ∷ ms) = printlog syslog level s text ++ log_of syslog level ms

-- The lines up to a severity.
abbrev pub up_to : ℕ → List LogLine → List LogLine
up_to level [] = []
up_to level (l ∷ ls) = if leb (number l.severity) level then l ∷ up_to level ls else up_to level ls

up_to-printlog :
    (syslog : Bool) (low high : ℕ) (s : Severity) (text : List ℕ) (ls : List LogLine)
    → low ≤ high
    → up_to low (printlog syslog high s text ++ ls) ≡ printlog syslog low s text ++ up_to low ls
unfolding printlog
up_to-printlog syslog low high emerg text ls h = ground arith
up_to-printlog syslog low high alert text ls h = ground arith
up_to-printlog syslog low high crit text ls h = ground arith
up_to-printlog syslog low high err text ls h = ground arith
up_to-printlog syslog low high warning text ls h = ground arith
up_to-printlog syslog low high notice text ls h = ground arith
up_to-printlog syslog low high info text ls h = ground arith
up_to-printlog syslog low high debug text ls h = ground arith

-- For two values of LOG_LEVEL, what a sequence of messages logs at the lower one is what it
-- logs at the other without the lines above the lower level: raising the level only adds
-- lines.
pub log_of_lem :
    (syslog : Bool) (low high : ℕ) (ms : List (Severity × List ℕ))
    → low ≤ high
    → log_of syslog low ms ≡ up_to low (log_of syslog high ms)
log_of_lem syslog low high [] h = refl
log_of_lem syslog low high ((s, text) ∷ ms) h =
    ap (λ ls. printlog syslog low s text ++ ls) (log_of_lem syslog low high ms h)
    ∙ sym (up_to-printlog syslog low high s text (log_of syslog high ms) h)
