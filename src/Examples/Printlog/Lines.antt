-- ===== src/Examples/Printlog/Lines.antt =====
-- What the program shows.
use ohmylib.Prelude.{
  ℕ, ◌≤◌, ◌≡◌, refl, sym, ap, ap₂, ◌∙◌, Bool, some, List, [], ◌∷◌, append-nil, Memory,
}
use ohmylib.Printlog.{Event}
use ohmylib.Printlog.Pieces.{bytes_of, bytes_at}
use ohmylib.Printlog.Shown.{dumps_lem}
use ohmylib.Printlog.Levels.{
  Severity, LogLine, emerg, alert, crit, err, warning, notice, info, debug, printlog, log_of, up_to,
  log_of_lem,
}
use ohmylib.Examples.Printlog.{
  stderr, buf, fdump_prefix, fhexdump_prefix, emerg_text, alert_text, crit_text, err_text,
  warning_text, notice_text, info_text, debug_text, log_lines, report, main,
}

-- The messages in the order of their macros.
abbrev messages : List (Severity × List ℕ)
messages =
    (emerg, emerg_text)
    ∷ (alert, alert_text)
    ∷ (crit, crit_text)
    ∷ (err, err_text)
    ∷ (warning, warning_text)
    ∷ (notice, notice_text)
    ∷ (info, info_text)
    ∷ (debug, debug_text)
    ∷ []

log_lines-log_of :
    (syslog : Bool) (level : ℕ) → log_lines syslog level ≡ log_of syslog level messages
unfolding log_lines printlog
log_lines-log_of syslog level =
    rw (append-nil (printlog syslog level debug debug_text), log_lines) refl

log_lines-up_to :
    (syslog : Bool) (low high : ℕ)
    → low ≤ high
    → log_lines syslog low ≡ up_to low (log_lines syslog high)
log_lines-up_to syslog low high h =
    log_lines-log_of syslog low
    ∙ log_of_lem syslog low high messages h
    ∙ ap (up_to low) (sym (log_lines-log_of syslog high))

-- For a buffer in memory that holds the bytes of the program: both dumps return and show
-- those bytes, and a program built for a lower LOG_LEVEL logs the lines of one built for a
-- higher level that are up to its own, and dumps the same.
pub printlog_main_lem :
    (syslog : Bool) (low high : ℕ) (m : Memory) (p : ℕ)
    → bytes_at m p 18 ≡ buf
    → low ≤ high
    → (es fs : List Event) × (lines : List LogLine) × (main syslog high m p ≡ some (es, fs, lines))
      × (main syslog low m p ≡ some (es, fs, up_to low lines))
      × (bytes_of es ≡ buf)
      × (bytes_of fs ≡ buf)
unfolding main report
printlog_main_lem syslog low high m p stored h =
    let ((es, _, dumped, shown), _) = dumps_lem stderr m p 18 (some fdump_prefix) in
    let (_, (_, fs, _, hexdumped, _, (hexshown, _))) =
      dumps_lem stderr m p 18 (some fhexdump_prefix) in
    (
      es,
      fs,
      log_lines syslog high,
      ap₂ (report (log_lines syslog high)) dumped hexdumped,
      ap₂ (report (log_lines syslog low)) dumped hexdumped
          ∙ ap (λ ls. some (es, fs, ls)) (log_lines-up_to syslog low high h),
      shown ∙ stored,
      hexshown ∙ stored,
    )
