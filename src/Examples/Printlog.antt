-- ===== src/Examples/Printlog.antt =====
-- examples/printlog/printlog.c: it dumps eighteen bytes twice, and logs a line of each level, over
-- the model of printlog.
pub mod Lines
mod Tests
use ohmylib.Prelude.{ℕ, Bool, Option, none, some, List, [], ◌∷◌, ◌++◌, Memory}
use ohmylib.Printlog.{Event, fdump, fhexdump}
use ohmylib.Printlog.Levels.{
  LogLine, emerg, alert, crit, err, warning, notice, info, debug, printlog,
}

abbrev pub stderr : ℕ
stderr = 2

-- "Hello World", a 0 and the bytes 1 to 6
abbrev pub buf : List ℕ
buf = 72 ∷ 101 ∷ 108 ∷ 108 ∷ 111 ∷ 32 ∷ 87 ∷ 111 ∷ 114 ∷ 108 ∷ 100 ∷ 0 ∷ 1 ∷ 2 ∷ 3 ∷ 4 ∷ 5 ∷ 6 ∷ []

-- "fdump prefix"
abbrev pub fdump_prefix : List ℕ
fdump_prefix = 102 ∷ 100 ∷ 117 ∷ 109 ∷ 112 ∷ 32 ∷ 112 ∷ 114 ∷ 101 ∷ 102 ∷ 105 ∷ 120 ∷ []

-- "fhexdump prefix"
abbrev pub fhexdump_prefix : List ℕ
fhexdump_prefix =
    102 ∷ 104 ∷ 101 ∷ 120 ∷ 100 ∷ 117 ∷ 109 ∷ 112 ∷ 32 ∷ 112 ∷ 114 ∷ 101 ∷ 102 ∷ 105 ∷ 120 ∷ []

-- "emergency, system is unusable"
abbrev pub emerg_text : List ℕ
emerg_text =
    101 ∷ 109 ∷ 101 ∷ 114 ∷ 103 ∷ 101 ∷ 110 ∷ 99 ∷ 121 ∷ 44 ∷ 32 ∷ 115 ∷ 121 ∷ 115 ∷ 116 ∷ 101 ∷ 109
    ∷ 32 ∷ 105 ∷ 115 ∷ 32 ∷ 117 ∷ 110 ∷ 117 ∷ 115 ∷ 97 ∷ 98 ∷ 108 ∷ 101 ∷ []

-- "alert, action must be taken immediately"
abbrev pub alert_text : List ℕ
alert_text =
    97 ∷ 108 ∷ 101 ∷ 114 ∷ 116 ∷ 44 ∷ 32 ∷ 97 ∷ 99 ∷ 116 ∷ 105 ∷ 111 ∷ 110 ∷ 32 ∷ 109 ∷ 117 ∷ 115
    ∷ 116 ∷ 32 ∷ 98 ∷ 101 ∷ 32 ∷ 116 ∷ 97 ∷ 107 ∷ 101 ∷ 110 ∷ 32 ∷ 105 ∷ 109 ∷ 109 ∷ 101 ∷ 100 ∷ 105
    ∷ 97 ∷ 116 ∷ 101 ∷ 108 ∷ 121 ∷ []

-- "we have some critical conditions"
abbrev pub crit_text : List ℕ
crit_text =
    119 ∷ 101 ∷ 32 ∷ 104 ∷ 97 ∷ 118 ∷ 101 ∷ 32 ∷ 115 ∷ 111 ∷ 109 ∷ 101 ∷ 32 ∷ 99 ∷ 114 ∷ 105 ∷ 116
    ∷ 105 ∷ 99 ∷ 97 ∷ 108 ∷ 32 ∷ 99 ∷ 111 ∷ 110 ∷ 100 ∷ 105 ∷ 116 ∷ 105 ∷ 111 ∷ 110 ∷ 115 ∷ []

-- "some error condition"
abbrev pub err_text : List ℕ
err_text =
    115 ∷ 111 ∷ 109 ∷ 101 ∷ 32 ∷ 101 ∷ 114 ∷ 114 ∷ 111 ∷ 114 ∷ 32 ∷ 99 ∷ 111 ∷ 110 ∷ 100 ∷ 105 ∷ 116
    ∷ 105 ∷ 111 ∷ 110 ∷ []

-- "some warning conditions"
abbrev pub warning_text : List ℕ
warning_text =
    115 ∷ 111 ∷ 109 ∷ 101 ∷ 32 ∷ 119 ∷ 97 ∷ 114 ∷ 110 ∷ 105 ∷ 110 ∷ 103 ∷ 32 ∷ 99 ∷ 111 ∷ 110 ∷ 100
    ∷ 105 ∷ 116 ∷ 105 ∷ 111 ∷ 110 ∷ 115 ∷ []

-- "normal, but significant, condition"
abbrev pub notice_text : List ℕ
notice_text =
    110 ∷ 111 ∷ 114 ∷ 109 ∷ 97 ∷ 108 ∷ 44 ∷ 32 ∷ 98 ∷ 117 ∷ 116 ∷ 32 ∷ 115 ∷ 105 ∷ 103 ∷ 110 ∷ 105
    ∷ 102 ∷ 105 ∷ 99 ∷ 97 ∷ 110 ∷ 116 ∷ 44 ∷ 32 ∷ 99 ∷ 111 ∷ 110 ∷ 100 ∷ 105 ∷ 116 ∷ 105 ∷ 111 ∷ 110
    ∷ []

-- "informational message"
abbrev pub info_text : List ℕ
info_text =
    105 ∷ 110 ∷ 102 ∷ 111 ∷ 114 ∷ 109 ∷ 97 ∷ 116 ∷ 105 ∷ 111 ∷ 110 ∷ 97 ∷ 108 ∷ 32 ∷ 109 ∷ 101 ∷ 115
    ∷ 115 ∷ 97 ∷ 103 ∷ 101 ∷ []

-- "debug message"
abbrev pub debug_text : List ℕ
debug_text = 100 ∷ 101 ∷ 98 ∷ 117 ∷ 103 ∷ 32 ∷ 109 ∷ 101 ∷ 115 ∷ 115 ∷ 97 ∷ 103 ∷ 101 ∷ []

-- For a LOG_LEVEL, with PRINTLOG_SYSLOG or not.
unfoldable pub log_lines : Bool → ℕ → List LogLine
unfolding printlog
log_lines syslog level =
    printlog syslog level emerg emerg_text
    ++ (printlog syslog level alert alert_text
        ++ (printlog syslog level crit crit_text
            ++ (printlog syslog level err err_text
                ++ (printlog syslog level warning warning_text
                    ++ (printlog syslog level notice notice_text
                        ++ (printlog syslog level info info_text
                            ++ (printlog syslog level debug debug_text)))))))

-- What each dump does and the lines of the log, from what the two calls return.
unfoldable pub report :
    List LogLine
    → ℕ × Option (List Event)
    → ℕ × Option (List Event)
    → Option (List Event × List Event × List LogLine)
report lines (_, some es) (_, some fs) = some (es, fs, lines)
report lines (_, some es) (_, none) = none
report lines (_, none) _ = none

-- For a buffer at `p`.
unfoldable pub main : Bool → ℕ → Memory → ℕ → Option (List Event × List Event × List LogLine)
unfolding report
main syslog level m p =
    report (log_lines syslog level) (fdump stderr m p 18 (some fdump_prefix))
      (fhexdump stderr m p 18 (some fhexdump_prefix))
