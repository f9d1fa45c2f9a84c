-- ===== src/Examples/Printlog/Tests.antt =====
-- The log of the program for the least level, and for a level between.
use ohmylib.Prelude.{◌≡◌, refl, true, false, [], ◌∷◌}
use mathlib.Core.List.{map}
use ohmylib.Printlog.Levels.{emerg, alert, crit, err, warning}
use ohmylib.Examples.Printlog.{log_lines}

errors_only :
    (map (λ l. l.severity) (log_lines true 0) ≡ emerg ∷ [])
    × (map (λ l. l.severity) (log_lines false 4) ≡ emerg ∷ alert ∷ crit ∷ err ∷ warning ∷ [])
unfolding log_lines
errors_only = (refl, refl)
