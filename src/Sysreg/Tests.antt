-- ===== src/Sysreg/Tests.antt =====
-- A date that fits its word.
use ohmylib.Prelude.{arith}
use ohmylib.Sysreg.{Datetime}
use ohmylib.Sysreg.Fields.{Fits}

abbrev new_year : Datetime
new_year = record { day = 1; month = 1; year = 21; hour = 12; minute = 30; second = 59 }

new_year-Fits : Fits new_year
new_year-Fits = record {
  day_fits = omega arith;
  month_fits = omega arith;
  year_fits = omega arith;
  hour_fits = omega arith;
  minute_fits = omega arith;
  second_fits = omega arith;
}
