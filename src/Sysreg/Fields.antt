-- ===== src/Sysreg/Fields.antt =====
-- The date in its word of bit fields.
use ohmylib.Prelude.{ℕ, ◌^◌, ◌<◌, ◌≡◌, arith}
use ohmylib.Sysreg.{Datetime, datetime_of_raw, raw_of_datetime}

-- Each field has the bits that are declared for it.
pub record Fits (d : Datetime) : Type 0 where
  pub day_fits : d.day < 32
  pub month_fits : d.month < 16
  pub year_fits : d.year < 64
  pub hour_fits : d.hour < 32
  pub minute_fits : d.minute < 64
  pub second_fits : d.second < 64

-- A date whose fields fit their bits is what is read back from its word, and a word of 32 bits
-- is that of the date it is read as.
pub datetime_lem :
    (d : Datetime) (raw : ℕ)
    → Fits d
    → raw < 2 ^ 32
    → (datetime_of_raw (raw_of_datetime d) ≡ d) × (raw_of_datetime (datetime_of_raw raw) ≡ raw)
unfolding datetime_of_raw raw_of_datetime
datetime_lem d raw f h = (ground arith, omega arith)
