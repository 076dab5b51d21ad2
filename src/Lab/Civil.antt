-- ===== src/Lab/Civil.antt =====
-- Dates as people write them, and what the C library documents localtime to give for them.
use computer_networks_lab.Prelude.{ℕ, ◌-◌, ◌^◌, ◌≤◌, ◌<◌, ◌++◌}
use computer_networks_lab.Libc.Text.{Bytes, codes}
use computer_networks_lab.Libc.Decimal.{decimal}
use computer_networks_lab.Lab.Date.{Tm}

-- The month is counted from 1.
pub record Civil : Type 0 where
  pub year : ℕ
  pub month : ℕ
  pub day : ℕ
  pub hour : ℕ
  pub minute : ℕ
  pub second : ℕ

-- Years that an int holds, from 1900 on; a second may be a leap second.
pub record IsCivil (d : Civil) : Type 0 where
  pub since : 1900 ≤ d.year
  pub until : d.year < 2 ^ 31
  pub first : 1 ≤ d.month
  pub last : d.month ≤ 12
  pub days : d.day ≤ 31
  pub hours : d.hour < 24
  pub minutes : d.minute < 60
  pub seconds : d.second ≤ 60

-- tm_mon are the months since January, tm_year the years since 1900.
abbrev pub broken_down : Civil → Tm
broken_down d = record {
  tm_mday = d.day;
  tm_mon = d.month - 1;
  tm_year = d.year - 1900;
  tm_hour = d.hour;
  tm_min = d.minute;
  tm_sec = d.second;
}

-- The day, the months since January and the years since 1900, then the time.
abbrev pub shown_date : Civil → Bytes
shown_date d =
    codes "now "
    ++ (decimal d.day
        ++ (codes "-"
            ++ (decimal (d.month - 1)
                ++ (codes "-"
                    ++ (decimal (d.year - 1900)
                        ++ (codes " "
                            ++ (decimal d.hour
                                ++ (codes ":"
                                    ++ (decimal d.minute
                                        ++ (codes ":" ++ (decimal d.second ++ codes "")))))))))))
