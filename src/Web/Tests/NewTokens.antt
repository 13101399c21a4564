-- ===== src/Web/Tests/NewTokens.antt =====
-- web/static/js/openfsd/configeditor.js: the form for an API token at concrete inputs.
use openfsd.Prelude.{◌≡◌, refl, [], ◌++◌, arith}
use openfsd.Prelude.Bytes.{codes}
use openfsd.Web.Dates.{Day, day_text, date_utc}
use openfsd.Web.Dates.Rolled.{IsDay}
use openfsd.Web.ConfigEditor.NewToken.{posts, submit_create_token, submit-day_text}

abbrev leap_day : Day
leap_day = record { year = 2028; month = 2; day = 29 }

leap_day-IsDay : IsDay leap_day
leap_day-IsDay = record {
  month_low = omega arith;
  month_high = omega arith;
  day_low = omega arith;
  day_high = omega arith;
}

submit-day_text_example :
    submit_create_token [] (day_text leap_day) ≡ posts (day_text leap_day ++ codes "T00:00:00.000Z")
submit-day_text_example = submit-day_text [] leap_day leap_day-IsDay (omega arith) (omega arith)

-- The thirtieth of February rolls over.
posted : submit_create_token [] (codes "2027-02-30") ≡ posts (codes "2027-03-02T00:00:00.000Z")
unfolding submit_create_token date_utc
posted = refl
