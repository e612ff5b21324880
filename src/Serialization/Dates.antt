-- ===== src/Serialization/Dates.antt =====
-- JavaScript's `Date.prototype.toISOString` for the years 1970 to 9999.
use Prim.Native.Nat.{◌/◌, ◌%◌}
use ratel_financial_platform.Prelude.{ℕ, ◌+◌, ◌-◌, ◌*◌, String, [], ◌∷◌, ltb, if◌then◌else◌}
use ratel_financial_platform.Prelude.Texts.{concat}
use ratel_financial_platform.Serialization.Decimal.{print_natural}

abbrev pad2 : ℕ → String
pad2 n = if ltb n 10 then concat ("0" ∷ print_natural n ∷ []) else print_natural n

abbrev pad3 : ℕ → String
pad3 n = if ltb n 100 then concat ("0" ∷ pad2 n ∷ []) else print_natural n

pub record Civil : Type 0 where
  pub year : ℕ
  pub month : ℕ
  pub day : ℕ

-- The date of a day counted from 1970-01-01, by eras of 146097 days that start in March.
unfoldable pub civil_of_days : ℕ → Civil
civil_of_days days =
    let z = days + 719468 in
    let era = z / 146097 in
    let doe = z % 146097 in
    let yoe = (doe - doe / 1460 + doe / 36524 - doe / 146096) / 365 in
    let doy = doe - (365 * yoe + yoe / 4 - yoe / 100) in
    let mp = (5 * doy + 2) / 153 in
    let day = doy - (153 * mp + 2) / 5 + 1 in
    if ltb mp 10
    then record { year = yoe + era * 400; month = mp + 3; day = day }
    else record { year = yoe + era * 400 + 1; month = mp - 9; day = day }

unfoldable pub iso_text : ℕ → String
iso_text ms =
    let date = civil_of_days (ms / 86_400_000) in
    let second = ms % 86_400_000 / 1000 in
    concat (
      print_natural date.year
      ∷ "-"
      ∷ pad2 date.month
      ∷ "-"
      ∷ pad2 date.day
      ∷ "T"
      ∷ pad2 (second / 3600)
      ∷ ":"
      ∷ pad2 (second / 60 % 60)
      ∷ ":"
      ∷ pad2 (second % 60)
      ∷ "."
      ∷ pad3 (ms % 1000)
      ∷ "Z"
      ∷ [])
