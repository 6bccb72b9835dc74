-- ===== src/Mktime/Calendar.antt =====
-- The calendar from 1970 on with a leap year every fourth year, which is the Gregorian one up to
-- 2099, day by day: the specification of kernel/mktime.c.
use hit_os.Common.{
  ℕ, zero, suc, ◌+◌, ◌-◌, ◌*◌, ◌/◌, ◌%◌, ◌^◌, ◌≤◌, ◌<◌, ◌≡◌, refl, ap, ◌∙◌, Bool, true, false, ◌&&◌,
  not, arith, ltb, ◌==◌, if◌then◌else◌, get_or, List, [], ◌∷◌,
}
use hit_os.Common.Int.{pos, wrap32, wrap32_small}
use hit_os.Mktime.{Tm, kernel_mktime, month}

abbrev pub is_leap : ℕ → Bool
is_leap y = y % 4 == 0

-- Year `n` behind 1970 has this many days.
abbrev pub days_in_year : ℕ → ℕ
days_in_year n = if is_leap (1970 + n) then 366 else 365

unfoldable pub days_before_year : ℕ → ℕ
days_before_year zero = 0
days_before_year (suc n) = days_before_year n + days_in_year n

-- The lengths of the months from January on.
abbrev pub month_lengths : Bool → List ℕ
month_lengths leap =
    31 ∷ (if leap then 29 else 28) ∷ 31 ∷ 30 ∷ 31 ∷ 30 ∷ 31 ∷ 31 ∷ 30 ∷ 31 ∷ 30 ∷ 31 ∷ []

abbrev pub sum_first : ℕ → List ℕ → ℕ
sum_first zero l = 0
sum_first (suc n) [] = 0
sum_first (suc n) (x ∷ l) = x + sum_first n l

unfoldable pub days_before_month : Bool → ℕ → ℕ
days_before_month leap m = sum_first m (month_lengths leap)

-- The number of seconds from the start of 1970.
unfoldable pub seconds_since_1970 : Tm → ℕ
unfolding days_before_year days_before_month
seconds_since_1970 tm =
    let n = tm.tm_year - 70 in
    let days =
      days_before_year n + days_before_month (is_leap (1970 + n)) tm.tm_mon + (tm.tm_mday - 1) in
    days * 86400 + tm.tm_hour * 3600 + tm.tm_min * 60 + tm.tm_sec

days_before_year_closed : (n : ℕ) → days_before_year n ≡ 365 * n + (n + 1) / 4
unfolding days_before_year
days_before_year_closed zero = refl
days_before_year_closed (suc n) = ground (arith, days_before_year_closed n)

month_table :
    (leap : Bool) (m : ℕ)
    → m < 12
    → get_or month m 0 ≡ 86400 * (days_before_month leap m + (if ltb 1 m && not leap then 1 else 0))
unfolding days_before_month
month_table true zero h = refl
month_table true (suc zero) h = refl
month_table true (suc (suc zero)) h = refl
month_table true (suc (suc (suc zero))) h = refl
month_table true (suc (suc (suc (suc zero)))) h = refl
month_table true (suc (suc (suc (suc (suc zero))))) h = refl
month_table true (suc (suc (suc (suc (suc (suc zero)))))) h = refl
month_table true (suc (suc (suc (suc (suc (suc (suc zero))))))) h = refl
month_table true (suc (suc (suc (suc (suc (suc (suc (suc zero)))))))) h = refl
month_table true (suc (suc (suc (suc (suc (suc (suc (suc (suc zero))))))))) h = refl
month_table true (suc (suc (suc (suc (suc (suc (suc (suc (suc (suc zero)))))))))) h = refl
month_table true (suc (suc (suc (suc (suc (suc (suc (suc (suc (suc (suc zero))))))))))) h = refl
month_table true (suc (suc (suc (suc (suc (suc (suc (suc (suc (suc (suc (suc m)))))))))))) h =
    absurd (omega arith)
month_table false zero h = refl
month_table false (suc zero) h = refl
month_table false (suc (suc zero)) h = refl
month_table false (suc (suc (suc zero))) h = refl
month_table false (suc (suc (suc (suc zero)))) h = refl
month_table false (suc (suc (suc (suc (suc zero))))) h = refl
month_table false (suc (suc (suc (suc (suc (suc zero)))))) h = refl
month_table false (suc (suc (suc (suc (suc (suc (suc zero))))))) h = refl
month_table false (suc (suc (suc (suc (suc (suc (suc (suc zero)))))))) h = refl
month_table false (suc (suc (suc (suc (suc (suc (suc (suc (suc zero))))))))) h = refl
month_table false (suc (suc (suc (suc (suc (suc (suc (suc (suc (suc zero)))))))))) h = refl
month_table false (suc (suc (suc (suc (suc (suc (suc (suc (suc (suc (suc zero))))))))))) h = refl
month_table false (suc (suc (suc (suc (suc (suc (suc (suc (suc (suc (suc (suc m)))))))))))) h =
    absurd (omega arith)

days_before_month-le :
    (leap : Bool) (m : ℕ) → m < 12 → days_before_month leap m ≤ 334 + (if leap then 1 else 0)
unfolding days_before_month
days_before_month-le true zero h = omega arith
days_before_month-le true (suc zero) h = omega arith
days_before_month-le true (suc (suc zero)) h = omega arith
days_before_month-le true (suc (suc (suc zero))) h = omega arith
days_before_month-le true (suc (suc (suc (suc zero)))) h = omega arith
days_before_month-le true (suc (suc (suc (suc (suc zero))))) h = omega arith
days_before_month-le true (suc (suc (suc (suc (suc (suc zero)))))) h = omega arith
days_before_month-le true (suc (suc (suc (suc (suc (suc (suc zero))))))) h = omega arith
days_before_month-le true (suc (suc (suc (suc (suc (suc (suc (suc zero)))))))) h = omega arith
days_before_month-le true (suc (suc (suc (suc (suc (suc (suc (suc (suc zero))))))))) h = omega arith
days_before_month-le true (suc (suc (suc (suc (suc (suc (suc (suc (suc (suc zero)))))))))) h =
    omega arith
days_before_month-le true (suc (suc (suc (suc (suc (suc (suc (suc (suc (suc (suc zero))))))))))) h =
    omega arith
days_before_month-le true (suc (suc (suc (suc (suc (suc (suc (suc (suc (suc (suc (suc m))))))))))))
      h =
    absurd (omega arith)
days_before_month-le false zero h = omega arith
days_before_month-le false (suc zero) h = omega arith
days_before_month-le false (suc (suc zero)) h = omega arith
days_before_month-le false (suc (suc (suc zero))) h = omega arith
days_before_month-le false (suc (suc (suc (suc zero)))) h = omega arith
days_before_month-le false (suc (suc (suc (suc (suc zero))))) h = omega arith
days_before_month-le false (suc (suc (suc (suc (suc (suc zero)))))) h = omega arith
days_before_month-le false (suc (suc (suc (suc (suc (suc (suc zero))))))) h = omega arith
days_before_month-le false (suc (suc (suc (suc (suc (suc (suc (suc zero)))))))) h = omega arith
days_before_month-le false (suc (suc (suc (suc (suc (suc (suc (suc (suc zero))))))))) h =
    omega arith
days_before_month-le false (suc (suc (suc (suc (suc (suc (suc (suc (suc (suc zero)))))))))) h =
    omega arith
days_before_month-le false (suc (suc (suc (suc (suc (suc (suc (suc (suc (suc (suc zero)))))))))))
      h =
    omega arith
days_before_month-le false (suc (suc (suc (suc (suc (suc (suc (suc (suc (suc (suc (suc m))))))))))))
      h =
    absurd (omega arith)

seconds-small :
    (tm : Tm)
    → 70 ≤ tm.tm_year
    → tm.tm_year ≤ 137
    → tm.tm_mon < 12
    → 1 ≤ tm.tm_mday
    → tm.tm_mday ≤ 31
    → tm.tm_hour < 24
    → tm.tm_min < 60
    → tm.tm_sec < 60
    → seconds_since_1970 tm < 2 ^ 31
unfolding seconds_since_1970
seconds-small tm past future m d d' hh mm ss = ground (
  arith,
  days_before_year_closed (tm.tm_year - 70),
  days_before_month-le (is_leap (1970 + (tm.tm_year - 70))) tm.tm_mon m,
)

kernel_mktime-wrap32 :
    (tm : Tm)
    → 70 ≤ tm.tm_year
    → tm.tm_mon < 12
    → 1 ≤ tm.tm_mday
    → kernel_mktime tm ≡ wrap32 (pos (seconds_since_1970 tm))
unfolding kernel_mktime seconds_since_1970
kernel_mktime-wrap32 tm past h first =
    ap (λ (n : ℕ). wrap32 (pos n))
      (ground (
        arith,
        days_before_year_closed (tm.tm_year - 70),
        month_table (is_leap (1970 + (tm.tm_year - 70))) tm.tm_mon h,
      ))

-- For every date from 1970 to the end of 2037, with the month from 0 to 11, the day from 1 to 31 and the
-- time in their ranges, the `long` that `kernel_mktime` returns is the number of seconds since the
-- start of 1970, in the calendar with a leap year every fourth year.
pub kernel_mktime-eq-seconds :
    (tm : Tm)
    → 70 ≤ tm.tm_year
    → tm.tm_year ≤ 137
    → tm.tm_mon < 12
    → 1 ≤ tm.tm_mday
    → tm.tm_mday ≤ 31
    → tm.tm_hour < 24
    → tm.tm_min < 60
    → tm.tm_sec < 60
    → kernel_mktime tm ≡ pos (seconds_since_1970 tm)
kernel_mktime-eq-seconds tm past future m d d' hh mm ss =
    kernel_mktime-wrap32 tm past m d
    ∙ wrap32_small (seconds_since_1970 tm) (seconds-small tm past future m d d' hh mm ss)
