-- ===== src/Mktime.antt =====
-- kernel/mktime.c: the seconds since 1970 of a broken-down time. The fields of `struct tm` are
-- numbers from 0 on and `tm_year` is at least 70, which the file takes for granted ("we don't care
-- about years<1970").
pub mod Calendar
mod Tests
use hit_os.Common.{
  ℕ, ◌+◌, ◌-◌, ◌*◌, ◌/◌, ◌%◌, not, ◌&&◌, List, [], ◌∷◌, ltb, ◌==◌, if◌then◌else◌, get_or,
}
use hit_os.Common.Int.{ℤ, pos, wrap32}

-- include/time.h, the fields that are read
pub record Tm : Type 0 where
  pub tm_sec : ℕ
  pub tm_min : ℕ
  pub tm_hour : ℕ
  pub tm_mday : ℕ
  pub tm_mon : ℕ
  pub tm_year : ℕ

abbrev pub minute : ℕ
minute = 60

abbrev pub hour : ℕ
hour = 60 * minute

abbrev pub day : ℕ
day = 24 * hour

abbrev pub year : ℕ
year = 365 * day

-- The seconds before each month of a leap year.
abbrev pub month : List ℕ
month =
    0
    ∷ (day * 31)
    ∷ (day * (31 + 29))
    ∷ (day * (31 + 29 + 31))
    ∷ (day * (31 + 29 + 31 + 30))
    ∷ (day * (31 + 29 + 31 + 30 + 31))
    ∷ (day * (31 + 29 + 31 + 30 + 31 + 30))
    ∷ (day * (31 + 29 + 31 + 30 + 31 + 30 + 31))
    ∷ (day * (31 + 29 + 31 + 30 + 31 + 30 + 31 + 31))
    ∷ (day * (31 + 29 + 31 + 30 + 31 + 30 + 31 + 31 + 30))
    ∷ (day * (31 + 29 + 31 + 30 + 31 + 30 + 31 + 31 + 30 + 31))
    ∷ (day * (31 + 29 + 31 + 30 + 31 + 30 + 31 + 31 + 30 + 31 + 30))
    ∷ []

-- The sums of a `long` wrap around; that of the end is the same.
unfoldable pub kernel_mktime : Tm → ℤ
unfolding wrap32
kernel_mktime tm =
    let y = tm.tm_year - 70 in
    let res = year * y + day * ((y + 1) / 4) + get_or month tm.tm_mon 0 in
    let res' = if ltb 1 tm.tm_mon && not ((y + 2) % 4 == 0) then res - day else res in
    wrap32
      (pos (res' + day * (tm.tm_mday - 1) + hour * tm.tm_hour + minute * tm.tm_min + tm.tm_sec))
