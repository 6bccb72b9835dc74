-- ===== src/Mktime/Tests.antt =====
-- kernel/mktime.c at the first second of March 2000.
use hit_os.Common.{◌≡◌, refl, arith}
use hit_os.Common.Int.{pos}
use hit_os.Mktime.{Tm, kernel_mktime}
use hit_os.Mktime.Calendar.{seconds_since_1970, kernel_mktime-eq-seconds}

abbrev march : Tm
march = record { tm_sec = 0; tm_min = 0; tm_hour = 0; tm_mday = 1; tm_mon = 2; tm_year = 100 }

march_seconds : kernel_mktime march ≡ pos 951868800
unfolding kernel_mktime
march_seconds = refl

kernel_mktime-eq-seconds_example : kernel_mktime march ≡ pos (seconds_since_1970 march)
kernel_mktime-eq-seconds_example =
    kernel_mktime-eq-seconds march (omega arith) (omega arith) (omega arith) (omega arith)
      (omega arith) (omega arith) (omega arith) (omega arith)
