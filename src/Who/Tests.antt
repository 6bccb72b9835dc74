-- ===== src/Who/Tests.antt =====
-- kernel/who.c with the name "zj" at address 100.
use hit_os.Common.{ℕ, ◌+◌, ◌<◌, ◌≡◌, refl, some, arith, update}
use hit_os.Common.Int.{pos}
use hit_os.Who.{Names, sys_iam, sys_whoami}
use hit_os.Who.Laws.{IsString, sys_whoami-sys_iam}

abbrev before : Names
before = record { msg = λ _. 0; user = update (update (λ _. 0) 100 b'z') 101 b'j' }

abbrev endless : Names
endless = record { msg = λ _. 0; user = λ _. 65 }

-- "zj" is stored.
abbrev after : Names
after = record before { msg = update (update (λ _. 0) 0 b'z') 1 b'j' }

before-IsString : IsString (λ i. before.user (100 + i)) 2
before-IsString = (refl, λ i h. ground arith)

after-IsString : IsString after.msg 2
after-IsString = (refl, λ i h. ground arith)

sys_whoami-sys_iam_example :
    (s : Names) × (s' : Names) × (sys_iam 100 before ≡ (pos 2, s))
    × (sys_whoami 200 3 s ≡ some (pos 2, s'))
    × ((j : ℕ) → j < 2 → s'.user (200 + j) ≡ before.user (100 + j))
sys_whoami-sys_iam_example =
    sys_whoami-sys_iam 100 200 3 2 before (omega arith) before-IsString (omega arith)
