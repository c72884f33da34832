-- ===== src/Client/Bitbucket/Instants.antt =====
-- The instants of commit statuses of Bitbucket Server, which are given in milliseconds.
use froggit_go.Base.{ℕ, zero, suc, ◌+◌, ◌-◌, ◌*◌, ◌/◌, ◌<◌, ℤ, pos, negsuc, ◌≡◌, arith}
use froggit_go.Client.Bitbucket.{time_of_millis, before, minus}

-- The milliseconds and the time are one instant, counted in nanoseconds. Times before 1970 are
-- counted back.
abbrev pub IsInstant : ℤ → ℤ → ℕ → Type 0
IsInstant (pos ms) (pos sec) nanos = ms * 1000000 ≡ sec * 1000000000 + nanos
IsInstant (pos ms) (negsuc sec) nanos = ⊥
IsInstant (negsuc n) (pos sec) nanos = ⊥
IsInstant (negsuc n) (negsuc sec) nanos = suc n * 1000000 + nanos ≡ suc sec * 1000000000

before-IsInstant :
    (n sec rest : ℕ)
    → suc n * 1000000 ≡ sec * 1000000000 + rest
    → rest < 1000000000
    → IsInstant (negsuc n) (before sec rest).unix (before sec rest).nanos
      × ((before sec rest).nanos < 1000000000)
unfolding before minus
before-IsInstant n zero zero e less = absurd (omega arith)
before-IsInstant n (suc sec) zero e less = (omega arith, omega arith)
before-IsInstant n sec (suc rest) e less = (omega arith, omega arith)

-- The time of a status of Bitbucket Server is the instant of its milliseconds, and its nanoseconds
-- are less than a second, for times before 1970 too.
pub time_of_millis-IsInstant :
    (ms : ℤ)
    → IsInstant ms (time_of_millis ms).unix (time_of_millis ms).nanos
      × ((time_of_millis ms).nanos < 1000000000)
unfolding time_of_millis
time_of_millis-IsInstant (pos ms) = (omega arith, omega arith)
time_of_millis-IsInstant (negsuc n) =
    before-IsInstant n (suc n / 1000) ((suc n - suc n / 1000 * 1000) * 1000000) (omega arith)
      (omega arith)
