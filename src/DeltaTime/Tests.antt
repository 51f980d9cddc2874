-- ===== src/DeltaTime/Tests.antt =====
-- Runs of bluetoe/link_layer/delta_time.cpp, and the theorems on them.
use bluetoe.Shared.{◌≡◌, refl, none, some}
use bluetoe.DeltaTime.{
  DeltaTime, delta_time, msec, subtract, multiply, divide, times, print, milliseconds,
}
use bluetoe.DeltaTime.Arithmetic.{print_exact, printed_usec}

abbrev interval : DeltaTime
interval = delta_time 30000

abbrev longest : DeltaTime
longest = delta_time 4294967295

abbrev third : DeltaTime
third = delta_time 1342177280

runs :
    (msec 30 ≡ some interval)
    × (msec 4294967 ≡ some (delta_time 4294967000))
    × (msec 4294968 ≡ none)
    × (subtract interval longest ≡ none)
    × (divide longest interval ≡ some 143165)
    × (divide interval (delta_time 0) ≡ none)
    × (times 3 interval ≡ some (delta_time 90000))
    × (print interval ≡ (30, milliseconds))
unfolding msec subtract divide times multiply print
runs = (refl, refl, refl, refl, refl, refl, refl, refl)

print_exact_example : printed_usec (print interval) ≡ 30000
print_exact_example = print_exact interval
