-- ===== src/Tdriver/Tests.antt =====
-- Runs of tdriver.c, and its theorems there.
use randserver.Base.{ℕ, ◌+◌, ◌-◌, ◌*◌, ◌%◌, ◌≡◌, refl, List, [], ◌∷◌, arith}
use randserver.Tdriver.{Tdriver, pass_msec, update, init, get_new_sec, get_new_100msec}
use randserver.Tdriver.Elapsed.{IsValid, elapsed, updates, latest, pass_msec_lem, updates_lem}

-- 10 seconds and 950 milliseconds in.
abbrev running : Tdriver
running = record {
  utc_base_seconds = 1000000;
  utc_pass_seconds = 10;
  u_clock = 5000;
  sec_tick = 950;
  msec100_tick = 50;
  pass_sec = 0;
  pass_100msec = 0;
}

running-IsValid : IsValid running
running-IsValid = record { seconds = omega arith; tenths = omega arith }

abbrev readings : List (ℕ × ℕ)
readings = (5030, 0) ∷ (5030, 0) ∷ (7100, 0) ∷ []

pass_msec_lem_example :
    IsValid (pass_msec running 170)
    × (elapsed (pass_msec running 170) ≡ elapsed running + 170)
    × ((pass_msec running 170).pass_100msec * 100 + (pass_msec running 170).msec100_tick ≡ 50 + 170)
    × (10 + get_new_sec (pass_msec running 170) ≡ (pass_msec running 170).utc_pass_seconds)
    × (get_new_100msec (pass_msec running 170) ≡ (50 + 170) % 100)
pass_msec_lem_example = pass_msec_lem running 170 running-IsValid (omega arith) (omega arith)

updates_lem_example :
    IsValid (updates running readings)
    × (elapsed (updates running readings) ≡ elapsed running + (latest 5000 readings - 5000))
    × ((updates running readings).u_clock ≡ latest 5000 readings)
updates_lem_example = updates_lem running readings running-IsValid (ground arith) (omega arith)

-- After 170 milliseconds two tenths have passed, and `time_driver_get_new_100msec` gives the 20
-- milliseconds behind them.
new_100msec_remainder :
    ((pass_msec running 170).pass_100msec ≡ 2) × (get_new_100msec (pass_msec running 170) ≡ 20)
unfolding pass_msec get_new_100msec
new_100msec_remainder = (refl, refl)

-- The first update finds the clock where `time_driver_init` read it.
init_quiet : (init 1000000 5000 (5000, 0)).utc_pass_seconds ≡ 0
unfolding init update pass_msec
init_quiet = refl
