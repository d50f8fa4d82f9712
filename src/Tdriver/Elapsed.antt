-- ===== src/Tdriver/Elapsed.antt =====
-- No time is lost over the updates of a time driver.
use randserver.Base.{
  ℕ, ◌+◌, ◌-◌, ◌*◌, ◌%◌, ◌^◌, ◌≤◌, ◌<◌, ◌≡◌, refl, ap, List, [], ◌∷◌, le→ltb, u32, u64, arith,
}
use randserver.Tdriver.{Tdriver, pass_msec, update, get_new_sec, get_new_100msec}

-- The remainders are less than a second and a tenth of one.
pub record IsValid (td : Tdriver) : Type 0 where
  pub seconds : td.sec_tick < 1000
  pub tenths : td.msec100_tick < 100

-- The milliseconds counted so far.
abbrev pub elapsed : Tdriver → ℕ
elapsed td = td.utc_pass_seconds * 1000 + td.sec_tick

-- Passing less than 2 ^ 31 milliseconds, while the total stays below 2 ^ 32 seconds, counts every
-- one of them, as whole seconds and a remainder and as whole tenths and a remainder;
-- `time_driver_get_new_sec` gives the new whole seconds, but `time_driver_get_new_100msec` the
-- remainder of the tenths.
pub pass_msec_lem :
    (td : Tdriver) (msec : ℕ)
    → IsValid td
    → msec < 2 ^ 31
    → elapsed td + msec < 2 ^ 32 * 1000
    → IsValid (pass_msec td msec)
      × (elapsed (pass_msec td msec) ≡ elapsed td + msec)
      × ((pass_msec td msec).pass_100msec * 100 + (pass_msec td msec).msec100_tick
          ≡ td.msec100_tick + msec)
      × (td.utc_pass_seconds + get_new_sec (pass_msec td msec)
          ≡ (pass_msec td msec).utc_pass_seconds)
      × (get_new_100msec (pass_msec td msec) ≡ (td.msec100_tick + msec) % 100)
unfolding pass_msec get_new_sec get_new_100msec
pass_msec_lem td msec v small room = (
  record { seconds = omega arith; tenths = omega arith },
  omega (arith, v.seconds),
  omega (arith, v.tenths),
  omega (arith, v.seconds),
  omega (arith, v.tenths),
)

-- One update after another.
pub updates : Tdriver → List (ℕ × ℕ) → Tdriver
updates td [] = td
updates td (r ∷ rs) = updates (update td r) rs

-- The readings of the clock do not fall, start no earlier than `clock`, and lie less than 2 ^ 31
-- milliseconds apart.
abbrev pub IsAscending : ℕ → List (ℕ × ℕ) → Type 0
IsAscending clock [] = Unit
IsAscending clock (r ∷ rs) =
    (clock ≤ r.0) × (r.0 < clock + 2 ^ 31) × (r.0 < 2 ^ 64) × IsAscending r.0 rs

-- The last reading.
abbrev pub latest : ℕ → List (ℕ × ℕ) → ℕ
latest clock [] = clock
latest clock (r ∷ rs) = latest r.0 rs

latest-ge : (clock : ℕ) (rs : List (ℕ × ℕ)) → IsAscending clock rs → clock ≤ latest clock rs
latest-ge clock [] a = omega arith
latest-ge clock (r ∷ rs) a = omega (arith, a.0, latest-ge r.0 rs a.3)

-- An update on a clock that has not fallen passes the milliseconds since the last one.
update-pass_msec :
    (td : Tdriver) (r : ℕ × ℕ)
    → td.u_clock ≤ r.0
    → r.0 < td.u_clock + 2 ^ 31
    → r.0 < 2 ^ 64
    → update td r ≡ pass_msec (record td { u_clock = r.0 }) (r.0 - td.u_clock)
unfolding update
update-pass_msec td r low near wide =
    let since : u32 (u64 (r.0 + 2 ^ 64 - td.u_clock)) ≡ r.0 - td.u_clock = omega arith in
    rw (le→ltb r.0 td.u_clock low, since) refl

pass_msec-clock : (td : Tdriver) (msec : ℕ) → (pass_msec td msec).u_clock ≡ td.u_clock
unfolding pass_msec
pass_msec-clock td msec = refl

updates_once :
    (td : Tdriver) (r : ℕ × ℕ) (rs : List (ℕ × ℕ)) {td' : Tdriver}
    → update td r ≡ td'
    → updates td (r ∷ rs) ≡ updates td' rs
unfolding updates
updates_once td r rs e = ap (λ x. updates x rs) e

updates_from :
    (td : Tdriver) (clock : ℕ) (rs : List (ℕ × ℕ))
    → IsValid td
    → td.u_clock ≡ clock
    → IsAscending clock rs
    → elapsed td + (latest clock rs - clock) < 2 ^ 32 * 1000
    → IsValid (updates td rs)
      × (elapsed (updates td rs) ≡ elapsed td + (latest clock rs - clock))
      × ((updates td rs).u_clock ≡ latest clock rs)
updates_from td clock [] v at a room = unfold updates in (v, omega arith, at)
updates_from td clock (r ∷ rs) v at a room =
    let td' : Tdriver = record td { u_clock = r.0 } in
    let v' : IsValid td' = record { seconds = v.seconds; tenths = v.tenths } in
    let msec = r.0 - td.u_clock in
    let later = latest-ge r.0 rs a.3 in
    let passed = pass_msec_lem td' msec v' (omega (arith, a.1)) (omega (arith, a.0, later)) in
    let (valid', counted', at') =
      updates_from (pass_msec td' msec) r.0 rs passed.0 (pass_msec-clock td' msec) a.3
        (omega (arith, passed.1, a.0, later)) in
    rw (updates_once td r rs (update-pass_msec td r (omega (arith, a.0)) (omega (arith, a.1)) a.2))
      (valid', omega (arith, counted', passed.1, a.0, later), at')

-- Over any number of updates on a clock of 64 bits that does not fall and whose readings lie less
-- than 2 ^ 31 milliseconds apart, while the total stays below 2 ^ 32 seconds, the milliseconds
-- counted are those between the clock at the start and its last reading: none is lost between the
-- updates. The remainders stay less than a second and a tenth of one.
pub updates_lem :
    (td : Tdriver) (rs : List (ℕ × ℕ))
    → IsValid td
    → IsAscending td.u_clock rs
    → elapsed td + (latest td.u_clock rs - td.u_clock) < 2 ^ 32 * 1000
    → IsValid (updates td rs)
      × (elapsed (updates td rs) ≡ elapsed td + (latest td.u_clock rs - td.u_clock))
      × ((updates td rs).u_clock ≡ latest td.u_clock rs)
updates_lem td rs v a room = updates_from td td.u_clock rs v refl a room
