-- ===== src/Tdriver.antt =====
-- engine/tool/tdriver.c: time passed in milliseconds, seconds and tenths of a second. The readings of
-- `msec_clock` and `time` are arguments; the local time `tm_time`, which the C library computes from
-- the seconds, is left out.
pub mod Elapsed
mod Tests
use randserver.Base.{
  ℕ, ◌+◌, ◌-◌, ◌*◌, ◌/◌, ◌%◌, ◌^◌, Bool, true, false, ltb, if◌then◌else◌, u32, u64,
}

-- `time_driver`
pub record Tdriver : Type 0 where
  pub utc_base_seconds : ℕ
  pub utc_pass_seconds : ℕ
  pub u_clock : ℕ
  pub sec_tick : ℕ
  pub msec100_tick : ℕ
  pub pass_sec : ℕ
  pub pass_100msec : ℕ

-- `time_driver_pass_msec`
pub pass_msec : Tdriver → ℕ → Tdriver
pass_msec td msec =
    let sec_tick = u32 (td.sec_tick + msec) in
    let msec100_tick = u32 (td.msec100_tick + msec) in
    record td {
      pass_sec = sec_tick / 1000;
      sec_tick = sec_tick % 1000;
      pass_100msec = msec100_tick / 100;
      msec100_tick = msec100_tick % 100;
      utc_pass_seconds = u32 (td.utc_pass_seconds + sec_tick / 1000);
    }

-- `time_driver_update`: `now` is the first reading of the clock and `again` the second, which is
-- taken if the first lies before the last update.
pub update : Tdriver → ℕ × ℕ → Tdriver
update td (now, again) =
    let since = u32 (u64 (again + 2 ^ 64 - td.u_clock)) in
    let back =
      pass_msec (record td { u_clock = again })
        (if ltb again td.u_clock then u32 again else since) in
    let on = pass_msec (record td { u_clock = now }) (u32 (u64 (now + 2 ^ 64 - td.u_clock))) in
    if ltb now td.u_clock then back else on

-- `time_driver_init`, with the result of `time(0)`, the reading of the clock, and those of the update.
pub init : ℕ → ℕ → ℕ × ℕ → Tdriver
init seconds clock readings =
    update
      (record {
        utc_base_seconds = u32 seconds;
        utc_pass_seconds = 0;
        u_clock = clock;
        sec_tick = 0;
        msec100_tick = 0;
        pass_sec = 0;
        pass_100msec = 0;
      })
      readings

-- `time_driver_get_new_sec`
pub get_new_sec : Tdriver → ℕ
get_new_sec td = td.pass_sec

-- `time_driver_get_new_100msec`
pub get_new_100msec : Tdriver → ℕ
get_new_100msec td = td.msec100_tick
