-- ===== src/Clock.antt =====
-- send/stats.h and recv/stats.c: monotonic_time.
use ixgbe82599_driver.Base.{ℕ, ◌+◌, ◌*◌, ◌/◌, ◌%◌, ◌^◌, some}
use ixgbe82599_driver.World.{Event, Env, Run, clock_gettime, emit}

abbrev pub one_second : ℕ
one_second = 1000 * 1000 * 1000

module _ (env : Env) where
  -- The structure that clock_gettime fills holds the seconds behind the nanoseconds.
  unfoldable pub monotonic_time : Run ℕ
  monotonic_time w =
      let timespec = env.answer w.trace clock_gettime in
      let tv_sec = timespec / 2 ^ 64 in
      let tv_nsec = timespec % 2 ^ 64 in
      some (
        (tv_sec * 1000 * 1000 * 1000 + tv_nsec) % 2 ^ 64,
        emit (Event.call clock_gettime (some 0)) w,
      )
