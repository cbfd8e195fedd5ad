-- ===== src/Link.antt =====
-- send/init.c and recv/init.c: the speed of the link, and the wait for the link to come up.
pub mod Waiting
use ixgbe82599_driver.Base.{
  ℕ, zero, suc, ◌+◌, ◌-◌, ◌%◌, ◌^◌, Bool, ◌&&◌, pure, fault, ◌>>=◌, ◌>>◌, bit_and, ◌==◌, ltb,
  if◌then◌else◌,
}
use ixgbe82599_driver.Ixgbe.Flags
use ixgbe82599_driver.Ixgbe.Registers.{links}
use ixgbe82599_driver.World.{Env, Run}
use ixgbe82599_driver.Mmio.{get_reg32, sleep_us}

-- What ixgbe_get_link_speed makes of the LINKS register, in Mbit/s; 0 while the link is down.
unfoldable pub link_speed_of : ℕ → ℕ
link_speed_of link_speed =
    let field = bit_and link_speed Flags.links_speed_82599 in
    if bit_and link_speed Flags.links_up == 0
    then 0
    else if field == Flags.links_speed_100_82599
    then 100
    else if field == Flags.links_speed_1g_82599
    then 1000
    else if field == Flags.links_speed_10g_82599
    then 10000
    else 0

abbrev pub max_wait_us : ℕ
max_wait_us = 10000000

abbrev pub poll_interval_us : ℕ
poll_interval_us = 100000

module _ (env : Env) (addr : ℕ) where
  unfoldable pub ixgbe_get_link_speed : Run ℕ
  ixgbe_get_link_speed = do link_speed ← get_reg32 env addr links; pure (link_speed_of link_speed)

  -- The loop of wait_for_link, on fuel; its result is the speed that it reports.
  unfoldable pub wait_for_link_loop : (fuel max_wait : ℕ) → Run ℕ
  wait_for_link_loop zero max_wait = fault
  wait_for_link_loop (suc fuel) max_wait = do
    speed ← ixgbe_get_link_speed
    if (speed == 0) && ltb 0 max_wait
        then sleep_us poll_interval_us
          >> wait_for_link_loop fuel ((max_wait + 2 ^ 32 - poll_interval_us) % 2 ^ 32)
        else pure speed

  -- 101 loads fit into the 100 intervals of the longest wait.
  unfoldable pub wait_for_link : Run ℕ
  wait_for_link = wait_for_link_loop 101 max_wait_us
