-- ===== src/Recv/Link.antt =====
-- recv/init.c: init_link, init_stats and the wait for the link. The text is that of send/, and so are the definitions.
use ixgbe82599_driver.Base.{ℕ}
use ixgbe82599_driver.World.{Env, Run}
use ixgbe82599_driver.Init
use ixgbe82599_driver.Link

abbrev pub init_link : Env → (addr : ℕ) → Run (Unit {0})
init_link = Init.init_link

abbrev pub init_stats : Env → (addr : ℕ) → Run (Unit {0})
init_stats = Init.init_stats

abbrev pub ixgbe_get_link_speed : Env → (addr : ℕ) → Run ℕ
ixgbe_get_link_speed = Link.ixgbe_get_link_speed

abbrev pub wait_for_link : Env → (addr : ℕ) → Run ℕ
wait_for_link = Link.wait_for_link
