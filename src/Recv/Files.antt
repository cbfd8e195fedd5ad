-- ===== src/Recv/Files.antt =====
-- recv/lib.h: write_io and read_io. The text is that of send/, and so are the definitions.
use ixgbe82599_driver.Base.{ℕ, Option}
use ixgbe82599_driver.World.{Env, Run}
use ixgbe82599_driver.Sys

abbrev pub write_io32 : Env → (fd : Option ℕ) (value offset : ℕ) → Run (Unit {0})
write_io32 = Sys.write_io32

abbrev pub write_io16 : Env → (fd : Option ℕ) (value offset : ℕ) → Run (Unit {0})
write_io16 = Sys.write_io16

abbrev pub write_io8 : Env → (fd : Option ℕ) (value offset : ℕ) → Run (Unit {0})
write_io8 = Sys.write_io8

abbrev pub read_io32 : Env → (fd : Option ℕ) (offset : ℕ) → Run ℕ
read_io32 = Sys.read_io32

abbrev pub read_io16 : Env → (fd : Option ℕ) (offset : ℕ) → Run ℕ
read_io16 = Sys.read_io16

abbrev pub read_io8 : Env → (fd : Option ℕ) (offset : ℕ) → Run ℕ
read_io8 = Sys.read_io8
