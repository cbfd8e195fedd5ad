-- ===== src/Sys.antt =====
-- The calls of the system on files, and send/lib.h: write_io32, write_io16, write_io8, read_io32,
-- read_io16 and read_io8. The messages that they print are not modelled.
pub mod ReadWrite
use ixgbe82599_driver.Base.{
  ℕ, ◌+◌, ◌*◌, ◌/◌, ◌%◌, ◌^◌, Option, none, some, min, pure, ◌∷◌, ◌>>=◌, ◌>>◌, get,
}
use ixgbe82599_driver.World.{Event, Env, Trace, Run, emit, Call, pread, pwrite}

-- A variable of which the first `count` bytes are overwritten by those of `content`.
abbrev pub overwrite : (count content old : ℕ) → ℕ
overwrite count content old = content % 256 ^ count + old / 256 ^ count * 256 ^ count

-- The bytes that a call wrote into a variable of `size` bytes: none of them where it failed.
abbrev pub written_count : (size : ℕ) → Option ℕ → ℕ
written_count size none = 0
written_count size (some n) = min n size

module _ (env : Env) where
  unfoldable pub call : Call → Run (Option ℕ)
  call c w = let r = env.result w.trace c in some (r, emit (Event.call c r) w)

  -- A call that fills a variable of `size` bytes, which held `old`.
  unfoldable pub call_into : Call → (size old : ℕ) → Run ℕ
  call_into c size old w =
      let r = env.result w.trace c in
      some (overwrite (written_count size r) (env.answer w.trace c) old, emit (Event.call c r) w)

  -- `if (pwrite(fd, &value, sizeof(value), offset) != sizeof(value)) printf(..)`.
  unfoldable pub write_io : (size : ℕ) (fd : Option ℕ) (value offset : ℕ) → Run (Unit {0})
  write_io size fd value offset = call (pwrite fd size (value % 256 ^ size) offset) >> pure tt

  -- The variable `temp` is not initialised, and is returned also where pread fails.
  unfoldable pub read_io : (size : ℕ) (fd : Option ℕ) (offset : ℕ) → Run ℕ
  read_io size fd offset = do
    w ← get
    call_into (pread fd size offset) size (env.uninit w.trace 0 % 256 ^ size)

  abbrev pub write_io32 : (fd : Option ℕ) (value offset : ℕ) → Run (Unit {0})
  write_io32 = write_io 4

  abbrev pub write_io16 : (fd : Option ℕ) (value offset : ℕ) → Run (Unit {0})
  write_io16 = write_io 2

  abbrev pub write_io8 : (fd : Option ℕ) (value offset : ℕ) → Run (Unit {0})
  write_io8 = write_io 1

  abbrev pub read_io32 : (fd : Option ℕ) (offset : ℕ) → Run ℕ
  read_io32 = read_io 4

  abbrev pub read_io16 : (fd : Option ℕ) (offset : ℕ) → Run ℕ
  read_io16 = read_io 2

  abbrev pub read_io8 : (fd : Option ℕ) (offset : ℕ) → Run ℕ
  read_io8 = read_io 1

  -- A call that fills a whole variable of `size` bytes, which held `old`, unless it fails.
  unfoldable pub call_filling : Call → (size old : ℕ) → Run ℕ
  call_filling c size old w =
      let r = env.result w.trace c in
      let filled : ℕ = elim r [ none ↦ old | some _ ↦ env.answer w.trace c % 256 ^ size ] in
      some (filled, emit (Event.call c r) w)

  -- The trace after a call.
  abbrev pub done : Call → Trace → Trace
  done c t = Event.call c (env.result t c) ∷ t
