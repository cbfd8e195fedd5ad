-- ===== src/Sys/ReadWrite.antt =====
-- read_io and write_io of lib.h on a file that keeps what is written to it.
use ixgbe82599_driver.Base.{
  ℕ, ◌%◌, ◌^◌, ◌∙◌, ap, ◌<◌, ◌≡◌, refl, [], ◌∷◌, some, min, arith, ◌>>◌, ◌==◌, if◌then◌else◌,
  ==_iff, true,
}
use ixgbe82599_driver.Base.Memory.{Memory, Apart, load, store, load-store, load-store-Apart}
use native.Mathlib.Nat.{one-le-pow, mod-eq_of_lt, div-eq_of_lt, mod-lt}
use ixgbe82599_driver.World.{Event, Trace, Env, World, pread, pwrite}
use ixgbe82599_driver.Sys.{call, call_into, done, overwrite, read_io, write_io}

-- A variable of which all bytes are overwritten.
all_overwritten :
    (size content old : ℕ)
    → content < 256 ^ size
    → overwrite size content (old % 256 ^ size) ≡ content
all_overwritten size content old fits =
    let some_bytes : 0 < 256 ^ size = one-le-pow size 256 (omega arith) in
    ground (
      arith,
      mod-eq_of_lt fits,
      div-eq_of_lt {n = old % 256 ^ size} {m = 256 ^ size},
      mod-lt old some_bytes,
    )

-- What one event leaves of a file: a pwrite to it that returns n stores the first n bytes.
abbrev apply_event : (fd : ℕ) → Event → Memory → Memory
apply_event fd (Event.call (pwrite (some f) size value offset) (some n)) m =
    if f == fd then store n offset value m else m
apply_event fd e m = m

-- The bytes of a file, from those at the start and the calls of pwrite so far.
unfoldable pub contents : (fd : ℕ) (start : Memory) → Trace → Memory
contents fd start [] = start
contents fd start (e ∷ t) = apply_event fd e (contents fd start t)

-- A file that takes and gives all the bytes asked for, and holds those that pwrite left.
pub record KeepsFile (env : Env) (fd : ℕ) (start : Memory) : Type 0 where
  pub writes_all :
      (t : Trace) (size value offset : ℕ)
      → env.result t (pwrite (some fd) size value offset) ≡ some size
  pub reads_all :
      (t : Trace) (size offset : ℕ) → env.result t (pread (some fd) size offset) ≡ some size
  pub holds :
      (t : Trace) (size offset : ℕ)
      → env.answer t (pread (some fd) size offset) ≡ load size offset (contents fd start t)

module _ (env : Env) (fd : ℕ) (start : Memory) (file : KeepsFile env fd start) where
  -- The contents after a pwrite.
  contents-done :
      (t : Trace) (size value offset : ℕ)
      → contents fd start (done env (pwrite (some fd) size value offset) t)
        ≡ store size offset value (contents fd start t)
  unfolding contents
  contents-done t size value offset =
      let here : (fd == fd) ≡ true = (==_iff fd fd).1 refl in
      rw (file.writes_all t size value offset, here) refl

  -- read_io of a file that keeps what is written gives the bytes of the file.
  read_io-contents :
      (size offset : ℕ) (w : World)
      → load size offset (contents fd start w.trace) < 256 ^ size
      → read_io env size (some fd) offset w
        ≡ some (
          load size offset (contents fd start w.trace),
          record w { trace = done env (pread (some fd) size offset) w.trace },
        )
  unfolding read_io call_into
  read_io-contents size offset w lt =
      let whole : min size size ≡ size = omega arith in
      rw
        (
          file.reads_all w.trace size offset,
          file.holds w.trace size offset,
          whole,
          all_overwritten size (load size offset (contents fd start w.trace)) (env.uninit w.trace 0)
              lt,
        )
        refl

  -- On a file that takes and gives all the bytes asked for, and holds what the calls of pwrite left,
  -- whatever it held at the start: what is written with write_io is what read_io gives, cut to the
  -- size of the access, also where write_io was called in between at a range that has no byte in
  -- common.
  pub read_io-write_io :
      (size value offset size' value' offset' : ℕ) (w : World)
      → Apart offset' size' offset size
      → let t = done env (pwrite (some fd) size (value % 256 ^ size) offset) w.trace in
        let t' = done env (pwrite (some fd) size' (value' % 256 ^ size') offset') t in
        (write_io env size (some fd) value offset
            >> (write_io env size' (some fd) value' offset' >> read_io env size (some fd) offset))
          w
        ≡ some (value % 256 ^ size, record w { trace = done env (pread (some fd) size offset) t' })
  unfolding write_io call
  read_io-write_io size value offset size' value' offset' w apart =
      let v = value % 256 ^ size in
      let v' = value' % 256 ^ size' in
      let fits : v < 256 ^ size = mod-lt value (one-le-pow size 256 (omega arith)) in
      let t = done env (pwrite (some fd) size v offset) w.trace in
      let t' = done env (pwrite (some fd) size' v' offset') t in
      let found : load size offset (contents fd start t') ≡ v =
        ap (load size offset) (contents-done t size' v' offset')
        ∙ load-store-Apart size size' offset' v' offset (contents fd start t) apart
        ∙ ap (load size offset) (contents-done w.trace size v offset)
        ∙ load-store size offset v (contents fd start w.trace) fits in
      read_io-contents size offset (record w { trace = t' }) (rw found fits)
      ∙ ap (λ x. some (x, record w { trace = done env (pread (some fd) size offset) t' })) found
