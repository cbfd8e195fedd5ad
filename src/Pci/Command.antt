-- ===== src/Pci/Command.antt =====
-- enable_dma of pci.c: what it writes into the command register; pci_map_resource without files.
use ixgbe82599_driver.Base.{
  bind-some, get, pure, ◌>>=◌, ◌∙◌, refl, ℕ, ◌+◌, ◌-◌, ◌/◌, ◌%◌, ◌^◌, ◌<◌, ◌≡◌, ◌∷◌, arith, List,
  Option, none, some, bit_or, if◌then◌else◌, ◌==◌, min, suc, zero,
}
use ixgbe82599_driver.Base.Bits.{bit_or_bit}
use ixgbe82599_driver.World.{
  Event, Env, Trace, World, write_only, fstat, FilePath, Access, map_file, device_file, read_write,
  open_file, close_file, lseek, read_file, write_file,
}
use ixgbe82599_driver.Sys.{call_filling, call, call_into, done, overwrite, written_count}
use ixgbe82599_driver.Pci.{bytes_of16, enable_dma, remove_driver, pci_map_resource, address_of}

-- Bit 2 of a number set, and the other bits as they are.
abbrev pub with_bus_master : ℕ → ℕ
with_bus_master c = if c / 4 % 2 == 0 then c + 4 else c

bit_or_bus_master : (c : ℕ) → bit_or c 4 ≡ with_bus_master c
bit_or_bus_master c = ground (arith, bit_or_bit 2 c)

two_bytes : (r : Option ℕ) (x : ℕ) → overwrite (written_count 2 r) x 0 < 2 ^ 16
two_bytes none x = omega arith
two_bytes (some zero) x = omega arith
two_bytes (some (suc zero)) x = omega arith
two_bytes (some (suc (suc n))) x =
    let two : min (suc (suc n)) 2 ≡ 2 = omega arith in rw two (omega arith)

module _ (env : Env) where
  -- The command register as enable_dma reads it, with the trace and the file at that point: 0 where
  -- the read fails.
  abbrev pub command_read : (fd : Option ℕ) → Trace → ℕ
  command_read fd t =
      overwrite (written_count 2 (env.result t (read_file fd 2))) (env.answer t (read_file fd 2)) 0

  -- enable_dma always returns. It seeks to the command register, reads it, and writes back at the
  -- same place the two bytes that it read with bit 2, the bus master bit, set and all others kept.
  -- Where the read fails it writes the bytes 4, 0, which clears all other bits.
  pub enable_dma_lem :
      (pci_addr : List ℕ) (w : World)
      → let config = open_file (device_file pci_addr "config") read_write in
        let fd = env.result w.trace config in
        let before = done env (lseek fd 4) (done env config w.trace) in
        let c = with_bus_master (command_read fd before) in
        (enable_dma env pci_addr w
          ≡ some (
            tt,
            record w {
              trace = done env (close_file fd) (
                  done env
                    (write_file fd (bytes_of16 c))
                    (done env (lseek fd 4) (done env (read_file fd 2) before)));
            },
          ))
        × (c < 2 ^ 16)
  unfolding enable_dma call call_into
  enable_dma_lem pci_addr w =
      let config = open_file (device_file pci_addr "config") read_write in
      let fd = env.result w.trace config in
      let before = done env (lseek fd 4) (done env config w.trace) in
      let c = command_read fd before in
      (
        rw (bit_or_bus_master c) refl,
        ground (
          arith,
          two_bytes (env.result before (read_file fd 2)) (env.answer before (read_file fd 2)),
        ),
      )

  module _ (pci_addr : List ℕ)
      (unopened : (t : Trace) (p : FilePath) (a : Access) → env.result t (open_file p a) ≡ none)
      (unmapped : (t : Trace) (n o : ℕ) → env.result t (map_file none n o) ≡ none) where
    -- The rest of pci_map_resource with the descriptor -1.
    map_unopened :
        (w : World)
        → (t : Trace) × ((do
          v ← get
          st_size ← call_filling env (fstat none) 8 (env.uninit v.trace 0 % 2 ^ 64)
          address ← call env (map_file none st_size 0)
          pure (address_of address))
              w
            ≡ some (2 ^ 64 - 1, record w { trace = t }))
    unfolding call call_filling
    map_unopened w =
        let r = env.result w.trace (fstat none) in
        let size : ℕ = elim r [
          | none ↦ env.uninit w.trace 0 % 2 ^ 64
          | some _ ↦ env.answer w.trace (fstat none) % 256 ^ 8
        ] in
        let u = Event.call (fstat none) r ∷ w.trace in
        (Event.call (map_file none size 0) none ∷ u, rw (unmapped u size 0) refl)

    open_unopened :
        (p : FilePath) (a : Access) (w : World)
        → call env (open_file p a) w
          ≡ some (none, record w { trace = done env (open_file p a) w.trace })
    unfolding call
    open_unopened p a w = rw (unopened w.trace p a) refl

    remove_unopened :
        (w : World)
        → remove_driver env pci_addr w
          ≡ some (
            tt,
            record w {
              trace =
                  done env (open_file (device_file pci_addr "driver/unbind") write_only) w.trace;
            },
          )
    unfolding remove_driver call
    remove_unopened w = rw (unopened w.trace (device_file pci_addr "driver/unbind") write_only) refl

    -- If no file can be opened, and mmap fails for the descriptor -1, pci_map_resource does not
    -- stop: it returns MAP_FAILED, the address 2^64 - 1, as if it were that of the registers, and
    -- changes nothing but the trace.
    pub pci_map_resource-unopened :
        (w : World)
        → (t : Trace) × (pci_map_resource env pci_addr w
            ≡ some (2 ^ 64 - 1, record w { trace = t }))
    unfolding pci_map_resource
    pci_map_resource-unopened w =
        let w1 : World = record w {
          trace = done env (open_file (device_file pci_addr "driver/unbind") write_only) w.trace;
        } in
        let enabled = enable_dma_lem pci_addr w1 in
        let (t, mapped) = map_unopened _ in
        (
          t,
          bind-some (remove_driver env pci_addr) _ (remove_unopened w)
              ∙ (bind-some (enable_dma env pci_addr) _ enabled.0
                  ∙ (bind-some (call env (open_file (device_file pci_addr "resource0") read_write))
                        _ (open_unopened (device_file pci_addr "resource0") read_write _)
                      ∙ mapped)),
        )
