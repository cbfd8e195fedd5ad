-- ===== src/Examples/Files.antt =====
-- Files of the device, and VFIO.
use ixgbe82599_driver.Base.{
  ℕ, ◌-◌, ◌^◌, ◌<◌, ◌≡◌, refl, Option, inr, arith, [], ◌∷◌, none, some, ◌>>◌,
}
use ixgbe82599_driver.Base.Memory.{load}
use ixgbe82599_driver.World.{
  Call, Env, Trace, World, close_file, device_file, lseek, open_file, pread, pwrite, read_file,
  read_write, write_file,
}
use ixgbe82599_driver.Sys.{done, read_io, write_io}
use ixgbe82599_driver.Sys.ReadWrite.{contents, KeepsFile, read_io-write_io}
use ixgbe82599_driver.Pci.{enable_dma, pci_map_resource}
use ixgbe82599_driver.Pci.Command.{
  command_read, with_bus_master, enable_dma_lem, pci_map_resource-unopened,
}
use ixgbe82599_driver.Vfio.{vfio_iova, vfio_map_dma}
use ixgbe82599_driver.Vfio.Container.{Outcome, init_vfio_lem}
use ixgbe82599_driver.Vfio.MapDma.{vfio_map_dma-none}
use ixgbe82599_driver.Examples.Data.{silent, pool_world}

-- Every call gives `n`, and leaves `answer` in memory.
abbrev calls_giving : (n answer : ℕ) → Env
calls_giving n answer = record silent { result = λ t c. some n; answer = λ t c. answer }

-- The command register has its lowest two bits set.
abbrev config : Env
config = calls_giving 2 3

abbrev sought : Trace
sought =
    done config (lseek (some 2) 4) (done config (open_file (device_file [] "config") read_write) [])

enable_dma_lem_example :
    (enable_dma config [] (pool_world 0)
      ≡ some (
        tt,
        record (pool_world 0) {
          trace = done config (close_file (some 2)) (
              done config
                (write_file (some 2) (7 ∷ 0 ∷ []))
                (done config (lseek (some 2) 4) (done config (read_file (some 2) 2) sought)));
        },
      ))
    × (with_bus_master (command_read config (some 2) sought) < 2 ^ 16)
enable_dma_lem_example = enable_dma_lem config [] (pool_world 0)

pci_map_resource-unopened_example :
    (t : Trace) × (pci_map_resource silent [] (pool_world 0)
      ≡ some (2 ^ 64 - 1, record (pool_world 0) { trace = t }))
pci_map_resource-unopened_example =
    pci_map_resource-unopened silent [] (λ t p a. refl) (λ t n o. refl) (pool_world 0)

-- The second container replaces the first.
abbrev vfio_world : World
vfio_world = record (pool_world 0) { vfio_container = some 9 }

init_vfio_lem_example : Outcome (calls_giving 5 0) [] vfio_world
init_vfio_lem_example = init_vfio_lem (calls_giving 5 0) [] vfio_world

vfio_map_dma-none_example :
    vfio_map_dma (calls_giving 0 vfio_iova) 1000 4096 64 (pool_world 0) ≡ none
vfio_map_dma-none_example =
    vfio_map_dma-none (calls_giving 0 vfio_iova) (λ t c vaddr size. refl) 1000 4096 64
      (pool_world 0)

-- A file of zeros that keeps what is written.
abbrev file_result : Call → Option ℕ
file_result (pread fd size offset) = some size
file_result (pwrite fd size value offset) = some size
file_result c = none

abbrev file_answer : Trace → Call → ℕ
file_answer t (pread (some fd) size offset) = load size offset (contents fd (λ a. 0) t)
file_answer t c = 0

abbrev keeps : Env
keeps = record silent { result = λ t c. file_result c; answer = file_answer }

keeps-KeepsFile : KeepsFile keeps 3 (λ a. 0)
keeps-KeepsFile = record {
  writes_all = λ t size value offset. refl;
  reads_all = λ t size offset. refl;
  holds = λ t size offset. refl;
}

-- Two bytes are written at 16, then four at 18.
abbrev two_writes : Trace
two_writes =
    done keeps (pwrite (some 3) 4 0xabcdef01 18) (done keeps (pwrite (some 3) 2 0x1234 16) [])

read_io-write_io_example :
    (write_io keeps 2 (some 3) 0x51234 16
        >> (write_io keeps 4 (some 3) 0xabcdef01 18 >> read_io keeps 2 (some 3) 16))
      (pool_world 0)
    ≡ some (0x1234, record (pool_world 0) { trace = done keeps (pread (some 3) 2 16) two_writes })
read_io-write_io_example =
    read_io-write_io keeps 3 (λ a. 0) keeps-KeepsFile 2 0x51234 16 4 0xabcdef01 18 (pool_world 0)
      (inr (omega arith))
