-- ===== src/Dma/Address.antt =====
-- Huge-page rounding and address translation.
use ixgbe82599_driver.Base.{ℕ, ◌+◌, ◌*◌, ◌/◌, ◌%◌, ◌^◌, ◌≤◌, ◌<◌, ◌≡◌, some, arith, bit_and, ◌-◌}
use ixgbe82599_driver.Base.Bits.{bit_and_low}
use native.Mathlib.Nat.{mod-eq_of_lt}
use ixgbe82599_driver.World.{Event, Env, World, emit}
use ixgbe82599_driver.Dma.{round_to_huge_pages, huge_page_size, virt_to_phys, page_number_mask}

-- What is mapped for a size of at most 2^64 less one huge page is a whole number of huge pages,
-- is not smaller, and is less than one huge page larger.
pub round_to_huge_pages_lem :
    (size : ℕ)
    → size ≤ 2 ^ 64 - huge_page_size
    → (round_to_huge_pages size % huge_page_size ≡ 0)
      × (size ≤ round_to_huge_pages size)
      × (round_to_huge_pages size < size + huge_page_size)
unfolding round_to_huge_pages
round_to_huge_pages_lem size h = ground arith

-- The page number that a pagemap entry holds: its low 55 bits.
abbrev pub frame : Env → World → ℕ → ℕ
frame env w virt = env.pagemap w.trace (virt / env.pagesize) % 2 ^ 55

mask-frame : (phy : ℕ) → bit_and (phy % 2 ^ 64) page_number_mask ≡ phy % 2 ^ 55
mask-frame phy = ground (arith, bit_and_low 55 (phy % 2 ^ 64))

-- If the result has a 64-bit address, virt_to_phys gives the place in the physical page that the
-- pagemap names which has the offset of the address in its own page; it only reads the pagemap.
pub virt_to_phys_lem :
    (env : Env) (w : World) (virt : ℕ)
    → frame env w virt * env.pagesize + virt % env.pagesize < 2 ^ 64
    → virt_to_phys env virt w
      ≡ some (
        frame env w virt * env.pagesize + virt % env.pagesize,
        emit
            (Event.pagemap
              (virt / env.pagesize)
              (env.pagemap w.trace (virt / env.pagesize) % 2 ^ 64))
            w,
      )
unfolding virt_to_phys
virt_to_phys_lem env w virt h =
    rw (mask-frame (env.pagemap w.trace (virt / env.pagesize)), mod-eq_of_lt h)
