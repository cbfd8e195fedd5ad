-- ===== src/Examples/Polls.antt =====
-- Polling loops, the link and the start of the queues.
use ixgbe82599_driver.Base.{
  ℕ, zero, suc, ◌+◌, ◌-◌, ◌^◌, ◌<◌, ◌≡◌, ◌≢◌, refl, ◌∷◌, [], some, arith, bit_and,
}
use ixgbe82599_driver.Ixgbe.Flags
use ixgbe82599_driver.Ixgbe.Registers
use ixgbe82599_driver.World.{Event, Trace, Env, World}
use ixgbe82599_driver.Mmio.{set_reg32, set_flag32, wait_set_reg32}
use ixgbe82599_driver.Mmio.Polling.{answer, polled, ended, wait_set-returns, wait_set_sound}
use ixgbe82599_driver.Link.{wait_for_link}
use ixgbe82599_driver.Link.Waiting.{speed_after, waited, wait_ended, FirstUp, wait_for_link_lem}
use ixgbe82599_driver.TxQueue.{queue_at, num_entries}
use ixgbe82599_driver.Init.{init_tx_queue, start_tx_queue}
use ixgbe82599_driver.Init.Queues.{SameIndices, init_tx_queue_lem, start_tx_queue-enabled}
use ixgbe82599_driver.Examples.Data.{ready, silent, pool_world, ring_world, device}

-- A register that shows 0 until it was read, and then `value`.
abbrev after_one : ℕ → Env
after_one value = record silent { read = λ t a. elim t [ [] ↦ 0 | _ ∷ _ ↦ value ] }

-- A register that shows 8 until it was read, and then 0.
abbrev clearing : Env
clearing = record silent { read = λ t a. elim t [ [] ↦ 8 | _ ∷ _ ↦ 0 ] }

first_clear :
    (k : ℕ) → k < 1 → bit_and (answer (after_one 8) 0 40 (polled (after_one 8) 0 40 k [])) 8 ≢ 8
first_clear zero lt = omega arith
first_clear (suc k) lt = absurd (omega arith)

first_set : (k : ℕ) → k < 1 → bit_and (answer clearing 0 40 (polled clearing 0 40 k [])) 8 ≢ 0
first_set zero lt = omega arith
first_set (suc k) lt = absurd (omega arith)

wait_set_sound_example :
    (n : ℕ) × (n < 5)
    × (bit_and (answer (after_one 8) 0 40 (polled (after_one 8) 0 40 n [])) 8 ≡ 8)
    × (ended (after_one 8) 0 40 1 (pool_world 2) ≡ ended (after_one 8) 0 40 n (pool_world 2))
wait_set_sound_example =
    wait_set_sound (after_one 8) 0 40 8 5 (pool_world 2) (ended (after_one 8) 0 40 1 (pool_world 2))
      (wait_set-returns (after_one 8) 0 40 8 5 1 (pool_world 2) (omega arith) first_clear refl)

wait_for_link_lem_example :
    (n : ℕ) × FirstUp ready 0 100 n (pool_world 2)
    × (wait_for_link ready 0 (pool_world 2)
        ≡ some (speed_after ready 0 (waited ready 0 n []), wait_ended ready 0 n (pool_world 2)))
wait_for_link_lem_example = wait_for_link_lem ready 0 (pool_world 2)

init_tx_queue_lem_example :
    (w' : World) × (init_tx_queue ready device ring_world ≡ some (tt, w'))
    × ((q : ℕ) → q < 1 → num_entries (queue_at 4096 q) w'.queues ≡ 512)
    × ((q : ℕ) → SameIndices 4096 q ring_world.queues w'.queues)
init_tx_queue_lem_example = init_tx_queue_lem ready device ring_world

-- What start_tx_queue has done before it polls, on a device whose registers read as all ones.
abbrev started_from : Trace
started_from =
    Event.store32 (16777216 + Registers.txdctl 0) (2 ^ 32 - 1)
    ∷ Event.load32 (16777216 + Registers.txdctl 0) (2 ^ 32 - 1)
    ∷ Event.store32 (16777216 + Registers.tdt 0) 0
    ∷ Event.store32 (16777216 + Registers.tdh 0) 0
    ∷ []

abbrev started : World
started =
    ended ready device.addr (Registers.txdctl 0) 0 (record ring_world { trace = started_from })

started_run : start_tx_queue ready 5 device 0 ring_world ≡ some (tt, started)
unfolding start_tx_queue set_reg32 set_flag32 wait_set_reg32
started_run = refl

start_tx_queue-enabled_example :
    (n : ℕ) × (n < 5)
    × (bit_and
          (answer ready device.addr
            (Registers.txdctl 0)
            (polled ready device.addr (Registers.txdctl 0) n started_from))
          Flags.txdctl_enable
        ≡ Flags.txdctl_enable)
    × (started
        ≡ ended ready device.addr
            (Registers.txdctl 0)
            n
            (record ring_world { trace = started_from }))
start_tx_queue-enabled_example =
    start_tx_queue-enabled ready 5 device 0 ring_world started started_run
