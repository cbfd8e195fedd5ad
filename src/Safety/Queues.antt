-- ===== src/Safety/Queues.antt =====
-- The accesses of init_tx_queue and do_init_seq, on a device of at most 128 queues, as the 82599 has.
use ixgbe82599_driver.Base.{ℕ, zero, suc, ◌+◌, ◌≤◌, ◌<◌, ◌≡◌, inl, inr, refl, arith}
use ixgbe82599_driver.Ixgbe.Flags
use ixgbe82599_driver.Ixgbe.Registers
use ixgbe82599_driver.World.{Env, Run}
use ixgbe82599_driver.Mmio.{set_reg32, get_reg32, sleep_us, wait_set_reg32, wait_clear_reg32}
use ixgbe82599_driver.Dma.{allocate_dma_address, virt_to_phys, round_to_huge_pages}
use ixgbe82599_driver.Link.{wait_for_link}
use ixgbe82599_driver.TxQueue.{Device}
use ixgbe82599_driver.Init.{
  init_link, init_stats, init_tx_reg, init_one_tx_queue, init_tx_queues_from, init_tx_queue,
  init_tx, start_tx_queue, start_tx_queues_from, do_init_seq, tx_ring_size,
}
use ixgbe82599_driver.Safety.{
  StaysSafe, StaysSafe-bind, StaysSafe-outcome, StaysSafe-pure, StaysSafe-set_reg32,
  StaysSafe-sleep_us, StaysSafe-wait_set_reg32, StaysSafe-wait_clear_reg32,
}
use ixgbe82599_driver.Safety.Init.{
  set_reg32_then, set_flag32_then, StaysSafe-init_link, StaysSafe-init_stats, StaysSafe-init_tx_reg,
  StaysSafe-wait_for_link,
}

pub one_page : round_to_huge_pages tx_ring_size ≡ 2097152
unfolding round_to_huge_pages
one_page = refl

module _ (env : Env) (dev : Device) (few : dev.num_tx_queues ≤ 128) where
  abbrev S : {A : Type 0} → Run A → Type 0
  S m = StaysSafe dev.addr m

  StaysSafe-init_one_tx_queue : (i : ℕ) → i < dev.num_tx_queues → S (init_one_tx_queue env dev i)
  unfolding init_one_tx_queue set_reg32 get_reg32 allocate_dma_address virt_to_phys
  StaysSafe-init_one_tx_queue i lt = StaysSafe-outcome dev.addr _ λ w. (
    tt,
    _,
    refl,
    λ s. (
      inl (omega arith),
      (
        inl (omega arith),
        (
          inl (omega arith),
          (
            inl (omega arith),
            (inl (omega arith), (inr (inl (omega (arith, one_page))), (tt, (tt, s)))),
          ),
        ),
      ),
    ),
  )

  StaysSafe-init_tx_queues_from :
      (rounds i : ℕ) → i + rounds ≤ dev.num_tx_queues → S (init_tx_queues_from env rounds i dev)
  unfolding init_tx_queues_from
  StaysSafe-init_tx_queues_from zero i le = StaysSafe-pure dev.addr tt
  StaysSafe-init_tx_queues_from (suc rounds) i le =
      StaysSafe-bind dev.addr (init_one_tx_queue env dev i) _
        (StaysSafe-init_one_tx_queue i (omega arith))
        λ _. StaysSafe-init_tx_queues_from rounds (i + 1) (omega arith)

  StaysSafe-init_tx : S (init_tx env dev)
  unfolding init_tx init_tx_queue
  StaysSafe-init_tx =
      StaysSafe-bind dev.addr (init_tx_reg env dev.addr) _ (StaysSafe-init_tx_reg env dev.addr) λ _.
        StaysSafe-bind dev.addr (init_tx_queues_from env dev.num_tx_queues 0 dev) _
          (StaysSafe-init_tx_queues_from dev.num_tx_queues 0 (omega arith))
          λ _. StaysSafe-set_reg32 dev.addr Registers.dmatxctl _ (omega arith)

  StaysSafe-start_tx_queue :
      (fuel i : ℕ) → i < dev.num_tx_queues → S (start_tx_queue env fuel dev i)
  unfolding start_tx_queue
  StaysSafe-start_tx_queue fuel i lt =
      set_reg32_then env dev.addr (Registers.tdh i) 0 _ (omega arith) (
        set_reg32_then env dev.addr (Registers.tdt i) 0 _ (omega arith) (
          set_flag32_then env dev.addr (Registers.txdctl i) _ _ (omega arith)
            (StaysSafe-wait_set_reg32 dev.addr env (Registers.txdctl i) (omega arith) fuel _)))

  StaysSafe-start_tx_queues_from :
      (fuel rounds i : ℕ)
      → i + rounds ≤ dev.num_tx_queues
      → S (start_tx_queues_from env fuel rounds i dev)
  unfolding start_tx_queues_from
  StaysSafe-start_tx_queues_from fuel zero i le = StaysSafe-pure dev.addr tt
  StaysSafe-start_tx_queues_from fuel (suc rounds) i le =
      StaysSafe-bind dev.addr (start_tx_queue env fuel dev i) _
        (StaysSafe-start_tx_queue fuel i (omega arith))
        λ _. StaysSafe-start_tx_queues_from fuel rounds (i + 1) (omega arith)

  pub StaysSafe-do_init_seq : (fuel : ℕ) → S (do_init_seq env fuel dev)
  unfolding do_init_seq
  StaysSafe-do_init_seq fuel = set_reg32_then env dev.addr Registers.eimc _ _ (omega arith) (
      set_reg32_then env dev.addr Registers.ctrl _ _ (omega arith) (
        StaysSafe-bind dev.addr
          (wait_clear_reg32 env fuel dev.addr Registers.ctrl Flags.ctrl_rst_mask) _
          (StaysSafe-wait_clear_reg32 dev.addr env Registers.ctrl (omega arith) fuel _)
          λ _. StaysSafe-bind dev.addr (sleep_us 10000) _ (StaysSafe-sleep_us dev.addr 10000) λ _.
            set_reg32_then env dev.addr Registers.eimc _ _ (omega arith) (
              StaysSafe-bind dev.addr (wait_set_reg32 env fuel dev.addr Registers.eec Flags.eec_ard)
                _ (StaysSafe-wait_set_reg32 dev.addr env Registers.eec (omega arith) fuel _)
                λ _.
                  StaysSafe-bind dev.addr
                    (wait_set_reg32 env fuel dev.addr Registers.rdrxctl Flags.rdrxctl_dmaidone) _
                    (StaysSafe-wait_set_reg32 dev.addr env Registers.rdrxctl (omega arith) fuel _)
                    λ _.
                      StaysSafe-bind dev.addr (init_link env dev.addr) _
                        (StaysSafe-init_link env dev.addr)
                        λ _.
                          StaysSafe-bind dev.addr (init_stats env dev.addr) _
                            (StaysSafe-init_stats env dev.addr)
                            λ _. StaysSafe-bind dev.addr (init_tx env dev) _ StaysSafe-init_tx λ _.
                              StaysSafe-bind dev.addr
                                (start_tx_queues_from env fuel dev.num_tx_queues 0 dev) _
                                (StaysSafe-start_tx_queues_from fuel dev.num_tx_queues 0
                                  (omega arith))
                                λ _.
                                  set_flag32_then env dev.addr Registers.fctrl _ _ (omega arith) (
                                    StaysSafe-bind dev.addr (wait_for_link env dev.addr) _
                                      (StaysSafe-wait_for_link env dev.addr)
                                      λ _. StaysSafe-pure dev.addr tt))))
