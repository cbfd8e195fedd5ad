-- ===== src/RxStart/Returns.antt =====
-- recv/init.c: do_ixgbe on a device that answers.
use ixgbe82599_driver.Base.{
  ℕ, ◌+◌, ◌*◌, ◌^◌, ◌%◌, ◌≡◌, refl, ◌∙◌, List, Option, none, some, bind-some, ◌>>◌, pure, bit_or,
}
use ixgbe82599_driver.Ixgbe.Flags
use ixgbe82599_driver.Ixgbe.Registers
use ixgbe82599_driver.World.{
  Call, Env, World, Run, device_file, stat_file, open_file, close_file, write_file, fstat, map_file,
  read_write, write_only,
}
use ixgbe82599_driver.Mmio.{
  set_flag32, get_reg32, sleep_us, wait_clear_reg32, wait_set_reg32, set_reg32, unset_flag32,
}
use ixgbe82599_driver.Init.{init_link, init_stats}
use ixgbe82599_driver.Init.Returns.{
  SetsWithin, ClearsWithin, Returns, Returns-bind, Returns-wait_set, Returns-wait_clear,
  Returns-init_link, Returns-init_stats, Returns-set_reg32, Returns-set_flag32, Returns-sleep_us,
  Returns-pure, Returns-wait_for_link,
}
use ixgbe82599_driver.Link.{wait_for_link}
use ixgbe82599_driver.Sys.{call, call_into, call_filling, read_io}
use ixgbe82599_driver.Pci.{remove_driver, enable_dma, pci_map_resource, address_of}
use ixgbe82599_driver.Start.{calloc}
use ixgbe82599_driver.Rx.{Device, queue_at, sizeof_rx_queue}
use ixgbe82599_driver.RxInit.{
  init_rx_reg, init_rx_packet_buffers, init_rx_queue, init_rx, start_rx_queue, start_rx_queues_from,
  do_init_seq,
}
use ixgbe82599_driver.RxInit.Queues.{Started, init_rx_queue-Started}
use ixgbe82599_driver.RxInit.Started.{start_rx_queue-Offered}
use ixgbe82599_driver.RxStart.{map_device, start_ixgbe, do_ixgbe, max_rx_queue_entries}
use ixgbe82599_driver.RxStart.Ready.{Allocates}
use ixgbe82599_driver.RxStart.One.{Receives, init_rx-Started, go_live, after_map, do_ixgbe-Receives}

-- Wherever its registers are, the device answers each polling loop within the fuel.
pub record Answers (env : Env) (fuel : ℕ) : Type 0 where
  pub reset : (addr : ℕ) → ClearsWithin env fuel addr Registers.ctrl Flags.ctrl_rst_mask
  pub eeprom : (addr : ℕ) → SetsWithin env fuel addr Registers.eec Flags.eec_ard
  pub dma : (addr : ℕ) → SetsWithin env fuel addr Registers.rdrxctl Flags.rdrxctl_dmaidone
  pub queue : (addr : ℕ) → SetsWithin env fuel addr (Registers.rxdctl 0) Flags.rxdctl_enable

module _ (env : Env) where
  Returns-call : (c : Call) → Returns (call env c)
  unfolding call
  Returns-call c w = (_, _, refl)

  Returns-call_filling : (c : Call) (size old : ℕ) → Returns (call_filling env c size old)
  unfolding call_filling
  Returns-call_filling c size old w = (_, _, refl)

  Returns-remove_driver : (pci_addr : List ℕ) → Returns (remove_driver env pci_addr)
  unfolding remove_driver
  Returns-remove_driver pci_addr =
      Returns-bind (call env (open_file (device_file pci_addr "driver/unbind") write_only)) _
        (Returns-call _) unbind
    where
      unbind :
          (fd : Option ℕ)
          → Returns (elim fd [
            | none ↦ pure tt
            | some n ↦ do
              call env (write_file (some n) pci_addr)
              call env (close_file (some n))
              pure tt
          ])
      unbind none = Returns-pure env
      unbind (some n) =
          Returns-bind (call env (write_file (some n) pci_addr)) _ (Returns-call _) λ _.
            Returns-bind (call env (close_file (some n))) _ (Returns-call _) λ _. Returns-pure env

  Returns-enable_dma : (pci_addr : List ℕ) → Returns (enable_dma env pci_addr)
  unfolding enable_dma call call_into
  Returns-enable_dma pci_addr w = (_, _, refl)

  Returns-map_device : (pci_addr : List ℕ) → Returns (map_device env pci_addr)
  unfolding map_device pci_map_resource
  Returns-map_device pci_addr =
      Returns-bind (call env (stat_file (device_file pci_addr "iommu_group"))) _ (Returns-call _)
        λ _. Returns-bind (remove_driver env pci_addr) _ (Returns-remove_driver pci_addr) λ _.
          Returns-bind (enable_dma env pci_addr) _ (Returns-enable_dma pci_addr) λ _.
            Returns-bind (call env (open_file (device_file pci_addr "resource0") read_write)) _
              (Returns-call _)
              λ fd w.
                Returns-bind (call_filling env (fstat fd) 8 (env.uninit w.trace 0 % 2 ^ 64)) _
                  (Returns-call_filling _ _ _)
                  (λ st_size.
                    Returns-bind (call env (map_file fd st_size 0)) _ (Returns-call _)
                      (λ a w'. (address_of a, w', refl)))
                  w

  Returns-init_rx : (dev : Device) → Returns (init_rx env dev)
  unfolding init_rx init_rx_reg init_rx_packet_buffers set_reg32 set_flag32 unset_flag32 get_reg32
  Returns-init_rx dev w =
      let (w', run, all) = init_rx_queue-Started env dev _ in
      (tt, _, bind-some (init_rx_queue env dev) _ run)

module _ (env : Env) (mem : Allocates env) (fuel : ℕ) (answers : Answers env fuel) where
  Returns-start_one :
      (dev : Device) (w : World)
      → Started (queue_at dev.rx_queues 0) w.queues
      → (w' : World) × (start_rx_queues_from env fuel 1 0 dev w ≡ some (tt, w'))
  unfolding start_rx_queues_from
  Returns-start_one dev w started =
      let (m, w1, w2, w3, made, offered, distinct, valid, header, waited, run) =
        start_rx_queue-Offered env fuel dev 0 w started (mem.address _ _) (mem.lucky w)
          (answers.queue dev.addr) in
      (_, bind-some (start_rx_queue env fuel dev 0) (λ _. pure tt) run)

  abbrev one_queue : (addr rx_queues : ℕ) → Device
  one_queue addr rx_queues = record { addr = addr; rx_queues = rx_queues; num_rx_queues = 1 }

  Returns-go_live : (dev : Device) → Returns (go_live env dev)
  Returns-go_live dev =
      Returns-bind
        (set_flag32 env dev.addr Registers.fctrl (bit_or Flags.fctrl_mpe Flags.fctrl_upe)) _
        (Returns-set_flag32 env _ _ _)
        λ _.
          Returns-bind (wait_for_link env dev.addr) _ (Returns-wait_for_link env dev.addr)
            λ _. Returns-pure env

  abbrev configured : Device → Run (Unit {0})
  configured dev = init_rx env dev >> (start_rx_queues_from env fuel 1 0 dev >> go_live env dev)

  Returns-configured : (dev : Device) → dev.num_rx_queues ≡ 1 → Returns (configured dev)
  Returns-configured dev one w =
      let (_, u, run) = Returns-init_rx env dev w in
      let (v, started) =
        Returns-start_one dev u (init_rx-Started env mem fuel dev one w u tt run) in
      let (a, w', rest) = Returns-go_live dev v in
      (
        a,
        w',
        bind-some (init_rx env dev) (λ _. start_rx_queues_from env fuel 1 0 dev >> go_live env dev)
              run
            ∙ (bind-some (start_rx_queues_from env fuel 1 0 dev) (λ _. go_live env dev) started
                ∙ rest),
      )

  Returns-do_init_seq :
      (addr rx_queues : ℕ) → Returns (do_init_seq env fuel (one_queue addr rx_queues))
  unfolding do_init_seq
  Returns-do_init_seq a rx_queues =
      Returns-bind (set_reg32 a Registers.eimc 0x7fffffff) _ (Returns-set_reg32 env a _ _) λ _.
        Returns-bind (set_reg32 a Registers.ctrl Flags.ctrl_rst_mask) _
          (Returns-set_reg32 env a _ _)
          λ _.
            Returns-bind (wait_clear_reg32 env fuel a Registers.ctrl Flags.ctrl_rst_mask) _
              (Returns-wait_clear env fuel a _ _ (answers.reset a))
              λ _. Returns-bind (sleep_us 10000) _ (Returns-sleep_us env 10000) λ _.
                Returns-bind (set_reg32 a Registers.eimc 0x7fffffff) _ (Returns-set_reg32 env a _ _)
                  λ _.
                    Returns-bind (wait_set_reg32 env fuel a Registers.eec Flags.eec_ard) _
                      (Returns-wait_set env fuel a _ _ (answers.eeprom a))
                      λ _.
                        Returns-bind
                          (wait_set_reg32 env fuel a Registers.rdrxctl Flags.rdrxctl_dmaidone) _
                          (Returns-wait_set env fuel a _ _ (answers.dma a))
                          λ _. Returns-bind (init_link env a) _ (Returns-init_link env a) λ _.
                            Returns-bind (init_stats env a) _ (Returns-init_stats env a)
                              λ _. Returns-configured (one_queue a rx_queues) refl

  Returns-after_map : (addr : ℕ) → Returns (after_map env fuel addr)
  unfolding calloc
  Returns-after_map addr w =
      let rx_queues = env.malloc w.trace (1 * (sizeof_rx_queue + 8 * max_rx_queue_entries)) in
      let (_, w', run) = Returns-do_init_seq addr rx_queues _ in
      (
        one_queue addr rx_queues,
        w',
        bind-some (do_init_seq env fuel (one_queue addr rx_queues))
            (λ _. pure (one_queue addr rx_queues)) run,
      )

  -- If malloc gives addresses of 64 bits and leaves 2048 in the place of buf_size, and the device answers each
  -- polling loop within the fuel, do_ixgbe returns. The device has one receive queue, of
  -- 1012 entries and with its index among the first four, and the queue has a valid pool of
  -- 4096 buffers, of which at least 1012 are out and the free ones are the rest of the new stack.
  pub do_ixgbe-returns :
      (pci_addr : List ℕ) (tx_queue : ℕ) (w : World)
      → (dev : Device) × (w' : World) × (do_ixgbe env fuel pci_addr 1 tx_queue w ≡ some (dev, w'))
        × Receives dev w'
  unfolding do_ixgbe start_ixgbe read_io call call_into
  do_ixgbe-returns pci_addr tx_queue w =
      let (addr, u, mapped) = Returns-map_device env pci_addr _ in
      let (dev, w', rest) = Returns-after_map addr u in
      let run = bind-some (map_device env pci_addr) (after_map env fuel) mapped ∙ rest in
      (dev, w', run, do_ixgbe-Receives env mem fuel pci_addr tx_queue dev w w' run)
