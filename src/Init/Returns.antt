-- ===== src/Init/Returns.antt =====
-- do_init_seq returns on a device that answers.
use ixgbe82599_driver.Base.{
  ℕ_discrete, ℕ, zero, suc, ◌+◌, ◌≤◌, ◌<◌, ◌≡◌, ◌≢◌, refl, ◌∙◌, some, arith, pure, ◌>>=◌, ◌>>◌,
  bit_or, bit_and, bind-some,
}
use ixgbe82599_driver.Ixgbe.Flags
use ixgbe82599_driver.Ixgbe.Registers
use ixgbe82599_driver.World.{Env, World, Run, Trace}
use ixgbe82599_driver.Mmio.{
  set_reg32, get_reg32, set_flag32, unset_flag32, sleep_us, wait_set_reg32, wait_clear_reg32,
}
use ixgbe82599_driver.Mmio.Polling.{answer, polled, wait_set-returns, wait_clear-returns}
use ixgbe82599_driver.Link.{wait_for_link}
use ixgbe82599_driver.Link.Waiting.{wait_for_link_lem}
use ixgbe82599_driver.Stats.{read_counters}
use ixgbe82599_driver.TxQueue.{Device}
use ixgbe82599_driver.Init.{
  init_link, init_stats, init_tx_packet_buffers, init_tx_reg, init_tx_queue, init_tx,
  start_tx_queue, start_tx_queues_from, do_init_seq,
}
use ixgbe82599_driver.Init.Queues.{init_tx_queue_lem}

-- The first place, up to n, where f takes the value that it takes at n.
first_place :
    (n : ℕ) (f : ℕ → ℕ) (v : ℕ)
    → f n ≡ v
    → (k : ℕ) × (k ≤ n) × ((j : ℕ) → j < k → f j ≢ v) × (f k ≡ v)
first_place zero f v h = (0, omega arith, (λ j lt. absurd (omega arith)), h)
first_place (suc n) f v h = elim (ℕ_discrete (f 0) v) [
  | yes now ↦ (0, omega arith, (λ j lt. absurd (omega arith)), now)
  | no later ↦
      let (k, le, before, here) = first_place n (λ j. f (suc j)) v h in
      (suc k, omega arith, after_first f v k later before, here)
]
  where
    after_first :
        (f : ℕ → ℕ) (v k : ℕ)
        → f 0 ≢ v
        → ((j : ℕ) → j < k → f (suc j) ≢ v)
        → (j : ℕ) → j < suc k
        → f j ≢ v
    after_first f v k first rest zero lt = first
    after_first f v k first rest (suc j) lt = rest j (omega arith)

-- What the register shows in round n of a polling loop that starts after the trace.
abbrev pub shown : Env → (addr reg mask : ℕ) → Trace → ℕ → ℕ
shown env addr reg mask t n = bit_and (answer env addr reg (polled env addr reg n t)) mask

-- Whenever the register is polled, one of the first `fuel` rounds sees all bits of the mask set, or
-- all of them clear.
abbrev pub SetsWithin : Env → (fuel addr reg mask : ℕ) → Type 0
SetsWithin env fuel addr reg mask =
    (t : Trace) → (n : ℕ) × (n < fuel) × (shown env addr reg mask t n ≡ mask)

abbrev pub ClearsWithin : Env → (fuel addr reg mask : ℕ) → Type 0
ClearsWithin env fuel addr reg mask =
    (t : Trace) → (n : ℕ) × (n < fuel) × (shown env addr reg mask t n ≡ 0)

abbrev pub Returns : {A : Type 0} → Run A → Type 0
Returns {A} m = (w : World) → (a : A) × (w' : World) × (m w ≡ some (a, w'))

pub Returns-bind :
    {A B : Type 0} (m : Run A) (k : A → Run B)
    → Returns m
    → ((a : A) → Returns (k a))
    → Returns (m >>= k)
Returns-bind m k hm hk w =
    let (a, u, run) = hm w in let (b, w', rest) = hk a u in (b, w', bind-some m k run ∙ rest)

module _ (env : Env) where
  pub Returns-wait_set :
      (fuel addr reg mask : ℕ)
      → SetsWithin env fuel addr reg mask
      → Returns (wait_set_reg32 env fuel addr reg mask)
  Returns-wait_set fuel addr reg mask sets w =
      let (n, lt, now) = sets w.trace in
      let (k, le, before, here) = first_place n (shown env addr reg mask w.trace) mask now in
      (tt, _, wait_set-returns env addr reg mask fuel k w (omega arith) before here)

  pub Returns-wait_clear :
      (fuel addr reg mask : ℕ)
      → ClearsWithin env fuel addr reg mask
      → Returns (wait_clear_reg32 env fuel addr reg mask)
  Returns-wait_clear fuel addr reg mask clears w =
      let (n, lt, now) = clears w.trace in
      let (k, le, before, here) = first_place n (shown env addr reg mask w.trace) 0 now in
      (tt, _, wait_clear-returns env addr reg mask fuel k w (omega arith) before here)

  pub Returns-init_link : (addr : ℕ) → Returns (init_link env addr)
  unfolding init_link set_reg32 get_reg32 set_flag32
  Returns-init_link addr w = (tt, _, refl)

  pub Returns-init_stats : (addr : ℕ) → Returns (init_stats env addr)
  unfolding init_stats read_counters get_reg32
  Returns-init_stats addr w = (tt, _, refl)

  Returns-init_tx_reg : (addr : ℕ) → Returns (init_tx_reg env addr)
  unfolding init_tx_reg init_tx_packet_buffers set_reg32 get_reg32 set_flag32 unset_flag32
  Returns-init_tx_reg addr w = (tt, _, refl)

  pub Returns-set_reg32 : (addr reg value : ℕ) → Returns (set_reg32 addr reg value)
  unfolding set_reg32
  Returns-set_reg32 addr reg value w = (tt, _, refl)

  pub Returns-set_flag32 : (addr reg flag : ℕ) → Returns (set_flag32 env addr reg flag)
  unfolding set_flag32 get_reg32 set_reg32
  Returns-set_flag32 addr reg flag w = (tt, _, refl)

  pub Returns-sleep_us : (us : ℕ) → Returns (sleep_us us)
  unfolding sleep_us
  Returns-sleep_us us w = (tt, _, refl)

  pub Returns-pure : Returns (pure tt)
  Returns-pure w = (tt, w, refl)

  pub Returns-wait_for_link : (addr : ℕ) → Returns (wait_for_link env addr)
  Returns-wait_for_link addr w = let (n, up, run) = wait_for_link_lem env addr w in (_, _, run)

  Returns-init_tx_queue : (dev : Device) → Returns (init_tx_queue env dev)
  Returns-init_tx_queue dev w =
      let (w', run, size, indices) = init_tx_queue_lem env dev w in (tt, w', run)

  Returns-init_tx : (dev : Device) → Returns (init_tx env dev)
  unfolding init_tx
  Returns-init_tx dev =
      Returns-bind (init_tx_reg env dev.addr) _ (Returns-init_tx_reg dev.addr) λ _.
        Returns-bind (init_tx_queue env dev) _ (Returns-init_tx_queue dev)
          λ _. Returns-set_reg32 dev.addr Registers.dmatxctl Flags.dmatxctl_te

  Returns-start_tx_queue :
      (fuel : ℕ) (dev : Device) (i : ℕ)
      → SetsWithin env fuel dev.addr (Registers.txdctl i) Flags.txdctl_enable
      → Returns (start_tx_queue env fuel dev i)
  unfolding start_tx_queue set_reg32 set_flag32 get_reg32
  Returns-start_tx_queue fuel dev i sets w =
      Returns-wait_set fuel dev.addr (Registers.txdctl i) Flags.txdctl_enable sets _

  Returns-start_tx_queues_from :
      (fuel rounds i : ℕ) (dev : Device)
      → ((j : ℕ)
          → i ≤ j
          → j < i + rounds
          → SetsWithin env fuel dev.addr (Registers.txdctl j) Flags.txdctl_enable)
      → Returns (start_tx_queues_from env fuel rounds i dev)
  unfolding start_tx_queues_from
  Returns-start_tx_queues_from fuel zero i dev sets = λ w. (tt, w, refl)
  Returns-start_tx_queues_from fuel (suc rounds) i dev sets =
      Returns-bind (start_tx_queue env fuel dev i) _
        (Returns-start_tx_queue fuel dev i (sets i (omega arith) (omega arith)))
        λ _.
          Returns-start_tx_queues_from fuel rounds (i + 1) dev
            (λ j lo hi. sets j (omega arith) (omega arith))

  Returns-go_live :
      (fuel : ℕ) (dev : Device)
      → ((i : ℕ)
          → i < dev.num_tx_queues
          → SetsWithin env fuel dev.addr (Registers.txdctl i) Flags.txdctl_enable)
      → Returns (do
        start_tx_queues_from env fuel dev.num_tx_queues 0 dev
        set_flag32 env dev.addr Registers.fctrl (bit_or Flags.fctrl_mpe Flags.fctrl_upe)
        wait_for_link env dev.addr
        pure tt)
  Returns-go_live fuel dev sets =
      Returns-bind (start_tx_queues_from env fuel dev.num_tx_queues 0 dev) _
        (Returns-start_tx_queues_from fuel dev.num_tx_queues 0 dev
          (λ j lo hi. sets j (omega arith)))
        λ _.
          Returns-bind
            (set_flag32 env dev.addr Registers.fctrl (bit_or Flags.fctrl_mpe Flags.fctrl_upe)) _
            (Returns-set_flag32 dev.addr Registers.fctrl (bit_or Flags.fctrl_mpe Flags.fctrl_upe))
            λ _.
              Returns-bind (wait_for_link env dev.addr) _ (Returns-wait_for_link dev.addr)
                λ _. Returns-pure

  -- What do_init_seq does after the reset.
  Returns-masked :
      (fuel : ℕ) (dev : Device)
      → SetsWithin env fuel dev.addr Registers.eec Flags.eec_ard
      → SetsWithin env fuel dev.addr Registers.rdrxctl Flags.rdrxctl_dmaidone
      → ((i : ℕ)
          → i < dev.num_tx_queues
          → SetsWithin env fuel dev.addr (Registers.txdctl i) Flags.txdctl_enable)
      → Returns (do
        sleep_us 10000
        set_reg32 dev.addr Registers.eimc 0x7fffffff
        wait_set_reg32 env fuel dev.addr Registers.eec Flags.eec_ard
        wait_set_reg32 env fuel dev.addr Registers.rdrxctl Flags.rdrxctl_dmaidone
        init_link env dev.addr
        init_stats env dev.addr
        init_tx env dev
        start_tx_queues_from env fuel dev.num_tx_queues 0 dev
        set_flag32 env dev.addr Registers.fctrl (bit_or Flags.fctrl_mpe Flags.fctrl_upe)
        wait_for_link env dev.addr
        pure tt)
  Returns-masked fuel dev read dma enabled =
      let a = dev.addr in
      Returns-bind (sleep_us 10000) _ (Returns-sleep_us 10000) λ _.
        Returns-bind (set_reg32 a Registers.eimc 0x7fffffff) _
          (Returns-set_reg32 a Registers.eimc 0x7fffffff)
          λ _.
            Returns-bind (wait_set_reg32 env fuel a Registers.eec Flags.eec_ard) _
              (Returns-wait_set fuel a Registers.eec Flags.eec_ard read)
              λ _.
                Returns-bind (wait_set_reg32 env fuel a Registers.rdrxctl Flags.rdrxctl_dmaidone) _
                  (Returns-wait_set fuel a Registers.rdrxctl Flags.rdrxctl_dmaidone dma)
                  λ _. Returns-bind (init_link env a) _ (Returns-init_link a) λ _.
                    Returns-bind (init_stats env a) _ (Returns-init_stats a) λ _.
                      Returns-bind (init_tx env dev) _ (Returns-init_tx dev)
                        λ _. Returns-go_live fuel dev enabled

-- do_init_seq returns if the device answers each polling loop within the fuel: after every trace it
-- shows the end of its reset, the reading of its EEPROM, the initialisation of its DMA and, for each
-- queue, that the queue is enabled. The state of the link is not needed for that.
pub do_init_seq-returns :
    (env : Env) (fuel : ℕ) (dev : Device) (w : World)
    → ClearsWithin env fuel dev.addr Registers.ctrl Flags.ctrl_rst_mask
    → SetsWithin env fuel dev.addr Registers.eec Flags.eec_ard
    → SetsWithin env fuel dev.addr Registers.rdrxctl Flags.rdrxctl_dmaidone
    → ((i : ℕ)
        → i < dev.num_tx_queues
        → SetsWithin env fuel dev.addr (Registers.txdctl i) Flags.txdctl_enable)
    → (w' : World) × (do_init_seq env fuel dev w ≡ some (tt, w'))
unfolding do_init_seq
do_init_seq-returns env fuel dev w reset read dma enabled =
    let a = dev.addr in
    let run =
      Returns-bind (set_reg32 a Registers.eimc 0x7fffffff) _
        (Returns-set_reg32 env a Registers.eimc 0x7fffffff)
        (λ _.
          Returns-bind (set_reg32 a Registers.ctrl Flags.ctrl_rst_mask) _
            (Returns-set_reg32 env a Registers.ctrl Flags.ctrl_rst_mask)
            (λ _.
              Returns-bind (wait_clear_reg32 env fuel a Registers.ctrl Flags.ctrl_rst_mask) _
                (Returns-wait_clear env fuel a Registers.ctrl Flags.ctrl_rst_mask reset)
                (λ _. Returns-masked env fuel dev read dma enabled))) in
    let (u, w', done) = run w in (w', done)
