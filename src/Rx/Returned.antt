-- ===== src/Rx/Returned.antt =====
-- What rx_batch returns.
use ixgbe82599_driver.Base.{
  ℕ, zero, suc, ◌+◌, ◌%◌, ◌^◌, ◌≡◌, ◌∙◌, ap, List, ◌∷◌, some, arith, bind-some, bit_and,
}
use ixgbe82599_driver.Ixgbe.Flags
use ixgbe82599_driver.World.{Event, Env, Trace, World, emit}
use ixgbe82599_driver.Rx.{
  Device, Taking, taking, queue_at, rx_index, descriptors, descriptor_at, offsetof_status_error,
  load_status_error, finish, rx_loop, rx_batch,
}

-- The trace after n looks at a status word.
unfoldable pub looked : Env → (a n : ℕ) → Trace → Trace
looked env a zero t = t
looked env a (suc n) t = looked env a n (Event.load32 a (env.read t a % 2 ^ 32) ∷ t)

-- The status word of the descriptor at the index.
abbrev status_at : (rxq index : ℕ) → World → ℕ
status_at rxq index w = descriptor_at (descriptors rxq w.queues) index + offsetof_status_error

module _ (env : Env) (rxq : ℕ) where
  rx_loop-nothing :
      (rounds : ℕ) (t : Taking) (w : World)
      → ((u : Trace)
          → bit_and (env.read u (status_at rxq t.rx_index w) % 2 ^ 32) Flags.rxdadv_stat_dd ≡ 0)
      → rx_loop env rounds rxq t w
        ≡ some (
          taking (record t { i = t.i + rounds }),
          record w { trace = looked env (status_at rxq t.rx_index w) rounds w.trace },
        )
  unfolding rx_loop load_status_error looked
  rx_loop-nothing zero t w none_done =
      ap (λ i. some (taking (record t { i = i }), w)) {x = t.i} {y = t.i + 0} (omega arith)
  rx_loop-nothing (suc rounds) t w none_done =
      let a = status_at rxq t.rx_index w in
      let next : World = emit (Event.load32 a (env.read w.trace a % 2 ^ 32)) w in
      let count : t.i + 1 + rounds ≡ t.i + suc rounds = omega arith in
      rw (none_done w.trace) (
        rx_loop-nothing rounds (record t { i = t.i + 1 }) next none_done
        ∙ ap
            (λ i.
              some (
                taking (record t { i = i }),
                record next { trace = looked env a rounds next.trace },
              ))
            count)

-- Where the status word of the descriptor at the index of a queue is.
abbrev pub waited_at : Device → (queue_id : ℕ) → World → ℕ
waited_at dev queue_id w =
    let rxq = queue_at dev.rx_queues queue_id in status_at rxq (rx_index rxq w.queues) w

-- While the device has not marked the descriptor at rx_index as done, rx_batch always returns
-- num_buf, though it has taken no buffer off the ring: after num_buf looks at the status of that
-- descriptor, the array, the queue, the pool and all other state are as before.
pub rx_batch-nothing :
    (env : Env) (dev : Device) (queue_id num_buf : ℕ) (bufs : List ℕ) (w : World)
    → ((t : Trace)
        → bit_and (env.read t (waited_at dev queue_id w) % 2 ^ 32) Flags.rxdadv_stat_dd ≡ 0)
    → rx_batch env dev queue_id bufs num_buf w
      ≡ some (
        (num_buf, bufs),
        record w { trace = looked env (waited_at dev queue_id w) num_buf w.trace },
      )
unfolding rx_batch finish
rx_batch-nothing env dev queue_id num_buf bufs w none_done =
    let rxq = queue_at dev.rx_queues queue_id in
    let start = rx_index rxq w.queues in
    let first : Taking = record { i = 0; rx_index = start; prev_rx_index = start; bufs = bufs } in
    bind-some (rx_loop env num_buf rxq first) (finish dev queue_id)
      (rx_loop-nothing env rxq num_buf first w none_done)
    ∙ ground arith
