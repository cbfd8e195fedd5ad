-- ===== src/Link/Waiting.antt =====
-- How long wait_for_link waits, and for what.
use ixgbe82599_driver.Base.{
  ◌∙◌, ap, lt→ltb, ℕ, zero, suc, ◌+◌, ◌-◌, ◌*◌, ◌%◌, ◌^◌, ◌≤◌, ◌<◌, ◌≡◌, ◌≢◌, ◌⊎◌, inl, inr, refl,
  ◌∷◌, some, arith, ◌==◌, Bool-cases, ==_iff, ltb, true,
}
use ixgbe82599_driver.Ixgbe.Registers.{links}
use ixgbe82599_driver.World.{Event, Trace, Env, World}
use ixgbe82599_driver.Mmio.{get_reg32, sleep_us}
use ixgbe82599_driver.Mmio.Polling.{answer}
use ixgbe82599_driver.Link.{
  link_speed_of, ixgbe_get_link_speed, wait_for_link_loop, wait_for_link, poll_interval_us,
}

module _ (env : Env) (addr : ℕ) where
  -- The speed that a load of LINKS after a trace stands for.
  abbrev pub speed_after : Trace → ℕ
  speed_after t = link_speed_of (answer env addr links t)

  -- The trace after n rounds of the wait.
  abbrev pub waited : ℕ → Trace → Trace
  waited zero t = t
  waited (suc n) t =
      waited n
        (Event.usleep poll_interval_us ∷ Event.load32 (addr + links) (answer env addr links t) ∷ t)

  -- The end of the wait in round n.
  abbrev pub wait_ended : ℕ → World → World
  wait_ended n w =
      let t = waited n w.trace in
      record w { trace = Event.load32 (addr + links) (answer env addr links t) ∷ t }

  -- n is the first round in which the link is up, or the last round that is allowed.
  pub record FirstUp (last n : ℕ) (w : World) : Type 0 where
    pub in_time : n ≤ last
    pub down_before : (k : ℕ) → k < n → speed_after (waited k w.trace) ≡ 0
    pub up_or_last : (speed_after (waited n w.trace) ≢ 0) ⊎ (n ≡ last)

  later-FirstUp :
      {last n : ℕ} {w : World}
      → speed_after w.trace ≡ 0
      → FirstUp last n (record w { trace = waited 1 w.trace })
      → FirstUp (suc last) (suc n) w
  later-FirstUp {last} {n} {w} now first = record {
    in_time = omega (arith, first.in_time);
    down_before = down_until;
    up_or_last = still_last first.up_or_last;
  }
    where
      down_until : (k : ℕ) → k < suc n → speed_after (waited k w.trace) ≡ 0
      down_until zero lt = now
      down_until (suc k) lt = first.down_before k (omega arith)

      still_last : {P : Type 0} → P ⊎ (n ≡ last) → P ⊎ (suc n ≡ suc last)
      still_last (inl p) = inl p
      still_last (inr e) = inr (ap suc e)

  -- A round in which the link is down takes one interval off the wait.
  wait_step :
      (fuel last : ℕ) (w : World)
      → (speed_after w.trace == 0) ≡ true
      → suc last ≤ 100
      → wait_for_link_loop env addr (suc fuel) (suc last * poll_interval_us) w
        ≡ wait_for_link_loop env addr fuel
            (last * poll_interval_us)
            (record w { trace = waited 1 w.trace })
  unfolding wait_for_link_loop ixgbe_get_link_speed get_reg32 sleep_us
  wait_step fuel last w down small =
      let waiting : ltb 0 (suc last * poll_interval_us) ≡ true = lt→ltb _ _ (omega arith) in
      let less : (suc last * poll_interval_us + 2 ^ 32 - poll_interval_us) % 2 ^ 32
          ≡ last * poll_interval_us =
        omega arith in
      rw (down, waiting, less)

  wait_loop-FirstUp :
      (fuel last : ℕ) (w : World)
      → last < fuel
      → last ≤ 100
      → (n : ℕ) × FirstUp last n w
        × (wait_for_link_loop env addr fuel (last * poll_interval_us) w
            ≡ some (speed_after (waited n w.trace), wait_ended n w))
  unfolding wait_for_link_loop ixgbe_get_link_speed get_reg32 sleep_us
  wait_loop-FirstUp zero last w h small = absurd (omega arith)
  wait_loop-FirstUp (suc fuel) zero w h small =
      let now : FirstUp 0 0 w = record {
        in_time = omega arith;
        down_before = λ k lt. absurd (omega arith);
        up_or_last = inr refl;
      } in
      elim (Bool-cases (speed_after w.trace == 0)) [
        | inl down ↦ (0, now, rw down)
        | inr up ↦ (0, now, rw up)
      ]
  wait_loop-FirstUp (suc fuel) (suc last) w h small = elim (Bool-cases (speed_after w.trace == 0)) [
    | inl down ↦
        let w1 : World = record w { trace = waited 1 w.trace } in
        let (n, first, run) = wait_loop-FirstUp fuel last w1 (omega arith) (omega arith) in
        (suc n, later-FirstUp ((==_iff _ _).0 down) first, wait_step fuel last w down small ∙ run)
    | inr up ↦ (
      0,
      record {
        in_time = omega arith;
        down_before = λ k lt. absurd (omega arith);
        up_or_last = inl (λ e. ground (arith, up, e));
      },
      rw up,
    )
  ]

  -- wait_for_link returns for every device, after at most 101 loads of LINKS with a sleep of 0.1
  -- s between them: with the speed of the first load that shows the link up, or with that of the
  -- last.
  pub wait_for_link_lem :
      (w : World)
      → (n : ℕ) × FirstUp 100 n w
        × (wait_for_link env addr w ≡ some (speed_after (waited n w.trace), wait_ended n w))
  unfolding wait_for_link
  wait_for_link_lem w = wait_loop-FirstUp 101 100 w (omega arith) (omega arith)
