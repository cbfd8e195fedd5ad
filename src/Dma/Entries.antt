-- ===== src/Dma/Entries.antt =====
-- The loop of allocate_mempool_mem: what it leaves in the array and in the buffers' headers.
use ixgbe82599_driver.Base.{
  ℕ, zero, suc, ◌+◌, ◌-◌, ◌*◌, ◌%◌, ◌^◌, ◌≤◌, ◌<◌, ◌≡◌, ◌≢◌, refl, ap, List, Option, some, arith,
  length, get_or, set, set?-eq-set, length-set, get_or-set_self, get_or-set_ne, ne→==, false, ◌∙◌,
  bind-some, dec_lt,
}
use ixgbe82599_driver.World.{Env, PktBuf, World}
use ixgbe82599_driver.Dma.{
  virt_to_phys, init_entries, init_entry, zeros, offsetof_data, sizeof_header, overlaps,
  write_header,
}

-- The header that the loop writes for buffer i: its pool, its index, and no packet yet.
abbrev pub NewHeader : ℕ → ℕ → ℕ → Option PktBuf → Type 0
NewHeader entry_size mempool i o =
    (b : PktBuf) × (o ≡ some b)
    × (b.mempool ≡ mempool)
    × (b.mempool_idx ≡ i)
    × (b.size ≡ 0)
    × (b.bytes ≡ zeros (entry_size - offsetof_data))

pub length-zeros : (n : ℕ) → length (zeros n) ≡ n
unfolding zeros
length-zeros zero = refl
length-zeros (suc n) = ap suc (length-zeros n)

-- The address of buffer i.
abbrev pub entry_at : ℕ → ℕ → ℕ → ℕ
entry_at base entry_size i = base + i * entry_size % 2 ^ 32

-- The header of a buffer at `buf` leaves the buffer b at `a` alone.
abbrev pub Apart : (buf a : ℕ) → PktBuf → Type 0
Apart buf a b = (buf ≢ a) × (overlaps buf a b ≡ false)

-- What the rounds lo .. hi - 1 do.
pub record Entries (entry_size mempool base lo hi : ℕ) (s s' : List ℕ) (w w' : World) : Type 0 where
  pub size : length s' ≡ length s
  pub kept : (j : ℕ) → j < lo → get_or s' j 0 ≡ get_or s j 0
  pub index : (j : ℕ) → lo ≤ j → j < hi → get_or s' j 0 ≡ j
  pub pools : w'.pools ≡ w.pools
  pub header :
      sizeof_header ≤ entry_size
      → (j : ℕ) → lo ≤ j
      → j < hi
      → NewHeader entry_size mempool j (w'.bufs (entry_at base entry_size j))
  pub other :
      (a : ℕ) (b : PktBuf)
      → w.bufs a ≡ some b
      → ((j : ℕ) → lo ≤ j → j < hi → Apart (entry_at base entry_size j) a b)
      → w'.bufs a ≡ some b

-- An entry that holds a header is not written into by the entries behind it.
pub entry_at-Apart :
    (entry_size base i j n : ℕ) (b : PktBuf)
    → sizeof_header ≤ entry_size
    → length b.bytes ≡ entry_size - offsetof_data
    → n * entry_size ≤ 2 ^ 32
    → i < j
    → j < n
    → Apart (entry_at base entry_size j) (entry_at base entry_size i) b
entry_at-Apart es base i j n b room len fit lt below =
    let step : i * es + es ≤ j * es = grind arith in
    let last : j * es + es ≤ n * es = grind arith in
    let behind : entry_at base es i + es ≤ entry_at base es j = omega arith in
    (omega arith, ground (arith, behind, room, len))

write_header_self :
    (buf : ℕ) (b : PktBuf) (bufs : ℕ → Option PktBuf) → write_header buf b bufs buf ≡ some b
unfolding write_header
write_header_self buf b bufs = ground arith

write_header-Apart :
    (buf a : ℕ) (b c : PktBuf) (bufs : ℕ → Option PktBuf)
    → bufs a ≡ some c
    → Apart buf a c
    → write_header buf b bufs a ≡ some c
unfolding write_header
write_header-Apart buf a b c bufs at apart = rw (ne→== buf a apart.0, at, apart.1) refl

module _ (env : Env) (entry_size mempool base hi : ℕ) where
  -- A round writes one header, and reads the pagemap.
  init_entry_lem :
      (i : ℕ) (w : World)
      → (w' : World) × (init_entry env i entry_size mempool base w ≡ some (tt, w'))
        × (w'.pools ≡ w.pools)
        × NewHeader entry_size mempool i (w'.bufs (entry_at base entry_size i))
        × ((a : ℕ) (b : PktBuf)
            → w.bufs a ≡ some b
            → Apart (entry_at base entry_size i) a b
            → w'.bufs a ≡ some b)
  unfolding init_entry virt_to_phys
  init_entry_lem i w = (
    _,
    refl,
    refl,
    (_, write_header_self (entry_at base entry_size i) _ w.bufs, refl, refl, refl, refl),
    λ a b at apart. write_header-Apart (entry_at base entry_size i) a _ b w.bufs at apart,
  )

  pub init_entries-Entries :
      (rounds lo : ℕ) (s : List ℕ) (w : World)
      → 0 < entry_size
      → hi * entry_size ≤ 2 ^ 32
      → lo + rounds ≡ hi
      → length s ≡ hi
      → (s' : List ℕ) × (w' : World) × (init_entries env rounds lo entry_size mempool base s w
          ≡ some (s', w'))
        × Entries entry_size mempool base lo hi s s' w w'
  unfolding init_entries
  init_entries-Entries zero lo s w pos fit e len = (
    s,
    w,
    refl,
    record {
      size = refl;
      kept = λ j h. refl;
      index = λ j h k. absurd (omega arith);
      pools = refl;
      header = λ room j h k. absurd (omega arith);
      other = λ a b at h. at;
    },
  )
  init_entries-Entries (suc rounds) lo s w pos fit e len =
      let (w1, step, pools, header, other) = init_entry_lem lo w in
      let (s', w', run, done) =
        init_entries-Entries rounds (lo + 1) (set s lo lo) w1 pos fit (omega arith)
          (length-set s lo lo ∙ len) in
      (
        s',
        w',
        rw (set?-eq-set s lo lo (omega arith)) (
            bind-some (init_entry env lo entry_size mempool base)
              (λ _. init_entries env rounds (lo + 1) entry_size mempool base (set s lo lo)) step
            ∙ run),
        record {
          size = done.size ∙ length-set s lo lo;
          kept = λ j h. done.kept j (omega arith) ∙ get_or-set_ne s lo 0 (omega arith);
          index = λ j h k. elim (dec_lt lo j) [
            | yes more ↦ done.index j (omega arith) k
            | no last ↦
                let same : j ≡ lo = omega arith in
                rw same (done.kept lo (omega arith) ∙ get_or-set_self s lo lo 0 (omega arith))
          ];
          pools = done.pools ∙ pools;
          header = λ room j h k. elim (dec_lt lo j) [
            | yes more ↦ done.header room j (omega arith) k
            | no last ↦
                let same : j ≡ lo = omega arith in
                let (b, at, pool, idx, empty, zero_bytes) = header in
                let len : length b.bytes ≡ entry_size - offsetof_data =
                  ap length zero_bytes ∙ length-zeros (entry_size - offsetof_data) in
                rw same (
                  b,
                  done.other (entry_at base entry_size lo) b at (λ i l below.
                      entry_at-Apart entry_size base lo i hi b room len fit (omega arith) below),
                  pool,
                  idx,
                  empty,
                  zero_bytes,
                )
          ];
          other = λ a b at h.
              done.other a b (other a b at (h lo (omega arith) (omega arith)))
                (λ j l k. h j (omega arith) k);
        },
      )
