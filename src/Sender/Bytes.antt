-- ===== src/Sender/Bytes.antt =====
-- send/through.c: the bytes that init_mempool leaves in a buffer, a packet with its checksum.
use ixgbe82599_driver.Base.{
  ℕ, ◌+◌, ◌-◌, ◌*◌, ◌/◌, ◌%◌, ◌^◌, ◌≤◌, ◌<◌, ◌≡◌, refl, ap, sym, ◌∙◌, List, [], ◌∷◌, ◌++◌, some,
  arith, length, take, drop, length-append, set?,
}
use Prim.Native.Nat.add
use mathlib.Core.List.{append_assoc}
use ixgbe82599_driver.Base.Distinct.{AllBelow}
use ixgbe82599_driver.Checksum.{half_words, calc_ip_checksum}
use ixgbe82599_driver.Checksum.Sum.{calc_ip_checksum_lem, calc_ip_checksum-insert}
use ixgbe82599_driver.Sender.{copy_bytes, store_half, packet_bytes}

copy_bytes-append :
    (dst src : List ℕ)
    → length src ≤ length dst
    → copy_bytes dst src ≡ some (src ++ drop (length src) dst)
unfolding copy_bytes
copy_bytes-append dst [] h = refl
copy_bytes-append [] (x ∷ src) h = absurd (omega arith)
copy_bytes-append (d ∷ dst) (x ∷ src) h = rw (copy_bytes-append dst src (omega arith)) refl

drop-append : (xs ys : List ℕ) → drop (length xs) (xs ++ ys) ≡ ys
drop-append [] ys = refl
drop-append (x ∷ xs) ys = drop-append xs ys

take-append : (xs ys : List ℕ) → take (length xs) (xs ++ ys) ≡ xs
take-append [] ys = refl
take-append (x ∷ xs) ys = ap (◌∷◌ x) (take-append xs ys)

set?-append : (xs ys : List ℕ) (y v : ℕ) → set? (xs ++ y ∷ ys) (length xs) v ≡ some (xs ++ v ∷ ys)
unfolding set?
set?-append [] ys y v = refl
set?-append (x ∷ xs) ys y v = rw (set?-append xs ys y v) refl

set?-append-next :
    (xs ys : List ℕ) (y z v : ℕ)
    → set? (xs ++ y ∷ z ∷ ys) (length xs + 1) v ≡ some (xs ++ y ∷ v ∷ ys)
unfolding set?
set?-append-next [] ys y z v = refl
set?-append-next (x ∷ xs) ys y z v = rw add.suc (rw (set?-append-next xs ys y z v) refl)

store_half-append :
    (before after : List ℕ) (a b v : ℕ)
    → store_half (length before) v (before ++ a ∷ b ∷ after)
      ≡ some (before ++ v % 256 ∷ v / 256 % 256 ∷ after)
unfolding store_half
store_half-append before after a b v =
    rw (set?-append before (b ∷ after) a (v % 256), store_half)
      (set?-append-next before after (v % 256) b (v / 256 % 256))

-- Bytes in pairs.
half_words-append :
    (k : ℕ) (xs ys : List ℕ)
    → length xs ≡ 2 * k
    → half_words (xs ++ ys) ≡ half_words xs ++ half_words ys
unfolding half_words
half_words-append k [] ys e = refl
half_words-append k (x ∷ []) ys e = absurd (omega arith)
half_words-append k (x ∷ y ∷ xs) ys e =
    ap (◌∷◌ (x + 256 * y)) (half_words-append (k - 1) xs ys (omega arith))

length-half_words : (k : ℕ) (xs : List ℕ) → length xs ≡ 2 * k → length (half_words xs) ≡ k
unfolding half_words
length-half_words k [] e = omega arith
length-half_words k (x ∷ []) e = absurd (omega arith)
length-half_words k (x ∷ y ∷ xs) e = omega (arith, length-half_words (k - 1) xs (omega arith))

AllBelow-half_words : (xs : List ℕ) → AllBelow 256 xs → AllBelow (2 ^ 16) (half_words xs)
unfolding half_words
AllBelow-half_words [] h = tt
AllBelow-half_words (x ∷ []) h = tt
AllBelow-half_words (x ∷ y ∷ xs) h = (omega (arith, h.0, h.1.0), AllBelow-half_words xs h.1.1)

-- A header of 20 bytes, ten before the checksum and eight after it.
abbrev pub header_with : (before after : List ℕ) (checksum : ℕ) → List ℕ
header_with before after checksum = before ++ checksum % 256 ∷ checksum / 256 % 256 ∷ after

-- Words of a header whose checksum is a 16-bit number.
header_words :
    (before after : List ℕ) (c : ℕ)
    → length before ≡ 10
    → c < 2 ^ 16
    → half_words (header_with before after c) ≡ half_words before ++ c ∷ half_words after
unfolding half_words
header_words before after c ten small =
    half_words-append 5 before _ ten
    ∙ ap (λ v. half_words before ++ v ∷ half_words after) (omega arith)

length-header_with :
    (before after : List ℕ) (c : ℕ)
    → length before ≡ 10
    → length after ≡ 8
    → length (header_with before after c) ≡ 20
length-header_with before after c ten eight =
    omega (arith, length-append before (c % 256 ∷ c / 256 % 256 ∷ after))

AllBelow-append : (n : ℕ) (xs ys : List ℕ) → AllBelow n xs → AllBelow n ys → AllBelow n (xs ++ ys)
AllBelow-append n [] ys h k = k
AllBelow-append n (x ∷ xs) ys h k = (h.0, AllBelow-append n xs ys h.1 k)

-- The checksum of such a header with 0 in its place, and of the header that carries it.
header_checksum :
    (before after : List ℕ)
    → length before ≡ 10
    → length after ≡ 8
    → AllBelow 256 before
    → AllBelow 256 after
    → (c : ℕ) × (calc_ip_checksum (half_words (header_with before after 0)) 20 ≡ some c)
      × (calc_ip_checksum (half_words (header_with before after c)) 20 ≡ some 0)
header_checksum before after ten eight low_before low_after =
    let hb = half_words before in
    let ha = half_words after in
    let low : AllBelow (2 ^ 16) (hb ++ 0 ∷ ha) =
      AllBelow-append _ hb (0 ∷ ha) (AllBelow-half_words before low_before)
        (omega arith, AllBelow-half_words after low_after) in
    let (c, run, check) = calc_ip_checksum-insert hb ha low in
    let (d, again, small, sum) = calc_ip_checksum_lem (hb ++ 0 ∷ ha) low in
    let same : d ≡ c = cc (run, again) in
    let ten_words : (v : ℕ) → 2 * length (hb ++ v ∷ ha) ≡ 20 = λ v. omega (
      arith,
      length-append hb (v ∷ ha),
      length-half_words 5 before ten,
      length-half_words 4 after eight,
    ) in
    (
      c,
      rw (header_words before after 0 ten (omega arith))
          (ap (calc_ip_checksum (hb ++ 0 ∷ ha)) (sym (ten_words 0)) ∙ run),
      rw (header_words before after c ten (omega (arith, small, same)))
          (ap (calc_ip_checksum (hb ++ c ∷ ha)) (sym (ten_words c)) ∙ check),
    )

module _ (eth before after tail : List ℕ) (e14 : length eth ≡ 14) (ten : length before ≡ 10) where
  header_part :
      (c : ℕ)
      → length after ≡ 8
      → take 20 (drop 14 (eth ++ (header_with before after c ++ tail))) ≡ header_with before after c
  header_part c eight =
      let h = header_with before after c in
      ap (λ k. take 20 (drop k (eth ++ (h ++ tail)))) (sym e14)
      ∙ ap (take 20) (drop-append eth (h ++ tail))
      ∙ ap (λ k. take k (h ++ tail)) (sym (length-header_with before after c ten eight))
      ∙ take-append h tail

  around_checksum :
      (x y : ℕ)
      → eth ++ ((before ++ x ∷ y ∷ after) ++ tail) ≡ (eth ++ before) ++ x ∷ y ∷ (after ++ tail)
  around_checksum x y =
      ap (◌++◌ eth) (append_assoc before (x ∷ y ∷ after) tail)
      ∙ sym (append_assoc eth before (x ∷ y ∷ (after ++ tail)))

  store_half-header :
      (c : ℕ)
      → store_half 24 c (eth ++ (header_with before after 0 ++ tail))
        ≡ some (eth ++ (header_with before after c ++ tail))
  store_half-header c =
      let at_24 : length (eth ++ before) ≡ 24 = omega (arith, length-append eth before) in
      ap (store_half 24 c) (around_checksum 0 0)
      ∙ ap (λ k. store_half k c ((eth ++ before) ++ 0 ∷ 0 ∷ (after ++ tail))) (sym at_24)
      ∙ store_half-append (eth ++ before) (after ++ tail) 0 0 c
      ∙ ap some (sym (around_checksum (c % 256) (c / 256 % 256)))

-- A packet with 0 in the place of its checksum, copied into a buffer with room for it: the bytes
-- are the packet's, but for the checksum, and then the buffer's. The header that they have is one
-- that a receiver accepts.
pub packet_bytes_lem :
    (eth before after rest bytes : List ℕ)
    → length eth ≡ 14
    → length before ≡ 10
    → length after ≡ 8
    → AllBelow 256 before
    → AllBelow 256 after
    → let packet = eth ++ (header_with before after 0 ++ rest) in
      length packet ≤ length bytes
      → (c : ℕ) × (packet_bytes packet bytes
          ≡ some (eth ++ (header_with before after c ++ (rest ++ drop (length packet) bytes))))
        × (calc_ip_checksum (half_words (header_with before after c)) 20 ≡ some 0)
unfolding packet_bytes
packet_bytes_lem eth before after rest bytes e14 ten eight low_before low_after fit =
    let packet = eth ++ (header_with before after 0 ++ rest) in
    let tail = rest ++ drop (length packet) bytes in
    let laid : packet ++ drop (length packet) bytes ≡ eth ++ (header_with before after 0 ++ tail) =
      append_assoc eth (header_with before after 0 ++ rest) (drop (length packet) bytes)
      ∙ ap (◌++◌ eth)
          (append_assoc (header_with before after 0) rest (drop (length packet) bytes)) in
    let copied = copy_bytes-append bytes packet fit ∙ ap some laid in
    let (c, sum, check) = header_checksum before after ten eight low_before low_after in
    (
      c,
      rw (copied, packet_bytes)
          (rw (header_part eth before after tail e14 ten 0 eight, sum)
            (store_half-header eth before after tail e14 ten c)),
      check,
    )
