-- ===== src/Checksum/Sum.antt =====
-- The checksum as arithmetic modulo 2^16 - 1.
use mathlib.Core.Path.{subst}
use ixgbe82599_driver.Base.{
  ℕ, suc, ◌+◌, ◌-◌, ◌*◌, ◌/◌, ◌%◌, ◌^◌, ◌≤◌, ◌<◌, ◌≡◌, refl, ap, ◌∙◌, List, [], ◌∷◌, ◌++◌, some,
  arith, length, ltb, if◌then◌else◌,
}
use ixgbe82599_driver.Base.Bits.{bit_and_low}
use ixgbe82599_driver.Base.Distinct.{AllBelow}
use ixgbe82599_driver.Checksum.{add_word, sum_words, calc_ip_checksum}

abbrev pub total : List ℕ → ℕ
total [] = 0
total (x ∷ xs) = x + total xs

total-append : (xs ys : List ℕ) → total (xs ++ ys) ≡ total xs + total ys
total-append [] ys = omega arith
total-append (x ∷ xs) ys = omega (arith, total-append xs ys)

AllBelow-put :
    (before after : List ℕ) (c d : ℕ) {n : ℕ}
    → c < n
    → AllBelow n (before ++ d ∷ after)
    → AllBelow n (before ++ c ∷ after)
AllBelow-put [] after c d lt h = (lt, h.1)
AllBelow-put (x ∷ before) after c d lt h = (h.0, AllBelow-put before after c d lt h.1)

-- r stands for the number s modulo 2^16 - 1, and is 0 only if s is.
record Folded (s r : ℕ) : Type 0 where
  small : r ≤ 0xffff
  times : ℕ
  same : r + 0xffff * times ≡ s
  nonzero : 0 < s → 0 < r

add_word-Folded :
    (s cs word : ℕ) → Folded s cs → word < 2 ^ 16 → Folded (s + word) (add_word cs word)
unfolding add_word
add_word-Folded s cs word f h = record {
  small = ground (arith, bit_and_low 16 ((cs + word) % 2 ^ 32), f.small);
  times = if ltb 0xffff (cs + word) then suc f.times else f.times;
  same = ground (arith, bit_and_low 16 ((cs + word) % 2 ^ 32), f.small, f.same);
  nonzero = λ p. ground (arith, bit_and_low 16 ((cs + word) % 2 ^ 32), f.small, f.same, f.nonzero);
}

Folded-eq : {s s' r : ℕ} → s ≡ s' → Folded s r → Folded s' r
Folded-eq {r} e f = subst (λ t. Folded t r) e f

sum_words-Folded :
    (words : List ℕ) (s cs : ℕ)
    → Folded s cs
    → AllBelow (2 ^ 16) words
    → (r : ℕ) × (sum_words (length words) cs words ≡ some r) × Folded (s + total words) r
unfolding sum_words
sum_words-Folded [] s cs f h = (cs, refl, Folded-eq (omega arith) f)
sum_words-Folded (x ∷ xs) s cs f h =
    let (r, run, g) =
      sum_words-Folded xs (s + x) (add_word cs x) (add_word-Folded s cs x f h.0) h.1 in
    (r, run, Folded-eq (omega arith) g)

-- The checksum of the words, as the sum of its inputs.
calc-Folded :
    (words : List ℕ)
    → AllBelow (2 ^ 16) words
    → (cs : ℕ) × (calc_ip_checksum words (2 * length words) ≡ some (0xffff - cs))
      × Folded (total words) cs
unfolding calc_ip_checksum
calc-Folded words h =
    let zero_sum : Folded 0 0 = record {
      small = omega arith;
      times = 0;
      same = refl;
      nonzero = λ p. p;
    } in
    let (cs, run, f) = sum_words-Folded words 0 0 zero_sum h in
    let half : 2 * length words / 2 ≡ length words = omega arith in
    let low : cs % 2 ^ 16 ≡ cs = omega (arith, f.small) in
    (cs, rw (half, calc_ip_checksum) (rw (run, low) refl), Folded-eq (omega arith) f)

-- The checksum of 16-bit words exists, is a 16-bit number, and makes the sum of the words and
-- itself a multiple of 2^16 - 1.
pub calc_ip_checksum_lem :
    (words : List ℕ)
    → AllBelow (2 ^ 16) words
    → (c : ℕ) × (calc_ip_checksum words (2 * length words) ≡ some c)
      × (c < 2 ^ 16)
      × ((c + total words) % 0xffff ≡ 0)
calc_ip_checksum_lem words h =
    let (cs, run, f) = calc-Folded words h in
    (0xffff - cs, run, omega arith, omega (arith, f.small, f.same))

-- A header of 16-bit words that carries its own checksum has the checksum 0: if c is computed
-- over the words with 0 in the place of the checksum, and c is put there, the receiver's
-- computation gives 0.
pub calc_ip_checksum-insert :
    (before after : List ℕ)
    → AllBelow (2 ^ 16) (before ++ 0 ∷ after)
    → (c : ℕ) × (calc_ip_checksum (before ++ 0 ∷ after) (2 * length (before ++ 0 ∷ after)) ≡ some c)
      × (calc_ip_checksum (before ++ c ∷ after) (2 * length (before ++ c ∷ after)) ≡ some 0)
calc_ip_checksum-insert before after h =
    let (cs, run, f) = calc-Folded (before ++ 0 ∷ after) h in
    let c = 0xffff - cs in
    let (cs', run', g) =
      calc-Folded (before ++ c ∷ after) (AllBelow-put before after c 0 (omega arith) h) in
    let ones : cs' ≡ 0xffff = omega (
      arith,
      f.small,
      f.same,
      g.small,
      g.same,
      g.nonzero,
      total-append before (0 ∷ after),
      total-append before (c ∷ after),
    ) in
    (c, run, run' ∙ ap some (omega (arith, ones)))
