-- ===== src/Checksum.antt =====
-- send/through.c and send/app.c: the checksum of the IPv4 header, over its 16-bit words.
pub mod Sum
use ixgbe82599_driver.Base.{
  ℕ, zero, suc, ◌+◌, ◌-◌, ◌*◌, ◌/◌, ◌%◌, ◌^◌, List, [], ◌∷◌, Option, none, some, bit_and, ltb,
  if◌then◌else◌,
}

-- One round: a uint32_t sum, folded once if it leaves 16 bits.
unfoldable pub add_word : (cs word : ℕ) → ℕ
add_word cs word =
    let sum = (cs + word) % 2 ^ 32 in
    if ltb 0xffff sum then (bit_and sum 0xffff + 1) % 2 ^ 32 else sum

-- The loop over the words `((uint16_t *)data)[i]`, the first `rounds` of the data; none for a read
-- past the end.
unfoldable pub sum_words : (rounds cs : ℕ) (words : List ℕ) → Option ℕ
sum_words zero cs words = some cs
sum_words (suc rounds) cs [] = none
sum_words (suc rounds) cs (word ∷ words) = sum_words rounds (add_word cs word) words

-- `~((uint16_t)cs)`, returned as a uint16_t.
abbrev pub complement16 : ℕ → ℕ
complement16 cs = 0xffff - cs % 2 ^ 16

-- The data as the words that the cast reads, each with its low byte first.
unfoldable pub half_words : List ℕ → List ℕ
half_words [] = []
half_words (lo ∷ []) = []
half_words (lo ∷ hi ∷ bytes) = (lo + 256 * hi) ∷ half_words bytes

unfoldable pub calc_ip_checksum : (words : List ℕ) (len : ℕ) → Option ℕ
calc_ip_checksum words len = elim (sum_words (len / 2) 0 words) [
  | none ↦ none
  | some cs ↦ some (complement16 cs)
]
