-- ===== src/Desync/Checksum.antt =====
-- The checksums of desync/desync.c: `csum16`, `sum16`, `ip_csum` and `tcp_csum` on lists of bytes.
-- Sums are uint32_t; `~sum` cut to sixteen bits is 65535 less the folded sum.
use raise_my_freedom.Common.{
  ℕ, zero, suc, ◌+◌, ◌-◌, ◌*◌, ◌/◌, ◌%◌, ◌^◌, ◌≤◌, ◌<◌, ◌≡◌, List, [], ◌∷◌, ◌++◌, arith, ltb,
  if◌then◌else◌, length, All, take, drop,
}

-- `sum16`, and the first loop of `csum16`.
unfoldable pub sum16 : List ℕ → ℕ → ℕ
sum16 [] sum = sum
sum16 (a ∷ []) sum = (sum + a * 256) % 2 ^ 32
sum16 (a ∷ b ∷ rest) sum = sum16 rest ((sum + (a * 256 + b)) % 2 ^ 32)

-- `while (sum >> 16) sum = (sum & 0xFFFF) + (sum >> 16);`
unfoldable pub fold_carries : ℕ → ℕ → ℕ
fold_carries zero sum = sum
fold_carries (suc fuel) sum =
    let next = fold_carries fuel (sum % 2 ^ 16 + sum / 2 ^ 16) in
    if ltb 0 (sum / 2 ^ 16) then next else sum

-- A uint32_t needs two rounds at most.
abbrev pub rounds : ℕ
rounds = 2

unfoldable pub csum16 : List ℕ → ℕ → ℕ
unfolding sum16 fold_carries
csum16 bytes seed = 65535 - fold_carries rounds (sum16 bytes seed)

-- `ip_csum`: the twenty header bytes with the check field, bytes 10 and 11, taken as zero.
unfoldable pub ip_csum : List ℕ → ℕ
unfolding csum16
ip_csum header = csum16 (take 10 header ++ (0 ∷ 0 ∷ drop 12 header)) 0

-- `tcp_csum`: the two addresses, the protocol, the length, the segment.
unfoldable pub tcp_csum : List ℕ → List ℕ → List ℕ → ℕ
unfolding sum16 fold_carries
tcp_csum saddr daddr tcp =
    let sum = sum16 daddr (sum16 saddr 0) in
    let pseudo = ((sum + 6) % 2 ^ 32 + length tcp) % 2 ^ 32 in
    65535 - fold_carries rounds (sum16 tcp pseudo)

abbrev pub IsByte : ℕ → Type 0
IsByte b = b < 256

-- The sum of the 16-bit words, an odd last byte being the high one.
unfoldable pub words : List ℕ → ℕ
words [] = 0
words (a ∷ []) = a * 256
words (a ∷ b ∷ rest) = a * 256 + b + words rest

pub words-le : (l : List ℕ) → All IsByte l → words l ≤ 65535 * length l
unfolding words
words-le [] h = omega arith
words-le (a ∷ []) h = omega arith
words-le (a ∷ b ∷ rest) (ha, (hb, t)) = omega (arith, words-le rest t)

-- While the sum cannot overflow, it is the sum of the words.
pub sum16-words :
    (l : List ℕ) (sum : ℕ)
    → All IsByte l
    → sum + 65535 * length l < 2 ^ 32
    → sum16 l sum ≡ sum + words l
unfolding sum16 words
sum16-words [] sum h fits = omega arith
sum16-words (a ∷ []) sum h fits = omega arith
sum16-words (a ∷ b ∷ rest) sum (ha, (hb, t)) fits =
    omega (arith, sum16-words rest ((sum + (a * 256 + b)) % 2 ^ 32) t (omega arith))

-- The folded sum of a uint32_t: sixteen bits, the same number modulo 65535, zero only for zero.
pub record Folds (s f : ℕ) : Type 0 where
  pub small : f ≤ 65535
  pub same : f % 65535 ≡ s % 65535
  pub positive : 0 < s → 0 < f

pub fold_carries-Folds : (s : ℕ) → s < 2 ^ 32 → Folds s (fold_carries rounds s)
unfolding fold_carries
fold_carries-Folds s h = record {
  small = ground arith;
  same = ground arith;
  positive = ground arith;
}

-- Adding the complement of its folded sum to a sum makes the new sum's complement zero.
pub complement_verifies :
    (s t : ℕ)
    → 0 < s
    → s + 65535 < 2 ^ 32
    → t ≡ s + (65535 - fold_carries rounds s)
    → 65535 - fold_carries rounds t ≡ 0
complement_verifies s t pos fits e =
    let f = fold_carries-Folds s (omega arith) in
    let g = fold_carries-Folds t (omega arith) in omega arith

-- A list of even length, by pairs.
pub data IsEven : List ℕ → Type 0 where
  nil : IsEven []
  pair : {l : List ℕ} (a b : ℕ) → IsEven l → IsEven (a ∷ b ∷ l)

pub words-append : {xs : List ℕ} (ys : List ℕ) → IsEven xs → words (xs ++ ys) ≡ words xs + words ys
unfolding words
words-append ys nil = omega arith
words-append ys (pair a b e) = omega (arith, words-append ys e)

-- The receiver's rule of RFC 1071 on a sum of 16-bit words: in ones' complement it is all ones, that
-- is, it is not zero and a multiple of 65535.
abbrev pub SumsToOnes : ℕ → Type 0
SumsToOnes s = (0 < s) × (s % 65535 ≡ 0)

pub complement-SumsToOnes :
    (s : ℕ) → 0 < s → s < 2 ^ 32 → 65535 - fold_carries rounds s ≡ 0 → SumsToOnes s
complement-SumsToOnes s pos fits e = let f = fold_carries-Folds s fits in (pos, omega arith)
