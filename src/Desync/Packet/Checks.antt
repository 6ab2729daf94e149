-- ===== src/Desync/Packet/Checks.antt =====
-- The checksums of the fake packet verify at the receiver, and the layer skips its own packets.
use raise_my_freedom.Common.{
  ℕ, zero, suc, ◌+◌, ◌*◌, ◌-◌, ◌/◌, ◌%◌, ◌^◌, ◌≤◌, ◌<◌, ◌≡◌, refl, ap, sym, subst, ◌∙◌, take_all,
  take-append-drop, List, [], ◌∷◌, ◌++◌, arith, length, take, drop, All, length-append, length-take,
  length-drop,
}
use raise_my_freedom.Desync.Checksum.{
  sum16, fold_carries, rounds, csum16, ip_csum, tcp_csum, IsByte, words, words-le, sum16-words,
  complement_verifies, IsEven, nil, pair, words-append, SumsToOnes, complement-SumsToOnes,
}
use raise_my_freedom.Desync.Packet.{ip_header, tcp_segment}

pub take-IsByte : (n : ℕ) (l : List ℕ) → All IsByte l → All IsByte (take n l)
take-IsByte zero l h = tt
take-IsByte (suc n) [] h = tt
take-IsByte (suc n) (x ∷ l) (h, t) = (h, take-IsByte n l t)

pub drop-IsByte : (n : ℕ) (l : List ℕ) → All IsByte l → All IsByte (drop n l)
drop-IsByte zero l h = h
drop-IsByte (suc n) [] h = tt
drop-IsByte (suc n) (x ∷ l) (h, t) = drop-IsByte n l t

append-IsByte : (xs ys : List ℕ) → All IsByte xs → All IsByte ys → All IsByte (xs ++ ys)
append-IsByte [] ys h k = k
append-IsByte (x ∷ xs) ys (h, t) k = (h, append-IsByte xs ys t k)

ip_header-All :
    (tos flen ttl : ℕ) (addrs : List ℕ) (c : ℕ)
    → tos < 256
    → ttl < 256
    → All IsByte addrs
    → All IsByte (ip_header tos flen ttl addrs c)
unfolding ip_header
ip_header-All tos flen ttl addrs c ht hl ha = (
  omega arith,
  (
    ht,
    (
      omega arith,
      (
        omega arith,
        (
          omega arith,
          (
            omega arith,
            (omega arith, (omega arith, (hl, (omega arith, (omega arith, (omega arith, ha)))))),
          ),
        ),
      ),
    ),
  ),
)

sum16_zero : (l : List ℕ) → All IsByte l → length l < 65536 → sum16 l 0 ≡ words l
sum16_zero l h short = sum16-words l 0 h (omega arith) ∙ omega arith

-- The receiver's sum over a short list of bytes is its words, folded.
csum16-words :
    (l : List ℕ)
    → All IsByte l
    → length l < 65536
    → csum16 l 0 ≡ 65535 - fold_carries rounds (words l)
unfolding csum16
csum16-words l h short = ap (λ s. 65535 - fold_carries rounds s) (sum16_zero l h (omega arith))

ip_csum-header :
    (tos flen ttl : ℕ) (addrs : List ℕ)
    → ip_csum (ip_header tos flen ttl addrs 0) ≡ csum16 (ip_header tos flen ttl addrs 0) 0
unfolding ip_csum ip_header
ip_csum-header tos flen ttl addrs = refl

words-ip_header :
    (tos flen ttl : ℕ) (addrs : List ℕ) (c : ℕ)
    → c ≤ 65535
    → (words (ip_header tos flen ttl addrs c) ≡ words (ip_header tos flen ttl addrs 0) + c)
      × (0 < words (ip_header tos flen ttl addrs 0))
unfolding ip_header words
words-ip_header tos flen ttl addrs c h = (omega arith, omega arith)

pub length-ip_header :
    (tos flen ttl : ℕ) (addrs : List ℕ) (c : ℕ)
    → length addrs ≡ 8
    → length (ip_header tos flen ttl addrs c) ≡ 20
unfolding ip_header
length-ip_header tos flen ttl addrs c h = omega arith

-- The sum over the header with its check field filled in is zero, as a receiver checks it.
pub ip_header-verifies :
    (tos flen ttl : ℕ) (addrs : List ℕ)
    → tos < 256
    → ttl < 256
    → All IsByte addrs
    → length addrs ≡ 8
    → csum16 (ip_header tos flen ttl addrs (ip_csum (ip_header tos flen ttl addrs 0))) 0 ≡ 0
ip_header-verifies tos flen ttl addrs ht hl ha la =
    let h0 = ip_header tos flen ttl addrs 0 in
    let c = ip_csum h0 in
    let l0 = length-ip_header tos flen ttl addrs 0 la in
    let known =
      ip_csum-header tos flen ttl addrs
      ∙ csum16-words h0 (ip_header-All tos flen ttl addrs 0 ht hl ha) (omega (arith, l0)) in
    let w = words-ip_header tos flen ttl addrs c (omega (arith, known)) in
    let wb = words-le h0 (ip_header-All tos flen ttl addrs 0 ht hl ha) in
    csum16-words (ip_header tos flen ttl addrs c) (ip_header-All tos flen ttl addrs c ht hl ha)
      (omega (arith, length-ip_header tos flen ttl addrs c la))
    ∙ complement_verifies (words h0) (words (ip_header tos flen ttl addrs c)) w.1
        (omega (arith, wb, l0)) (w.0 ∙ ap (λ t. words h0 + t) known)

-- The pseudo-header's part of the TCP sum.
pseudo : List ℕ → List ℕ → ℕ → ℕ
pseudo saddr daddr n = words saddr + words daddr + 6 + n

tcp_csum-words :
    (saddr daddr tcp : List ℕ)
    → All IsByte saddr
    → All IsByte daddr
    → All IsByte tcp
    → length saddr ≤ 4
    → length daddr ≤ 4
    → length tcp < 65000
    → tcp_csum saddr daddr tcp
      ≡ 65535 - fold_carries rounds (pseudo saddr daddr (length tcp) + words tcp)
unfolding tcp_csum pseudo
tcp_csum-words saddr daddr tcp hs hd ht ls ld lt =
    let ws = words-le saddr hs in
    let wd = words-le daddr hd in
    let start = words saddr + words daddr in
    let from : ((start + 6) % 2 ^ 32 + length tcp) % 2 ^ 32 ≡ start + 6 + length tcp =
      omega arith in
    rw (
      sum16_zero saddr hs (omega arith),
      sum16-words daddr (words saddr) hd (omega arith),
      from,
      sum16-words tcp (start + 6 + length tcp) ht (omega arith),
    )

double : ℕ → ℕ
double zero = zero
double (suc k) = suc (suc (double k))

take-IsEven : (k : ℕ) (l : List ℕ) → double k ≤ length l → IsEven (take (double k) l)
unfolding double
take-IsEven zero l h = nil
take-IsEven (suc k) (a ∷ b ∷ l) h = pair a b (take-IsEven k l (omega arith))
take-IsEven (suc k) l h = absurd (omega arith)

module _ (header payload : List ℕ) (hh : All IsByte header) (hp : All IsByte payload) where
  tcp_segment-All : (c : ℕ) → All IsByte (tcp_segment header payload c)
  unfolding tcp_segment
  tcp_segment-All c = append-IsByte (take 16 header) _ (take-IsByte 16 header hh) (
    omega arith,
    (omega arith, append-IsByte (drop 18 header) payload (drop-IsByte 18 header hh) hp),
  )

  length-tcp_segment :
      (c : ℕ)
      → 20 ≤ length header
      → length (tcp_segment header payload c) ≡ length header + length payload
  unfolding tcp_segment
  length-tcp_segment c h =
      let tail = drop 18 header ++ payload in
      omega (
        arith,
        length-append (take 16 header) ((c / 256 % 256) ∷ (c % 256) ∷ tail),
        length-take 16 header (omega arith),
        length-append (drop 18 header) payload,
        length-drop 18 header,
      )

  words-tcp_segment :
      (c : ℕ)
      → c ≤ 65535
      → 20 ≤ length header
      → words (tcp_segment header payload c) ≡ words (tcp_segment header payload 0) + c
  unfolding tcp_segment words double
  words-tcp_segment c small h =
      let even : IsEven (take 16 header) = take-IsEven 8 header (omega arith) in
      let tail = drop 18 header ++ payload in
      omega (
        arith,
        words-append ((c / 256 % 256) ∷ (c % 256) ∷ tail) even,
        words-append (0 ∷ 0 ∷ tail) even,
      )

-- The sum over pseudo-header and segment with the check field filled in is zero.
pub tcp_segment-verifies :
    (saddr daddr header payload : List ℕ)
    → All IsByte saddr
    → All IsByte daddr
    → All IsByte header
    → All IsByte payload
    → length saddr ≤ 4
    → length daddr ≤ 4
    → 20 ≤ length header
    → length header + length payload < 65000
    → tcp_csum saddr daddr
        (tcp_segment header payload (tcp_csum saddr daddr (tcp_segment header payload 0)))
      ≡ 0
unfolding pseudo
tcp_segment-verifies saddr daddr header payload hs hd hh hp ls ld big short =
    let s0 = tcp_segment header payload 0 in
    let c = tcp_csum saddr daddr s0 in
    let l0 = length-tcp_segment header payload hh hp 0 big in
    let lc = length-tcp_segment header payload hh hp c big in
    let b0 = tcp_segment-All header payload hh hp 0 in
    let known = tcp_csum-words saddr daddr s0 hs hd b0 ls ld (omega (arith, l0)) in
    let w = words-tcp_segment header payload hh hp c (omega (arith, known)) big in
    let base = words saddr + words daddr + 6 + length s0 + words s0 in
    let sc = tcp_segment header payload c in
    tcp_csum-words saddr daddr sc hs hd (tcp_segment-All header payload hh hp c) ls ld
      (omega (arith, lc))
    ∙ complement_verifies base (words saddr + words daddr + 6 + length sc + words sc) (omega arith)
        (omega (arith, words-le saddr hs, words-le daddr hd, words-le s0 b0, l0))
        (omega (arith, w, l0, lc, known))

ip_header-positive :
    (tos flen ttl : ℕ) (addrs : List ℕ) (c : ℕ) → 0 < words (ip_header tos flen ttl addrs c)
unfolding ip_header words
ip_header-positive tos flen ttl addrs c = omega arith

-- The words of the header that is sent sum to ones.
pub ip_header-SumsToOnes :
    (tos flen ttl : ℕ) (addrs : List ℕ)
    → tos < 256
    → ttl < 256
    → All IsByte addrs
    → length addrs ≡ 8
    → SumsToOnes (words (ip_header tos flen ttl addrs (ip_csum (ip_header tos flen ttl addrs 0))))
ip_header-SumsToOnes tos flen ttl addrs ht hl ha la =
    let c = ip_csum (ip_header tos flen ttl addrs 0) in
    let h = ip_header tos flen ttl addrs c in
    let bytes = ip_header-All tos flen ttl addrs c ht hl ha in
    let l = length-ip_header tos flen ttl addrs c la in
    let sum = csum16-words h bytes (omega (arith, l)) in
    complement-SumsToOnes (words h) (ip_header-positive tos flen ttl addrs c)
      (omega (arith, words-le h bytes, l))
      (sym sum ∙ ip_header-verifies tos flen ttl addrs ht hl ha la)

pseudo_positive : (s d : List ℕ) (n m : ℕ) → 0 < pseudo s d n + m
unfolding pseudo
pseudo_positive s d n m = omega arith

pseudo_small :
    (s d : List ℕ) (n m : ℕ)
    → words s ≤ 65535 * length s
    → words d ≤ 65535 * length d
    → length s ≤ 4
    → length d ≤ 4
    → n < 65536
    → m ≤ 65535 * 65000
    → pseudo s d n + m < 2 ^ 32
unfolding pseudo
pseudo_small s d n m hs hd ls ld hn hm = omega arith

-- The words of a TCP segment with its pseudo-header: the addresses, a zero, the protocol, and the
-- segment's length.
abbrev pub with_pseudo_header : List ℕ → List ℕ → List ℕ
with_pseudo_header addrs tcp = addrs ++ (0 ∷ 6 ∷ (length tcp / 256) ∷ (length tcp % 256) ∷ tcp)

IsEven-addrs : (addrs : List ℕ) → length addrs ≡ 8 → IsEven addrs
unfolding double
IsEven-addrs addrs l =
    let even : IsEven (take 8 addrs) = take-IsEven 4 addrs (omega (arith, l)) in
    let all : take 8 addrs ≡ addrs = ap (λ n. take n addrs) (sym l) ∙ take_all addrs in
    subst IsEven all even

words-pseudo :
    (addrs tcp : List ℕ)
    → length addrs ≡ 8
    → words (with_pseudo_header addrs tcp)
      ≡ pseudo (take 4 addrs) (drop 4 addrs) (length tcp) + words tcp
unfolding pseudo double words
words-pseudo addrs tcp l =
    let whole : words (take 4 addrs ++ drop 4 addrs) ≡ words addrs =
      ap words (take-append-drop 4 addrs) in
    omega (
      arith,
      whole,
      words-append (0 ∷ 6 ∷ (length tcp / 256) ∷ (length tcp % 256) ∷ tcp) (IsEven-addrs addrs l),
      words-append (drop 4 addrs) (take-IsEven 2 addrs (omega (arith, l))),
    )

-- The words of the segment that is sent, with its pseudo-header, sum to ones.
pub tcp_segment-SumsToOnes :
    (addrs header payload : List ℕ)
    → All IsByte addrs
    → length addrs ≡ 8
    → All IsByte header
    → All IsByte payload
    → 20 ≤ length header
    → length header + length payload < 65000
    → (let check = tcp_csum (take 4 addrs) (drop 4 addrs) (tcp_segment header payload 0) in
        SumsToOnes (words (with_pseudo_header addrs (tcp_segment header payload check))))
tcp_segment-SumsToOnes addrs header payload ha la hh hp big short =
    let s = take 4 addrs in
    let d = drop 4 addrs in
    let hs = take-IsByte 4 addrs ha in
    let hd = drop-IsByte 4 addrs ha in
    let ls = length-take 4 addrs (omega (arith, la)) in
    let ld = length-drop 4 addrs in
    let c = tcp_csum s d (tcp_segment header payload 0) in
    let tcp = tcp_segment header payload c in
    let bytes = tcp_segment-All header payload hh hp c in
    let lt = length-tcp_segment header payload hh hp c big in
    let sum =
      tcp_csum-words s d tcp hs hd bytes (omega (arith, ls)) (omega (arith, ld, la))
        (omega (arith, lt)) in
    let zero =
      tcp_segment-verifies s d header payload hs hd hh hp (omega (arith, ls))
        (omega (arith, ld, la)) big short in
    let all = words-pseudo addrs tcp la in
    rw all (
      complement-SumsToOnes (pseudo s d (length tcp) + words tcp)
        (pseudo_positive s d (length tcp) (words tcp))
        (pseudo_small s d (length tcp) (words tcp) (words-le s hs) (words-le d hd) (omega arith)
          (omega (arith, ld, la)) (omega (arith, lt)) (omega (arith, words-le tcp bytes, lt)))
        (sym sum ∙ zero))
