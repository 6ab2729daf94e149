-- ===== src/Netfilter/Pattern/Wire.antt =====
-- The pattern of a rule and the name in a query are the same bytes.
use raise_my_freedom.Common.{
  ℕ, zero, suc, ◌+◌, ◌-◌, ◌*◌, ◌/◌, ◌%◌, ◌≤◌, ◌<◌, ◌≡◌, refl, ap, Bool, true, false, ◌&&◌, Option,
  none, some, List, [], ◌∷◌, ◌++◌, arith, ltb, leb, if◌then◌else◌, length, All, Scan, ok, ◌>>=◌,
  guard-eq-ok, >>=-eq-ok, append-nil, subst, ◌==◌, ◌⊎◌,
}
use raise_my_freedom.Desync.Checksum.{IsByte}
use raise_my_freedom.Dns.Query.{split_label, labels}
use raise_my_freedom.Netfilter.Pattern.{hex_digit, hex2, hex_bytes, hex_labels, nf_wire_hex_pattern}

-- The value of an upper-case hex digit.
abbrev digit_value : ℕ → ℕ
digit_value c = if ltb c b'A' then c - b'0' else c - b'A' + 10

-- The bytes that a hex text stands for.
unfoldable pub unhex : List ℕ → List ℕ
unhex [] = []
unhex (a ∷ []) = []
unhex (a ∷ b ∷ s) = (digit_value a * 16 + digit_value b) ∷ unhex s

abbrev pub IsHexDigit : ℕ → Type 0
IsHexDigit c = (b'0' ≤ c) × (c ≤ b'9') ⊎ (b'A' ≤ c) × (c ≤ b'F')

-- What the pattern promises: hex digits only, and which bytes they stand for.
pub record Writes (text bytes : List ℕ) : Type 0 where
  pub digits : All IsHexDigit text
  pub value : unhex text ≡ bytes

nil-Writes : Writes [] []
unfolding unhex
nil-Writes = record { digits = tt; value = refl }

cons-Writes :
    (b : ℕ) (text bytes : List ℕ)
    → b < 256
    → Writes text bytes
    → Writes (hex2 b ++ text) (b ∷ bytes)
unfolding unhex
cons-Writes b text bytes h w = record {
  digits = (ground arith, (ground arith, w.digits));
  value = rw w.value (byte_back b bytes h);
}
  where
    byte_back :
        (b : ℕ) (bytes : List ℕ)
        → b < 256
        → (digit_value (hex_digit (b / 16)) * 16 + digit_value (hex_digit (b % 16))) ∷ bytes
          ≡ b ∷ bytes
    byte_back b bytes h = ap (λ (n : ℕ). n ∷ bytes) (ground arith)

-- The same in front of a text: what is written so far and what follows.
hex_bytes-Writes :
    (bs : List ℕ) (used size : ℕ) (text rest bytes : List ℕ)
    → All IsByte bs
    → hex_bytes bs used size ≡ ok text
    → Writes rest bytes
    → Writes (text ++ rest) (bs ++ bytes)
unfolding hex_bytes
hex_bytes-Writes [] used size text rest bytes h e w = let same : [] ≡ text = cc e in rw (← same) w
hex_bytes-Writes (b ∷ bs) used size text rest bytes (hb, h) e w =
    let (_, e1) = guard-eq-ok (ltb (used + 2) size) _ e in
    let (more, e2, e3) = >>=-eq-ok (hex_bytes bs (used + 2) size) _ e1 in
    let same : hex2 b ++ more ≡ text = cc e3 in
    rw (← same) (
      cons-Writes b (more ++ rest) (bs ++ bytes) hb
        (hex_bytes-Writes bs (used + 2) size more rest bytes h e2 w))

split_label-IsByte :
    (s : List ℕ)
    → All IsByte s
    → All IsByte (split_label s).0
      × ((rest : List ℕ) → (split_label s).1 ≡ some rest → All IsByte rest)
unfolding split_label
split_label-IsByte [] h = (tt, λ rest e. cc)
split_label-IsByte (c ∷ s) (hc, h) =
    at_dot (c == b'.') (split_label s) (split_label-IsByte s h) h hc
  where
    at_dot :
        (b : Bool) (r : List ℕ × Option (List ℕ))
        → All IsByte r.0 × ((rest : List ℕ) → r.1 ≡ some rest → All IsByte rest)
        → All IsByte s
        → IsByte c
        → (let v : List ℕ × Option (List ℕ) = if b then ([], some s) else (c ∷ r.0, r.1) in
            All IsByte v.0 × ((rest : List ℕ) → v.1 ≡ some rest → All IsByte rest))
    at_dot true r k hs hc = (tt, λ rest e. subst (All IsByte) (cc e) hs)
    at_dot false r k hs hc = ((hc, k.0), k.1)

hex_labels-Writes :
    (fuel fuel' : ℕ) (s : List ℕ) (used size written room : ℕ) (text name : List ℕ)
    → All IsByte s
    → hex_labels fuel s used size ≡ ok text
    → labels fuel' s written room ≡ ok name
    → Writes text name
unfolding hex_labels labels
hex_labels-Writes zero fuel' s used size written room text name h e k = cc
hex_labels-Writes fuel zero s used size written room text name h e k = cc
hex_labels-Writes (suc fuel) (suc fuel') [] used size written room text name h e k =
    let a : [] ≡ text = cc e in let b : [] ≡ name = cc k in rw (← a, ← b) nil-Writes
hex_labels-Writes (suc fuel) (suc fuel') (c ∷ s) used size written room text name h e k =
    let (g, e1) =
      guard-eq-ok
        (leb 1 (length (split_label (c ∷ s)).0) && leb (length (split_label (c ∷ s)).0) 63) _ e in
    let (_, e2) = guard-eq-ok (ltb (used + 2) size) _ e1 in
    let (bytes, e3, e4) = >>=-eq-ok (hex_bytes (split_label (c ∷ s)).0 (used + 2) size) _ e2 in
    let (_, k1) =
      guard-eq-ok
        (leb 1 (length (split_label (c ∷ s)).0)
          && leb (length (split_label (c ∷ s)).0) 63
          && ltb (written + length (split_label (c ∷ s)).0 + 6) room)
        _ k in
    let (hl, hr) = split_label-IsByte (c ∷ s) h in
    by_rest (hex_labels-Writes fuel fuel') (split_label (c ∷ s)).0 (split_label (c ∷ s)).1 bytes
      (ground (arith, g)) hl hr e3 e4 k1
  where
    by_rest :
        ((r : List ℕ) (u v w z : ℕ) (t n : List ℕ)
          → All IsByte r
          → hex_labels fuel r u v ≡ ok t
          → labels fuel' r w z ≡ ok n
          → Writes t n)
        → (label : List ℕ) (tail : Option (List ℕ)) (bytes : List ℕ) → length label < 256
        → All IsByte label
        → ((rest : List ℕ) → tail ≡ some rest → All IsByte rest)
        → hex_bytes label (used + 2) size ≡ ok bytes
        → (let v : Scan (List ℕ) = elim tail [
          | none ↦ ok (hex2 (length label) ++ bytes)
          | some rest ↦ hex_labels fuel rest (used + 2 + 2 * length label) size >>= λ more.
              ok (hex2 (length label) ++ (bytes ++ more))
        ] in
            v)
          ≡ ok text
        → (let v : Scan (List ℕ) = elim tail [
          | none ↦ ok (length label ∷ label)
          | some rest ↦ labels fuel' rest (written + 1 + length label) room >>= λ more.
              ok (length label ∷ (label ++ more))
        ] in
            v)
          ≡ ok name
        → Writes text name
    by_rest again label none bytes lt hl hr eb et en =
        let a : hex2 (length label) ++ bytes ≡ text = cc et in
        let b : length label ∷ label ≡ name = cc en in
        rw (← a, ← b)
          (cons-Writes (length label) bytes label lt (
            rw (append-nil bytes, append-nil label) at
              (hex_bytes-Writes label (used + 2) size bytes [] [] hl eb nil-Writes)))
    by_rest again label (some rest) bytes lt hl hr eb et en =
        let (more, e5, e6) =
          >>=-eq-ok (hex_labels fuel rest (used + 2 + 2 * length label) size) _ et in
        let (more', k5, k6) =
          >>=-eq-ok (labels fuel' rest (written + 1 + length label) room) _ en in
        let a : hex2 (length label) ++ (bytes ++ more) ≡ text = cc e6 in
        let b : length label ∷ (label ++ more') ≡ name = cc k6 in
        rw (← a, ← b)
          (cons-Writes (length label) (bytes ++ more) (label ++ more') lt (
            hex_bytes-Writes label (used + 2) size bytes more more' hl eb
              (again rest _ size _ room more more' (hr rest refl) e5 k5)))

-- For a domain of bytes that both `nf_wire_hex_pattern` and `build_query`'s label loop take: the
-- pattern has upper-case hex digits only, and stands for exactly the bytes that a query for the
-- domain carries in front of the closing zero.
pub nf_wire_hex_pattern-labels :
    (domain text name : List ℕ) (size room : ℕ)
    → All IsByte domain
    → nf_wire_hex_pattern domain size ≡ ok text
    → labels (suc (length domain)) domain 12 room ≡ ok name
    → Writes text name
unfolding nf_wire_hex_pattern
nf_wire_hex_pattern-labels domain text name size room h e k =
    let (_, e1) = guard-eq-ok (ltb 0 (length domain) && ltb 0 size) _ e in
    hex_labels-Writes (suc (length domain)) (suc (length domain)) domain 0 size 12 room text name h
      e1 k
