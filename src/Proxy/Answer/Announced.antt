-- ===== src/Proxy/Answer/Announced.antt =====
-- What the proxy's answer with several addresses announces, and its size.
use raise_my_freedom.Common.{
  ℕ, zero, suc, ◌+◌, ◌-◌, ◌*◌, ◌/◌, ◌≤◌, ◌<◌, ◌≡◌, refl, ◌∙◌, Bool, true, ◌&&◌, Option, none, some,
  List, [], ◌∷◌, ◌++◌, arith, ltb, leb, ◌==◌, if◌then◌else◌, length, drop, get_or, All, Ensures,
  returned, Ensures-bind, Ensures-map, Ensures-guard, Ensures-at, length-append, length-take,
  length-drop, Bool-cases, inl, inr, leb→le, ltb→lt,
}
use raise_my_freedom.Dns.Answer.{is_pointer}
use raise_my_freedom.Proxy.Answer.{skip_loop, skip_qname, answer_head, records, build_a_resp_multi}

-- How many texts `inet_pton` took.
unfoldable pub taken : List (Option (List ℕ)) → ℕ
taken [] = 0
taken (none ∷ l) = taken l
taken (some a ∷ l) = suc (taken l)

-- An address that `inet_pton` makes has four bytes.
abbrev pub IsIpv4 : Option (List ℕ) → Type 0
IsIpv4 none = Unit
IsIpv4 (some a) = length a ≡ 4

-- The count of answers in a message's header.
abbrev pub announced : List ℕ → ℕ
announced r = get_or r 6 0 * 256 + get_or r 7 0

-- An answer within the room: a head no longer than the query, and behind it as many records of 16
-- bytes as the head announces, one for each text that was taken.
pub data IsAnswer (query : List ℕ) (size : ℕ) (addresses : List (Option (List ℕ)))
    : List ℕ → Type 0 where
  is_answer :
      (head : List ℕ) {r : List ℕ}
      → r ≡ head ++ records addresses
      → length head ≤ length query
      → 0 < taken addresses
      → announced r ≡ taken addresses
      → length (records addresses) ≡ 16 * taken addresses
      → length r ≤ size
      → IsAnswer query size addresses r

length-records : (l : List (Option (List ℕ))) → All IsIpv4 l → length (records l) ≡ 16 * taken l
unfolding records taken
length-records [] h = refl
length-records (none ∷ l) (u, h) = length-records l h
length-records (some a ∷ l) (e, h) =
    omega (arith, e, length-records l h, length-append a (records l))

taken_le : (l : List (Option (List ℕ))) → taken l ≤ length l
unfolding taken
taken_le [] = omega arith
taken_le (none ∷ l) = omega (arith, taken_le l)
taken_le (some a ∷ l) = omega (arith, taken_le l)

-- The walk over the name never moves back, and ends.
skip_loop-safe :
    (fuel : ℕ) (pkt : List ℕ) (pos : ℕ)
    → 0 < fuel
    → length pkt < fuel + pos
    → Ensures (λ p. pos ≤ p) (skip_loop fuel pkt pos)
unfolding skip_loop
skip_loop-safe zero pkt pos h l = absurd (omega arith)
skip_loop-safe (suc fuel) pkt pos h l = elim (Bool-cases (ltb pos (length pkt))) [
  | inr e ↦ rw (skip_loop, e) (returned (omega arith))
  | inl e ↦
      let inside : pos < length pkt = ltb→lt pos (length pkt) e in
      rw (skip_loop, e)
        (Ensures-bind (Ensures-at pkt pos inside) λ label r. elim (Bool-cases (label == 0)) [
          | inl z ↦ rw z (returned (omega arith))
          | inr z ↦ elim (Bool-cases (is_pointer label)) [
            | inl p ↦ rw (z, p) (returned (omega arith))
            | inr p ↦
                rw (z, p)
                  (Ensures-map (λ q l. omega arith)
                    (skip_loop-safe fuel pkt (pos + 1 + label) (omega arith) (omega arith)))
          ]
        ])
]

skip_qname-safe : (pkt : List ℕ) → 0 < length pkt → Ensures (λ p. 12 ≤ p) (skip_qname pkt)
unfolding skip_qname
skip_qname-safe pkt h =
    Ensures-bind (skip_loop-safe (length pkt) pkt 12 h (omega arith))
      λ p l. returned (one_on p (ltb p (length pkt)) l)
  where
    one_on : (p : ℕ) (b : Bool) → 12 ≤ p → 12 ≤ (if b then p + 1 else p)
    one_on p b l = ground arith

length-answer_head :
    (query : List ℕ) (section k : ℕ)
    → 12 ≤ section
    → section ≤ length query
    → length (answer_head query section k) ≡ section
length-answer_head (a ∷ b ∷ c ∷ d ∷ e ∷ f ∷ query) section k l h = omega (
  arith,
  length-drop 6 query,
  length-take (section - 12) (drop 6 query) (omega (arith, length-drop 6 query)),
)
length-answer_head [] section k l h = absurd (omega arith)
length-answer_head (a ∷ []) section k l h = absurd (omega arith)
length-answer_head (a ∷ b ∷ []) section k l h = absurd (omega arith)
length-answer_head (a ∷ b ∷ c ∷ []) section k l h = absurd (omega arith)
length-answer_head (a ∷ b ∷ c ∷ d ∷ []) section k l h = absurd (omega arith)
length-answer_head (a ∷ b ∷ c ∷ d ∷ e ∷ []) section k l h = absurd (omega arith)

announced-answer_head :
    (query : List ℕ) (section k : ℕ) (behind : List ℕ)
    → 6 ≤ length query
    → announced (answer_head query section k ++ behind) ≡ k
announced-answer_head (a ∷ b ∷ c ∷ d ∷ e ∷ f ∷ query) section k behind h = omega arith
announced-answer_head [] section k behind h = absurd (omega arith)
announced-answer_head (a ∷ []) section k behind h = absurd (omega arith)
announced-answer_head (a ∷ b ∷ []) section k behind h = absurd (omega arith)
announced-answer_head (a ∷ b ∷ c ∷ []) section k behind h = absurd (omega arith)
announced-answer_head (a ∷ b ∷ c ∷ d ∷ []) section k behind h = absurd (omega arith)
announced-answer_head (a ∷ b ∷ c ∷ d ∷ e ∷ []) section k behind h = absurd (omega arith)

-- For a query with a byte at least, and addresses of four bytes where there is one, nothing is read
-- outside the query, the walk over its name ends, and the answer, if one is made, fits the room and
-- announces exactly the addresses it holds, one at least.
pub build_a_resp_multi-IsAnswer :
    (query : List ℕ) (size : ℕ) (addresses : List (Option (List ℕ)))
    → 0 < length query
    → All IsIpv4 addresses
    → Ensures (IsAnswer query size addresses) (build_a_resp_multi query size addresses)
unfolding build_a_resp_multi
build_a_resp_multi-IsAnswer query size addresses h a = Ensures-bind (skip_qname-safe query h) λ q l.
    Ensures-bind (Ensures-guard _) λ _ g. Ensures-bind (Ensures-guard _) λ _ room.
      Ensures-bind (Ensures-guard _) λ _ some_taken. returned (
        answered q l (within (q + 4) (length query) _ _ g) (leb→le _ size room)
          (ltb→lt 0 _ some_taken))
  where
    within : (s n : ℕ) (b c : Bool) → leb s n && b && c ≡ true → s ≤ n
    within s n b c e = ground arith

    answered :
        (q : ℕ)
        → 12 ≤ q
        → q + 4 ≤ length query
        → q + 4 + 16 * length addresses ≤ size
        → 0 < length (records addresses) / 16
        → IsAnswer query size addresses
            (answer_head query (q + 4) (length (records addresses) / 16) ++ records addresses)
    answered q l inside room some_taken =
        let k : ℕ = length (records addresses) / 16 in
        let count = length-records addresses a in
        let size_of = length-answer_head query (q + 4) k (omega arith) inside in
        is_answer (answer_head query (q + 4) k) refl (omega (arith, size_of)) (omega (arith, count))
          (announced-answer_head query (q + 4) k (records addresses) (omega arith)
            ∙ (omega (arith, count)))
          count
          (omega (
            arith,
            size_of,
            count,
            taken_le addresses,
            length-append (answer_head query (q + 4) k) (records addresses),
          ))
