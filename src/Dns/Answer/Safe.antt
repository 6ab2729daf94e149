-- ===== src/Dns/Answer/Safe.antt =====
-- The readers of answers stay inside the response and end.
use raise_my_freedom.Common.{
  ℕ, zero, suc, ◌+◌, ◌≤◌, ◌<◌, ◌≡◌, refl, ◌&&◌, ◌||◌, Option, none, some, List, arith, ltb, leb,
  ◌==◌, length, Scan, fault, stop, ok, Ensures, stopped, returned, Ensures-bind, Ensures-guard,
  Ensures-at, Ensures-be16, Ensures-map, Bool-cases, inl, inr, leb→le, ltb→lt,
}
use raise_my_freedom.Dns.Answer.{
  is_pointer, past_zero, question_labels, skip_question, owner_labels, skip_owner, Address,
  address_at, answer, check_header, udp_loop, parse_udp,
}

module _ (p : List ℕ) where
  question_labels-le :
      (fuel off : ℕ)
      → 0 < fuel
      → length p < off + fuel
      → Ensures (λ q. off ≤ q) (question_labels fuel p off)
  unfolding question_labels
  question_labels-le zero off pos h = elim pos [ ]
  question_labels-le (suc fuel) off pos h = elim (Bool-cases (ltb off (length p))) [
    | inr e ↦ rw (e, question_labels) (returned (omega arith))
    | inl e ↦
        rw (e, question_labels)
          (Ensures-bind (Ensures-at p off (ltb→lt off (length p) e)) λ b _.
            elim (Bool-cases (b == 0)) [
              | inl f ↦ rw f (returned (omega arith))
              | inr f ↦ elim (Bool-cases (is_pointer b)) [
                | inl g ↦ rw (f, g) (returned (omega arith))
                | inr g ↦
                    rw (f, g)
                      (Ensures-map (λ q h. omega arith)
                        (question_labels-le fuel (off + (b + 1))
                          (omega (arith, ltb→lt off (length p) e)) (omega arith)))
              ]
            ])
  ]

  past_zero-le : (off : ℕ) → Ensures (λ q. off ≤ q) (past_zero p off)
  unfolding past_zero
  past_zero-le off = elim (Bool-cases (ltb off (length p))) [
    | inr e ↦ rw (e, past_zero) (returned (omega arith))
    | inl e ↦
        rw (e, past_zero)
          (Ensures-bind (Ensures-at p off (ltb→lt off (length p) e)) λ b _. returned (ground arith))
  ]

  pub skip_question-le : Ensures (λ q. 16 ≤ q) (skip_question p)
  unfolding skip_question
  skip_question-le =
      Ensures-bind (question_labels-le (suc (length p)) 12 (omega arith) (omega arith))
        λ a ha. Ensures-bind (past_zero-le a) λ b hb. returned (omega arith)

  owner_labels-le :
      (fuel off : ℕ)
      → 0 < fuel
      → length p < off + fuel
      → Ensures (λ q. off ≤ q) (owner_labels fuel p off)
  unfolding owner_labels
  owner_labels-le zero off pos h = elim pos [ ]
  owner_labels-le (suc fuel) off pos h = elim (Bool-cases (ltb off (length p))) [
    | inr e ↦ rw (e, owner_labels) (returned (omega arith))
    | inl e ↦
        rw (e, owner_labels)
          (Ensures-bind (Ensures-at p off (ltb→lt off (length p) e)) λ b _.
            elim (Bool-cases (b == 0 || is_pointer b)) [
              | inl f ↦ rw f (returned (omega arith))
              | inr f ↦ rw f (
                  Ensures-map (λ q h. omega arith)
                    (owner_labels-le fuel (off + (b + 1)) (omega (arith, ltb→lt off (length p) e))
                      (omega arith)))
            ])
  ]

  skip_owner-le : (off : ℕ) → off < length p → Ensures (λ q. off ≤ q) (skip_owner p off)
  unfolding skip_owner
  skip_owner-le off h = Ensures-bind (Ensures-at p off h) λ b _. elim (Bool-cases (is_pointer b)) [
    | inl f ↦ rw f (returned (omega arith))
    | inr f ↦ rw f (
        Ensures-bind (owner_labels-le (suc (length p)) off (omega arith) (omega arith)) λ q hq.
          elim (Bool-cases (ltb q (length p))) [
            | inr e ↦ rw e (returned hq)
            | inl e ↦ rw e (
                Ensures-bind (Ensures-at p q (ltb→lt q (length p) e))
                  λ z _. returned (ground arith))
          ])
  ]

  -- An answer's address has four bytes.
  abbrev pub FourBytes : Option Address → Type 0
  FourBytes none = Unit
  FourBytes (some a) = length a ≡ 4

  address_at-four : (off : ℕ) → off + 4 ≤ length p → Ensures (λ a. length a ≡ 4) (address_at p off)
  unfolding address_at
  address_at-four off h = Ensures-bind (Ensures-at p off (omega arith)) λ a _.
      Ensures-bind (Ensures-at p (off + 1) (omega arith)) λ b _.
        Ensures-bind (Ensures-at p (off + 2) (omega arith))
          λ c _. Ensures-bind (Ensures-at p (off + 3) (omega arith)) λ d _. returned refl

  pub answer-le :
      (off : ℕ) → off < length p → Ensures (λ r. FourBytes r.0 × (off + 10 ≤ r.1)) (answer p off)
  unfolding answer
  answer-le off h = Ensures-bind (skip_owner-le off h) λ q hq.
      Ensures-bind (Ensures-guard (leb (q + 10) (length p))) λ _ g.
        let room = leb→le (q + 10) (length p) g in
        Ensures-bind (Ensures-be16 p q (omega arith)) λ kind _.
          Ensures-bind (Ensures-be16 p (q + 8) (omega arith)) λ rdlen _.
            elim (Bool-cases (kind == 1 && rdlen == 4 && leb (q + 10 + 4) (length p))) [
              | inr f ↦ rw f (returned (tt, omega arith))
              | inl f ↦ rw f (
                  Ensures-bind (address_at-four (q + 10) (ground arith))
                    λ a four. returned (four, omega arith))
            ]

  pub check_header-safe : Ensures (λ _. 12 ≤ length p) (check_header p)
  unfolding check_header
  check_header-safe = Ensures-bind (Ensures-guard (leb 12 (length p))) λ _ g.
      let long = leb→le 12 (length p) g in
      Ensures-bind (Ensures-be16 p 6 (omega arith))
        λ n _. Ensures-map (λ _ _. long) (Ensures-guard (ltb 0 n))

  udp_loop-safe :
      (fuel off : ℕ)
      → 0 < fuel
      → length p < off + fuel
      → Ensures (λ a. length a ≡ 4) (udp_loop fuel p off)
  unfolding udp_loop
  udp_loop-safe zero off pos h = elim pos [ ]
  udp_loop-safe (suc fuel) off pos h = elim (Bool-cases (ltb (off + 10) (length p))) [
    | inr e ↦ rw (e, udp_loop) stopped
    | inl e ↦
        let room = ltb→lt (off + 10) (length p) e in
        rw (e, udp_loop)
          (by_answer (answer p off) (answer-le off (omega arith))
            (λ next far. udp_loop-safe fuel next (omega arith) (omega arith)))
  ]
    where
      by_answer :
          (r : Scan (Option Address × ℕ))
          → Ensures (λ r. FourBytes r.0 × (off + 10 ≤ r.1)) r
          → ((next : ℕ) → off + 10 ≤ next → Ensures (λ a. length a ≡ 4) (udp_loop fuel p next))
          → Ensures
              (λ a. length a ≡ 4)
              (let s : Scan Address = elim r [
                | fault ↦ fault
                | stop ↦ stop
                | ok (some a, next) ↦ ok a
                | ok (none, next) ↦ udp_loop fuel p next
              ] in
                s)
      by_answer fault safe k = elim safe [ ]
      by_answer stop stopped k = stopped
      by_answer (ok (some a, next)) (returned h) k = returned h.0
      by_answer (ok (none, next)) (returned h) k = k next h.1

  -- The reader in `dns_resolve_udp` reads inside the response only and ends, on every response;
  -- an address that it returns has four bytes.
  pub parse_udp-safe : Ensures (λ a. length a ≡ 4) (parse_udp p)
  unfolding parse_udp
  parse_udp-safe = Ensures-bind (Ensures-guard (leb 12 (length p))) λ _ g.
      let long = leb→le 12 (length p) g in
      Ensures-bind (Ensures-at p 0 (omega arith)) λ id1 _.
        Ensures-bind (Ensures-at p 1 (omega arith)) λ id2 _.
          Ensures-bind (Ensures-guard (id1 == 0xAB && id2 == 0xCD)) λ _ _.
            Ensures-bind check_header-safe λ _ _.
              Ensures-bind skip_question-le
                λ off _. udp_loop-safe (suc (length p)) off (omega arith) (omega arith)
