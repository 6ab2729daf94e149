-- ===== src/Bypass/Reply/RoundTrip.antt =====
-- The program's own reader of DNS answers reads the pinned address back.
use raise_my_freedom.Common.{
  ℕ, zero, suc, ◌+◌, ◌-◌, ◌≤◌, ◌<◌, ◌≡◌, refl, ap, ◌∙◌, true, false, ◌&&◌, Option, some, List, [],
  ◌∷◌, ◌++◌, arith, ltb, leb, ◌==◌, if◌then◌else◌, length, take, drop, ok, ◌>>=◌, ◌>>◌, guard, at,
  be16, Bool-cases, inl, inr, length-append, length-take, length-drop, le→leb, lt→ltb, le→ltb,
  ltb→lt, guard-eq-ok, ==→eq, append_assoc,
}
use raise_my_freedom.Dns.Answer.{
  is_pointer, past_zero, question_labels, skip_question, skip_owner, address_at, answer,
  add_address, is_listed, list_loop, check_header, parse_a_list, parse_a,
}
use raise_my_freedom.SiteConfig.Text.{c_string}
use raise_my_freedom.Bypass.Pins.{Pin, lookup_pin}
use raise_my_freedom.Bypass.Reply.{
  extract_loop, extract_qname, skip_loop, skip_qname, build_a_response, dns_reply,
}

at-front : (xs ys : List ℕ) (i : ℕ) → i < length xs → at (xs ++ ys) i ≡ at xs i
at-front [] ys i h = absurd (omega arith)
at-front (x ∷ xs) ys zero h = refl
at-front (x ∷ xs) ys (suc i) h = at-front xs ys i (omega arith)

at-behind : (xs ys : List ℕ) (i k : ℕ) → i ≡ length xs + k → at (xs ++ ys) i ≡ at ys k
at-behind [] ys i k e = let same : i ≡ k = omega arith in rw same refl
at-behind (x ∷ xs) ys zero k e = absurd (omega arith)
at-behind (x ∷ xs) ys (suc i) k e = at-behind xs ys i k (omega arith)

at-drop : (n : ℕ) (xs : List ℕ) (i : ℕ) → at (drop n xs) i ≡ at xs (n + i)
at-drop zero xs i = let same : 0 + i ≡ i = omega arith in rw same refl
at-drop (suc n) [] i = refl
at-drop (suc n) (x ∷ xs) i =
    let same : suc n + i ≡ suc (n + i) = omega arith in rw same (at-drop n xs i)

at-take : (n : ℕ) (xs : List ℕ) (i : ℕ) → i < n → i < length xs → at (take n xs) i ≡ at xs i
at-take zero xs i h l = absurd (omega arith)
at-take (suc n) [] i h l = absurd (omega arith)
at-take (suc n) (x ∷ xs) zero h l = refl
at-take (suc n) (x ∷ xs) (suc i) h l = at-take n xs i (omega arith) (omega arith)

-- The answer has the query's bytes from the name to behind the question.
record Agree (query reply : List ℕ) (limit : ℕ) : Type 0 where
  inside : limit ≤ length query
  longer : limit ≤ length reply
  same_at : (i : ℕ) → 12 ≤ i → i < limit → at reply i ≡ at query i

at-there : (p : List ℕ) (i : ℕ) → i < length p → (v : ℕ) × (at p i ≡ ok v)
at-there [] i h = absurd (omega arith)
at-there (x ∷ p) zero h = (x, refl)
at-there (x ∷ p) (suc i) h = at-there p i (omega arith)

-- Where the walk of a name ends.
record Ends (fuel : ℕ) (reply : List ℕ) (pos qname_end : ℕ) : Type 0 where
  past : ℕ
  reached : question_labels fuel reply pos ≡ ok past
  ahead : pos ≤ past
  next : past + 1 ≡ qname_end
  zero_there : at reply past ≡ ok 0

-- One round of the reader of answers.
here-Ends :
    (fuel pos : ℕ) (reply : List ℕ)
    → pos < length reply
    → at reply pos ≡ ok 0
    → Ends (suc fuel) reply pos (pos + 1)
unfolding question_labels
here-Ends fuel pos reply h e = record {
  past = pos;
  reached = rw (question_labels, lt→ltb pos (length reply) h, e) refl;
  ahead = omega arith;
  next = refl;
  zero_there = e;
}

later-Ends :
    (fuel pos v qname_end : ℕ) (reply : List ℕ)
    → pos < length reply
    → at reply pos ≡ ok v
    → (v == 0) ≡ false
    → is_pointer v ≡ false
    → Ends fuel reply (pos + 1 + v) qname_end
    → Ends (suc fuel) reply pos qname_end
unfolding question_labels
later-Ends fuel pos v qname_end reply h e z p r =
    let shift : pos + (v + 1) ≡ pos + 1 + v = omega arith in
    record {
      past = r.past;
      reached = rw (question_labels, lt→ltb pos (length reply) h, e, ◌>>=◌, z, p, shift) r.reached;
      ahead = omega (arith, r.ahead);
      next = r.next;
      zero_there = r.zero_there;
    }

-- The walk of the query's name moves on.
skip_loop-past :
    (fuel : ℕ) (query : List ℕ) (pos qname_end : ℕ)
    → skip_loop fuel query pos ≡ ok qname_end
    → pos < qname_end
unfolding skip_loop
skip_loop-past zero query pos qname_end k = absurd (cc k)
skip_loop-past (suc fuel) query pos qname_end k = elim (Bool-cases (ltb pos (length query))) [
  | inr out_of ↦ absurd (cc (rw (skip_loop, out_of) at k))
  | inl inside ↦
      let (v, there) = at-there query pos (ltb→lt pos (length query) inside) in
      elim (Bool-cases (v == 0)) [
        | inl z ↦
            let same : pos + 1 ≡ qname_end = cc (rw (skip_loop, inside, there, ◌>>=◌, z) at k) in
            omega (arith, same)
        | inr z ↦ elim (Bool-cases (is_pointer v)) [
          | inl p ↦
              let (g, k1) =
                guard-eq-ok (ltb (pos + 2) (length query)) (ok (pos + 2))
                  (rw (skip_loop, inside, there, ◌>>=◌, z, p) at k) in
              let same : pos + 2 ≡ qname_end = cc k1 in omega (arith, same)
          | inr p ↦
              let (g, k1) =
                guard-eq-ok (leb v 63 && leb (pos + 1 + v) (length query))
                  (skip_loop fuel query (pos + 1 + v))
                  (rw (skip_loop, inside, there, ◌>>=◌, z, p) at k) in
              omega (arith, skip_loop-past fuel query (pos + 1 + v) qname_end k1)
        ]
      ]
]

-- Where both loops walk the query's name to its end, the reader of answers walks it in the answer.
walk :
    (fuel fuel1 fuel2 : ℕ) (query reply : List ℕ) (pos size : ℕ) (out name : List ℕ)
    (qname_end limit : ℕ)
    → Agree query reply limit
    → 12 ≤ pos
    → qname_end ≤ limit
    → qname_end ≤ pos + fuel2
    → extract_loop fuel1 query pos size out ≡ ok name
    → skip_loop fuel query pos ≡ ok qname_end
    → Ends fuel2 reply pos qname_end
unfolding skip_loop extract_loop
walk zero fuel1 fuel2 query reply pos size out name qname_end limit a h l f e k = absurd (cc k)
walk (suc fuel) zero fuel2 query reply pos size out name qname_end limit a h l f e k = absurd (cc e)
walk (suc fuel) (suc fuel1) zero query reply pos size out name qname_end limit a h l f e k =
    absurd (omega (arith, skip_loop-past (suc fuel) query pos qname_end k))
walk (suc fuel) (suc fuel1) (suc fuel2) query reply pos size out name qname_end limit a h l f e k =
    elim (Bool-cases (ltb pos (length query))) [
      | inr out_of ↦ absurd (cc (rw (skip_loop, out_of) at k))
      | inl inside ↦
          let (v, there) = at-there query pos (ltb→lt pos (length query) inside) in
          elim (Bool-cases (v == 0)) [
            | inl z ↦
                let same : pos + 1 ≡ qname_end =
                  cc (rw (skip_loop, inside, there, ◌>>=◌, z) at k) in
                let byte : v ≡ 0 = ==→eq v 0 z in
                rw (← same) (
                  here-Ends fuel2 pos reply (omega (arith, a.longer))
                    (a.same_at pos h (omega arith) ∙ there ∙ ap ok byte))
            | inr z ↦ elim (Bool-cases (is_pointer v)) [
              | inl p ↦
                  let small : leb v 63 ≡ false = ground arith in
                  absurd (cc (rw (extract_loop, inside, there, ◌>>=◌, z, small) at e))
              | inr p ↦
                  let more : List ℕ =
                    (if ltb 0 (length out) then out ++ (b'.' ∷ []) else out)
                    ++ take v (drop (pos + 1) query) in
                  let (g1, e1) =
                    guard-eq-ok
                      (leb v 63
                        && leb (pos + 1 + v) (length query)
                        && ltb (length out + v + 2) size)
                      (extract_loop fuel1 query (pos + 1 + v) size more)
                      (rw (extract_loop, inside, there, ◌>>=◌, z) at e) in
                  let (g2, k1) =
                    guard-eq-ok (leb v 63 && leb (pos + 1 + v) (length query))
                      (skip_loop fuel query (pos + 1 + v))
                      (rw (skip_loop, inside, there, ◌>>=◌, z, p) at k) in
                  let r =
                    walk fuel fuel1 fuel2 query reply (pos + 1 + v) size more name qname_end limit a
                      (omega arith) l (omega arith) e1 k1 in
                  let before : pos < limit = omega (arith, r.ahead, r.next) in
                  later-Ends fuel2 pos v qname_end reply (omega (arith, a.longer))
                    (a.same_at pos h before ∙ there) z p r
            ]
          ]
    ]

-- The answer's record.
abbrev pinned : ℕ → ℕ → ℕ → ℕ → List ℕ
pinned a b c d = 0xC0 ∷ 0x0C ∷ 0 ∷ 1 ∷ 0 ∷ 1 ∷ 0 ∷ 0 ∷ 0 ∷ 120 ∷ 0 ∷ 4 ∷ a ∷ b ∷ c ∷ d ∷ []

answer-pinned :
    (front : List ℕ) (a b c d off : ℕ)
    → off ≡ length front
    → answer (front ++ pinned a b c d) off ≡ ok (some (a ∷ b ∷ c ∷ d ∷ []), off + 2 + 10 + 4)
unfolding answer skip_owner address_at
answer-pinned front a b c d off e =
    let r : List ℕ = pinned a b c d in
    let behind : (i k : ℕ) → i ≡ off + k → at (front ++ r) i ≡ at r k =
      λ i k h. at-behind front r i k (omega (arith, h, e)) in
    let long : length (front ++ r) ≡ off + 16 = omega (arith, length-append front r, e) in
    rw
      (
        behind off 0 (omega arith),
        ◌>>=◌,
        long,
        behind (off + 2) 2 (omega arith),
        behind (off + 2 + 1) 3 (omega arith),
        behind (off + 2 + 8) 10 (omega arith),
        behind (off + 2 + 8 + 1) 11 (omega arith),
        le→leb (off + 2 + 10) (off + 16) (omega arith),
        le→leb (off + 2 + 10 + 4) (off + 16) (omega arith),
        behind (off + 2 + 10) 12 (omega arith),
        behind (off + 2 + 10 + 1) 13 (omega arith),
        behind (off + 2 + 10 + 2) 14 (omega arith),
        behind (off + 2 + 10 + 3) 15 (omega arith),
      )
      refl

list_loop-pinned :
    (fuel : ℕ) (front : List ℕ) (a b c d off : ℕ)
    → off ≡ length front
    → list_loop (suc (suc fuel)) (front ++ pinned a b c d) 8 off [] ≡ ok ((a ∷ b ∷ c ∷ d ∷ []) ∷ [])
unfolding list_loop add_address is_listed
list_loop-pinned fuel front a b c d off e =
    let long : length (front ++ pinned a b c d) ≡ off + 16 =
      omega (arith, length-append front (pinned a b c d), e) in
    rw
      (
        list_loop,
        long,
        lt→ltb (off + 10) (off + 16) (omega arith),
        ◌&&◌,
        answer-pinned front a b c d off e,
        long,
        le→ltb (off + 2 + 10 + 4 + 10) (off + 16) (omega arith),
      )
      refl

list_loop_enough :
    (fuel : ℕ) (front : List ℕ) (a b c d off : ℕ)
    → 2 ≤ fuel
    → off ≡ length front
    → list_loop fuel (front ++ pinned a b c d) 8 off [] ≡ ok ((a ∷ b ∷ c ∷ d ∷ []) ∷ [])
list_loop_enough zero front a b c d off h e = absurd (omega arith)
list_loop_enough (suc zero) front a b c d off h e = absurd (omega arith)
list_loop_enough (suc (suc fuel)) front a b c d off h e = list_loop-pinned fuel front a b c d off e

list_loop_found :
    (r : List ℕ) (front : List ℕ) (a b c d off : ℕ)
    → front ++ pinned a b c d ≡ r
    → 1 ≤ length r
    → off ≡ length front
    → list_loop (suc (length r)) r 8 off [] ≡ ok ((a ∷ b ∷ c ∷ d ∷ []) ∷ [])
list_loop_found r front a b c d off w h e = rw (← w) (
    list_loop_enough (suc (length (front ++ pinned a b c d))) front a b c d off
      (omega (arith, length-append front (pinned a b c d))) e)

-- What the reader does with an answer, step by step.
parse_a_steps :
    (r : List ℕ) (past : ℕ) (address : List ℕ)
    → check_header r ≡ ok tt
    → question_labels (suc (length r)) r 12 ≡ ok past
    → past < length r
    → at r past ≡ ok 0
    → list_loop (suc (length r)) r 8 (past + 1 + 4) [] ≡ ok (address ∷ [])
    → parse_a r ≡ ok address
unfolding parse_a parse_a_list skip_question past_zero
parse_a_steps r past address header labels inside ends found =
    rw (header, ◌>>=◌, labels, ◌>>=◌, lt→ltb past (length r) inside, ends, ◌>>=◌, found) refl

check_header-by :
    (r : List ℕ) → 12 ≤ length r → at r 6 ≡ ok 0 → at r 7 ≡ ok 1 → check_header r ≡ ok tt
unfolding check_header
check_header-by r h e f = rw (le→leb 12 (length r) h, e, ◌>>=◌, f) refl

module _ (query : List ℕ) (a b c d e : ℕ) where
  abbrev body : List ℕ
  body = take (e + 4 - 12) (drop 12 query)

  abbrev reply_of : List ℕ
  reply_of =
      (take 2 query ++ (0x81 ∷ 0x80 ∷ 0 ∷ 1 ∷ 0 ∷ 1 ∷ 0 ∷ 0 ∷ 0 ∷ 0 ∷ []))
      ++ (body ++ pinned a b c d)

  reply_of-Agree : 12 ≤ e + 4 → e + 4 ≤ length query → Agree query reply_of (e + 4)
  reply_of-Agree h l =
      let head : List ℕ = take 2 query ++ (0x81 ∷ 0x80 ∷ 0 ∷ 1 ∷ 0 ∷ 1 ∷ 0 ∷ 0 ∷ 0 ∷ 0 ∷ []) in
      let lh : length head ≡ 12 = omega (
        arith,
        length-append (take 2 query) (0x81 ∷ 0x80 ∷ 0 ∷ 1 ∷ 0 ∷ 1 ∷ 0 ∷ 0 ∷ 0 ∷ 0 ∷ []),
        length-take 2 query (omega arith),
      ) in
      let lb : length body ≡ e + 4 - 12 =
        length-take (e + 4 - 12) (drop 12 query) (omega (arith, length-drop 12 query)) in
      record {
        inside = l;
        longer = omega (
          arith,
          length-append head (body ++ pinned a b c d),
          length-append body (pinned a b c d),
          lh,
          lb,
        );
        same_at = λ i low high.
            let back : 12 + (i - 12) ≡ i = omega arith in
            at-behind head (body ++ pinned a b c d) i (i - 12) (omega (arith, lh))
            ∙ at-front body (pinned a b c d) (i - 12) (omega (arith, lb))
            ∙ at-take (e + 4 - 12) (drop 12 query) (i - 12) (omega arith)
                (omega (arith, length-drop 12 query))
            ∙ at-drop 12 query (i - 12)
            ∙ ap (at query) back;
      }

  parse_a-reply_of :
      (size : ℕ) (name : List ℕ)
      → 12 ≤ e
      → e + 4 ≤ length query
      → extract_loop (length query) query 12 size [] ≡ ok name
      → skip_loop (length query) query 12 ≡ ok e
      → parse_a reply_of ≡ ok (a ∷ b ∷ c ∷ d ∷ [])
  parse_a-reply_of size name low l x k =
      let two : List ℕ = take 2 query in
      let rest : List ℕ = 0x81 ∷ 0x80 ∷ 0 ∷ 1 ∷ 0 ∷ 1 ∷ 0 ∷ 0 ∷ 0 ∷ 0 ∷ [] in
      let l2 : length two ≡ 2 = length-take 2 query (omega arith) in
      let lh : length (two ++ rest) ≡ 12 = omega (arith, l2, length-append two rest) in
      let lb : length body ≡ e + 4 - 12 =
        length-take (e + 4 - 12) (drop 12 query) (omega (arith, length-drop 12 query)) in
      let agree = reply_of-Agree (omega arith) l in
      let at_header : (i j : ℕ) → i < 12 → i ≡ 2 + j → at reply_of i ≡ at rest j = λ i j h same.
        at-front (two ++ rest) (body ++ pinned a b c d) i (omega (arith, lh))
        ∙ at-behind two rest i j (omega (arith, l2)) in
      let header =
        check_header-by reply_of (omega (arith, agree.longer))
          (at_header 6 4 (omega arith) (omega arith)) (at_header 7 5 (omega arith) (omega arith)) in
      let w =
        walk (length query) (length query) (suc (length reply_of)) query reply_of 12 size [] name e
          (e + 4) agree (omega arith) (omega arith) (omega (arith, agree.longer)) x k in
      let again : ((two ++ rest) ++ body) ++ pinned a b c d ≡ reply_of =
        append_assoc (two ++ rest) body (pinned a b c d) in
      let all =
        list_loop_found reply_of ((two ++ rest) ++ body) a b c d (w.past + 1 + 4) again
          (omega (arith, agree.longer))
          (omega (arith, length-append (two ++ rest) body, lh, lb, w.next)) in
      parse_a_steps reply_of w.past (a ∷ b ∷ c ∷ d ∷ []) header w.reached
        (omega (arith, w.next, agree.longer)) w.zero_there all

build_a_response-reply_of :
    (query : List ℕ) (a b c d qname_end : ℕ)
    → skip_qname query ≡ ok qname_end
    → qname_end + 4 ≤ length query
    → qname_end + 4 + 24 ≤ 4096
    → build_a_response query 4096 (some (a ∷ b ∷ c ∷ d ∷ []))
      ≡ ok (reply_of query a b c d qname_end)
unfolding build_a_response
build_a_response-reply_of query a b c d qname_end k inside room =
    let k' : (guard (leb 13 (length query)) >> skip_loop (length query) query 12) ≡ ok qname_end =
      unfold skip_qname in k in
    rw
      (
        k',
        ◌>>=◌,
        le→leb (qname_end + 4) (length query) inside,
        le→leb (qname_end + 4 + 24) 4096 room,
      )
      refl

-- For a query whose name `extract_qname` reads, of type A with its question inside, and a pinned
-- address of four bytes: `dns_child` answers, and the program's own reader of DNS answers reads
-- that address from the answer.
pub parse_a-dns_reply :
    (pins : List Pin) (pton forward : List ℕ → Option (List ℕ)) (query name ip : List ℕ)
    (a b c d qname_end : ℕ)
    → extract_qname query 256 ≡ ok name
    → skip_qname query ≡ ok qname_end
    → qname_end + 4 ≤ length query
    → qname_end + 4 + 24 ≤ 4096
    → be16 query qname_end ≡ ok 1
    → lookup_pin pins (c_string name) ≡ some ip
    → pton ip ≡ some (a ∷ b ∷ c ∷ d ∷ [])
    → (reply : List ℕ) × (dns_reply pins pton forward query ≡ ok reply)
      × (parse_a reply ≡ ok (a ∷ b ∷ c ∷ d ∷ []))
unfolding dns_reply
parse_a-dns_reply pins pton forward query name ip a b c d qname_end x k inside room kind found
      address =
    let (g, x1) =
      guard-eq-ok (leb 13 (length query) && leb 2 256) (extract_loop (length query) query 12 256 [])
        (unfold extract_qname in x) in
    let long : leb 13 (length query) ≡ true = ground arith in
    let (g2, k1) =
      guard-eq-ok (leb 13 (length query)) (skip_loop (length query) query 12)
        (unfold skip_qname in k) in
    let past = skip_loop-past (length query) query 12 qname_end k1 in
    (
      reply_of query a b c d qname_end,
      rw
          (
            long,
            ◌>>=◌,
            x1,
            ◌>>=◌,
            k1,
            ◌>>=◌,
            lt→ltb (qname_end + 1) (length query) (omega arith),
            kind,
            ◌>>=◌,
            found,
            address,
          )
          (build_a_response-reply_of query a b c d qname_end k inside room),
      parse_a-reply_of query a b c d qname_end 256 name (omega (arith, past)) inside x1 k1,
    )
