-- ===== src/Sni/Fragment/Read.antt =====
-- What `extract_client_hello` of common/sni_relay.c answers: a handshake that announces its own
-- length, and the same one when more bytes follow.
use raise_my_freedom.Common.{
  ℕ, zero, suc, ◌+◌, ◌-◌, ◌*◌, ◌≤◌, ◌≡◌, refl, ap, ◌∙◌, Bool, true, false, not, ◌||◌, List, [], ◌∷◌,
  ◌++◌, arith, ltb, leb, ◌==◌, if◌then◌else◌, ◌⊎◌, le→ltb, le→leb, guard-eq-ok, leb→le, ◌&&◌,
  length, take, drop, Scan, fault, stop, ok, Bool-cases, inl, inr, length-append, length-drop,
}
use raise_my_freedom.Sni.Hello.{be24}
use raise_my_freedom.Sni.Fragment.RoundTrip.{announced-take}
use raise_my_freedom.Sni.Fragment.{
  Joined, bad, need_more, whole, announced, needed, join_loop, extract_client_hello,
}

take_ahead : (n : ℕ) (xs ys : List ℕ) → n ≤ length xs → take n (xs ++ ys) ≡ take n xs
take_ahead zero xs ys h = refl
take_ahead (suc n) [] ys h = absurd (omega arith)
take_ahead (suc n) (x ∷ xs) ys h = rw (take_ahead n xs ys (omega arith))

drop_ahead : (n : ℕ) (xs ys : List ℕ) → n ≤ length xs → drop n (xs ++ ys) ≡ drop n xs ++ ys
drop_ahead zero xs ys h = refl
drop_ahead (suc n) [] ys h = absurd (omega arith)
drop_ahead (suc n) (x ∷ xs) ys h = drop_ahead n xs ys (omega arith)

-- One round of the loop, by its tests.
unfoldable decide : Bool → Bool → Scan ℕ → (ℕ → Bool) → (ℕ → Joined) → (ℕ → Joined) → Joined
decide wrong short need done finish rest =
    if wrong
    then bad
    else if short
    then need_more
    else elim need [ ok n ↦ if done n then finish n else rest n | _ ↦ bad ]

-- What a round that ends with an answer has found.
record Decided (wrong short : Bool) (need : Scan ℕ) (done : ℕ → Bool) (finish rest : ℕ → Joined)
    (answer : Joined) : Type 0 where
  right : wrong ≡ false
  long : short ≡ false
  size : ℕ
  known : need ≡ ok size
  next :
      ((done size ≡ true) × (finish size ≡ answer)) ⊎ ((done size ≡ false) × (rest size ≡ answer))

decide-Decided :
    (wrong short : Bool) (need : Scan ℕ) (done : ℕ → Bool) (finish rest : ℕ → Joined) (hs : List ℕ)
    (n : ℕ)
    → decide wrong short need done finish rest ≡ whole hs n
    → Decided wrong short need done finish rest (whole hs n)
unfolding decide
decide-Decided true short need done finish rest hs n e = absurd (cc e)
decide-Decided false true need done finish rest hs n e = absurd (cc e)
decide-Decided false false fault done finish rest hs n e = absurd (cc e)
decide-Decided false false stop done finish rest hs n e = absurd (cc e)
decide-Decided false false (ok m) done finish rest hs n e = record {
  right = refl;
  long = refl;
  size = m;
  known = refl;
  next = elim (Bool-cases (done m)) [ inl d ↦ inl (d, rw d at e) | inr d ↦ inr (d, rw d at e) ];
}

Decided-decide :
    {wrong short : Bool} {need : Scan ℕ} {done : ℕ → Bool} {finish rest : ℕ → Joined}
    {answer : Joined}
    → Decided wrong short need done finish rest answer
    → decide wrong short need done finish rest ≡ answer
unfolding decide
Decided-decide d =
    rw (d.right, d.long, d.known) (elim d.next [ inl (e, f) ↦ rw e f | inr (e, f) ↦ rw e f ])

-- The round at a record's header.
module _ (fuel kind hi lo : ℕ) (body : List ℕ) (hs_cap : ℕ) (need : Scan ℕ) (got : List ℕ)
    (off : ℕ) where
  abbrev read_so_far : ℕ → List ℕ
  read_so_far n = got ++ take (n - length got) (take (hi * 256 + lo) body)

  abbrev Here : Joined → Type 0
  Here =
      Decided (not (kind == 0x16) || hi * 256 + lo == 0) (ltb (length body) (hi * 256 + lo))
        (needed need (take (hi * 256 + lo) body) hs_cap) (λ n. leb n (length (read_so_far n)))
        (λ n. whole (read_so_far n) (off + 5 + (hi * 256 + lo)))
        (λ n.
          join_loop fuel (drop (hi * 256 + lo) body) hs_cap (ok n) (read_so_far n)
            (off + 5 + (hi * 256 + lo)))

  join_loop-Here :
      (v1 v2 : ℕ) (hs : List ℕ) (n : ℕ)
      → join_loop (suc fuel) (kind ∷ v1 ∷ v2 ∷ hi ∷ lo ∷ body) hs_cap need got off ≡ whole hs n
      → Here (whole hs n)
  unfolding join_loop decide
  join_loop-Here v1 v2 hs n e =
      decide-Decided (not (kind == 0x16) || hi * 256 + lo == 0) (ltb (length body) (hi * 256 + lo))
        (needed need (take (hi * 256 + lo) body) hs_cap) (λ n. leb n (length (read_so_far n)))
        (λ n. whole (read_so_far n) (off + 5 + (hi * 256 + lo)))
        (λ n.
          join_loop fuel (drop (hi * 256 + lo) body) hs_cap (ok n) (read_so_far n)
            (off + 5 + (hi * 256 + lo)))
        hs n e

  Here-join_loop :
      (v1 v2 : ℕ) {answer : Joined}
      → Here answer
      → join_loop (suc fuel) (kind ∷ v1 ∷ v2 ∷ hi ∷ lo ∷ body) hs_cap need got off ≡ answer
  unfolding join_loop decide
  Here-join_loop v1 v2 d = Decided-decide d

fits : (r l : ℕ) → ltb l r ≡ false → r ≤ l
fits r l e = ground arith

module _ (fuel fuel' kind hi lo : ℕ) (body more : List ℕ) (hs_cap : ℕ) (need : Scan ℕ)
    (got : List ℕ) (off : ℕ) where
  -- The same round with more bytes behind the buffer.
  Here-append :
      {answer : Joined}
      → ((m : ℕ) (g : List ℕ)
          → join_loop fuel (drop (hi * 256 + lo) body) hs_cap (ok m) g (off + 5 + (hi * 256 + lo))
            ≡ answer
          → join_loop fuel'
              (drop (hi * 256 + lo) body ++ more)
              hs_cap
              (ok m)
              g
              (off + 5 + (hi * 256 + lo))
            ≡ answer)
      → Here fuel kind hi lo body hs_cap need got off answer
      → Here fuel' kind hi lo (body ++ more) hs_cap need got off answer
  Here-append go d =
      let enough : hi * 256 + lo ≤ length body = fits (hi * 256 + lo) (length body) d.long in
      let same = take_ahead (hi * 256 + lo) body more enough in
      record {
        right = d.right;
        long =
            le→ltb (length (body ++ more)) (hi * 256 + lo) (omega (arith, length-append body more));
        size = d.size;
        known = rw same d.known;
        next = elim d.next [
          | inl (e, f) ↦ inl (rw same e, rw same f)
          | inr (e, f) ↦
              inr
                (rw same e, rw (same, drop_ahead (hi * 256 + lo) body more enough) (go d.size _ f))
        ];
      }

join_loop-append :
    (fuel fuel' : ℕ) (buf more : List ℕ) (hs_cap : ℕ) (need : Scan ℕ) (got : List ℕ) (off : ℕ)
    (hs : List ℕ) (n : ℕ)
    → fuel ≤ fuel'
    → join_loop fuel buf hs_cap need got off ≡ whole hs n
    → join_loop fuel' (buf ++ more) hs_cap need got off ≡ whole hs n
join_loop-append zero fuel' buf more hs_cap need got off hs n le e =
    absurd (unfold join_loop in cc e)
join_loop-append (suc fuel) zero buf more hs_cap need got off hs n le e = absurd (omega arith)
join_loop-append (suc fuel) (suc fuel') (kind ∷ v1 ∷ v2 ∷ hi ∷ lo ∷ body) more hs_cap need got off
      hs n le e =
    Here-join_loop fuel' kind hi lo (body ++ more) hs_cap need got off v1 v2 (
      Here-append fuel fuel' kind hi lo body more hs_cap need got off
        (λ m g f.
          join_loop-append fuel fuel' (drop (hi * 256 + lo) body) more hs_cap (ok m) g
            (off + 5 + (hi * 256 + lo)) hs n (omega arith) f)
        (join_loop-Here fuel kind hi lo body hs_cap need got off v1 v2 hs n e))
join_loop-append (suc fuel) (suc fuel') [] more hs_cap need got off hs n le e =
    absurd (unfold join_loop in cc e)
join_loop-append (suc fuel) (suc fuel') (a ∷ []) more hs_cap need got off hs n le e =
    absurd (unfold join_loop in cc e)
join_loop-append (suc fuel) (suc fuel') (a ∷ b ∷ []) more hs_cap need got off hs n le e =
    absurd (unfold join_loop in cc e)
join_loop-append (suc fuel) (suc fuel') (a ∷ b ∷ c ∷ []) more hs_cap need got off hs n le e =
    absurd (unfold join_loop in cc e)
join_loop-append (suc fuel) (suc fuel') (a ∷ b ∷ c ∷ d ∷ []) more hs_cap need got off hs n le e =
    absurd (unfold join_loop in cc e)

announced-append :
    (xs ys : List ℕ) (hs_cap : ℕ)
    → 4 ≤ length xs
    → announced (xs ++ ys) hs_cap ≡ announced xs hs_cap
unfolding announced be24
announced-append (a ∷ b ∷ c ∷ d ∷ t) ys hs_cap l = rw (
  le→leb 4 (length (a ∷ b ∷ c ∷ d ∷ t ++ ys)) (omega arith),
  le→leb 4 (length (a ∷ b ∷ c ∷ d ∷ t)) (omega arith),
)
announced-append [] ys hs_cap l = absurd (omega arith)
announced-append (a ∷ []) ys hs_cap l = absurd (omega arith)
announced-append (a ∷ b ∷ []) ys hs_cap l = absurd (omega arith)
announced-append (a ∷ b ∷ c ∷ []) ys hs_cap l = absurd (omega arith)

announced-bounds :
    (xs : List ℕ) (hs_cap m : ℕ) → announced xs hs_cap ≡ ok m → (4 ≤ length xs) × (4 ≤ m)
unfolding announced be24
announced-bounds (a ∷ b ∷ c ∷ d ∷ t) hs_cap m e =
    let n : ℕ = b * 65536 + (c * 256 + d) in
    let e1 = rw (le→leb 4 (length (a ∷ b ∷ c ∷ d ∷ t)) (omega arith)) at e in
    let (ok_kind, e2) = guard-eq-ok (a == 0x01 && leb (4 + n) hs_cap) (ok (4 + n)) e1 in
    let same : 4 + n ≡ m = cc e2 in (omega arith, omega (arith, same))
announced-bounds [] hs_cap m e = absurd (cc e)
announced-bounds (a ∷ []) hs_cap m e = absurd (cc e)
announced-bounds (a ∷ b ∷ []) hs_cap m e = absurd (cc e)
announced-bounds (a ∷ b ∷ c ∷ []) hs_cap m e = absurd (cc e)

-- What the loop knows of the handshake: how long it is, from its first four bytes.
abbrev Knows : ℕ → Scan ℕ → List ℕ → Type 0
Knows hs_cap (ok m) got = (announced got hs_cap ≡ ok m) × (4 ≤ length got) × (length got ≤ m)
Knows hs_cap _ got = got ≡ []

length-take_least : (k m : ℕ) (p : List ℕ) → k ≤ m → k ≤ length p → k ≤ length (take m p)
length-take_least k zero p h l = omega arith
length-take_least k (suc m) [] h l = omega arith
length-take_least zero (suc m) (x ∷ p) h l = omega arith
length-take_least (suc k) (suc m) (x ∷ p) h l =
    omega (arith, length-take_least k m p (omega arith) (omega arith))

length-take_most : (m : ℕ) (p : List ℕ) → length (take m p) ≤ m
length-take_most zero p = omega arith
length-take_most (suc m) [] = omega arith
length-take_most (suc m) (x ∷ p) = omega (arith, length-take_most m p)

first-Knows :
    (hs_cap m k : ℕ) (p : List ℕ)
    → k ≡ m
    → announced p hs_cap ≡ ok m
    → Knows hs_cap (ok m) (take k p)
first-Knows hs_cap m k p same e =
    let (l, m4) = announced-bounds p hs_cap m e in
    rw same (announced-take m p hs_cap m4 l ∙ e, length-take_least 4 m p m4 l, length-take_most m p)

needed-Knows :
    (hs_cap : ℕ) (need : Scan ℕ) (got p : List ℕ) (m : ℕ)
    → Knows hs_cap need got
    → needed need p hs_cap ≡ ok m
    → Knows hs_cap (ok m) (got ++ take (m - length got) p)
unfolding needed
needed-Knows hs_cap (ok k) got p m (e, l, s) f =
    let same : k ≡ m = cc f in
    let more = length-append got (take (m - length got) p) in
    (
      announced-append got (take (m - length got) p) hs_cap l ∙ e ∙ f,
      omega (arith, more),
      omega (arith, more, length-take_most (m - length got) p, same),
    )
needed-Knows hs_cap stop got p m e f = rw e (first-Knows hs_cap m (m - 0) p (omega arith) f)
needed-Knows hs_cap fault got p m e f = rw e (first-Knows hs_cap m (m - 0) p (omega arith) f)

-- The answer announces its own length, and the bytes consumed are among those read.
join_loop-announced :
    (fuel : ℕ) (buf : List ℕ) (hs_cap : ℕ) (need : Scan ℕ) (got : List ℕ) (off : ℕ) (hs : List ℕ)
    (n : ℕ)
    → Knows hs_cap need got
    → join_loop fuel buf hs_cap need got off ≡ whole hs n
    → (announced hs hs_cap ≡ ok (length hs)) × (n ≤ off + length buf)
join_loop-announced zero buf hs_cap need got off hs n k e = absurd (unfold join_loop in cc e)
join_loop-announced (suc fuel) (kind ∷ v1 ∷ v2 ∷ hi ∷ lo ∷ body) hs_cap need got off hs n k e =
    let d = join_loop-Here fuel kind hi lo body hs_cap need got off v1 v2 hs n e in
    let size : ℕ = hi * 256 + lo in
    let enough = fits size (length body) d.long in
    let (a, l, s) = needed-Knows hs_cap need got (take size body) d.size k d.known in
    elim d.next [
      | inl (full, f) ↦ finished _ d.size (off + 5 + size) a s (leb→le _ _ full) f _ (omega arith)
      | inr (_, f) ↦
          let (b, c) =
            join_loop-announced fuel (drop size body) hs_cap (ok d.size) _ (off + 5 + size) hs n
              (a, l, s) f in
          (b, omega (arith, c, length-drop size body))
    ]
  where
    finished :
        (g : List ℕ) (m o : ℕ)
        → announced g hs_cap ≡ ok m
        → length g ≤ m
        → m ≤ length g
        → whole g o ≡ whole hs n
        → (most : ℕ) → o ≤ most
        → (announced hs hs_cap ≡ ok (length hs)) × (n ≤ most)
    finished g m o a le ge same most room =
        let eg : g ≡ hs = cc same in
        let eo : o ≡ n = cc same in
        let em : m ≡ length hs = rw (← eg) (omega arith) in
        (rw (← eg) a ∙ ap ok em, omega (arith, eo))
join_loop-announced (suc fuel) [] hs_cap need got off hs n k e = absurd (unfold join_loop in cc e)
join_loop-announced (suc fuel) (a ∷ []) hs_cap need got off hs n k e =
    absurd (unfold join_loop in cc e)
join_loop-announced (suc fuel) (a ∷ b ∷ []) hs_cap need got off hs n k e =
    absurd (unfold join_loop in cc e)
join_loop-announced (suc fuel) (a ∷ b ∷ c ∷ []) hs_cap need got off hs n k e =
    absurd (unfold join_loop in cc e)
join_loop-announced (suc fuel) (a ∷ b ∷ c ∷ d ∷ []) hs_cap need got off hs n k e =
    absurd (unfold join_loop in cc e)

-- Where `extract_client_hello` answers with a handshake, the handshake announces its own length and
-- the bytes consumed are among those read; with more bytes behind, the answer is the same.
pub extract_client_hello-announced :
    (buf : List ℕ) (hs_cap : ℕ) (hs : List ℕ) (n : ℕ)
    → extract_client_hello buf hs_cap ≡ whole hs n
    → (announced hs hs_cap ≡ ok (length hs)) × (n ≤ length buf)
unfolding extract_client_hello
extract_client_hello-announced buf hs_cap hs n e =
    let (a, b) = join_loop-announced (length buf) buf hs_cap stop [] 0 hs n refl e in
    (a, omega arith)

pub extract_client_hello-append :
    (buf more : List ℕ) (hs_cap : ℕ) (hs : List ℕ) (n : ℕ)
    → extract_client_hello buf hs_cap ≡ whole hs n
    → extract_client_hello (buf ++ more) hs_cap ≡ whole hs n
unfolding extract_client_hello
extract_client_hello-append buf more hs_cap hs n e =
    join_loop-append (length buf) (length (buf ++ more)) buf more hs_cap stop [] 0 hs n
      (omega (arith, length-append buf more)) e
