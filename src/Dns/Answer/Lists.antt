-- ===== src/Dns/Answer/Lists.antt =====
-- What `parse_a_list` gives, and that `parse_a` and `dns_resolve_udp` give the same address.
use raise_my_freedom.Common.{
  ℕ, zero, suc, ◌+◌, ◌≤◌, ◌<◌, ◌≡◌, refl, ◌∙◌, true, false, ◌&&◌, Option, none, some, List, [], ◌∷◌,
  ◌++◌, arith, ltb, leb, if◌then◌else◌, length, Scan, fault, stop, ok, ◌>>=◌, ◌>>◌, guard, at,
  Ensures, stopped, returned, Ensures-bind, Ensures-guard, Bool-cases, inl, inr, ltb→lt, lt→ltb,
  ◌≢◌, sym, length-append,
}
use raise_my_freedom.Dns.Answer.{
  skip_question, Address, answer, same_address, is_listed, check_header, udp_loop, parse_udp,
  add_address, list_loop, parse_a_list, first_of_list, parse_a,
}
use raise_my_freedom.Dns.Answer.Safe.{FourBytes, answer-le, skip_question-le, check_header-safe}

module _ (p : List ℕ) (limit : ℕ) where
  -- The invariant rule of the loop: what adding an address keeps, the loop keeps, and it ends.
  list_loop-keeps :
      (P : List Address → Type 0)
      → ((found : List Address) (a : Option Address)
          → P found
          → length found < limit
          → FourBytes p a
          → P (add_address found a))
      → (fuel off : ℕ) (found : List Address) → 0 < fuel
      → length p < off + fuel
      → P found
      → Ensures P (list_loop fuel p limit off found)
  unfolding list_loop
  list_loop-keeps P keep zero off found pos h k = elim pos [ ]
  list_loop-keeps P keep (suc fuel) off found pos h k =
      elim (Bool-cases (ltb (off + 10) (length p) && ltb (length found) limit)) [
        | inr e ↦ rw (e, list_loop) (returned k)
        | inl e ↦
            let room : off + 10 < length p = ground (arith, e) in
            let few : length found < limit = ground (arith, e) in
            rw (e, list_loop)
              (by_answer (answer p off) (answer-le p off (omega arith)) (λ a next four far.
                list_loop-keeps P keep fuel next (add_address found a) (omega arith) (omega arith)
                  (keep found a k few four)))
      ]
    where
      by_answer :
          (r : Scan (Option Address × ℕ))
          → Ensures (λ r. FourBytes p r.0 × (off + 10 ≤ r.1)) r
          → ((a : Option Address) (next : ℕ)
              → FourBytes p a
              → off + 10 ≤ next
              → Ensures P (list_loop fuel p limit next (add_address found a)))
          → Ensures P (
              let s : Scan (List Address) = elim r [
                | fault ↦ fault
                | stop ↦ ok found
                | ok (a, next) ↦ list_loop fuel p limit next (add_address found a)
              ] in
              s)
      by_answer fault safe step = elim safe [ ]
      by_answer stop stopped step = returned k
      by_answer (ok (a, next)) (returned h') step = step a next h'.0 h'.1

-- No address twice.
abbrev pub Distinct : List Address → Type 0
Distinct [] = Unit
Distinct (a ∷ l) = (is_listed a l ≡ false) × Distinct l

-- What `parse_a_list` promises of its list.
pub record IsAddressList (limit : ℕ) (l : List Address) : Type 0 where
  pub short : length l ≤ limit
  pub distinct : Distinct l

same_address_comm : (a b : Address) → same_address a b ≡ same_address b a
unfolding same_address
same_address_comm [] [] = refl
same_address_comm [] (y ∷ b) = refl
same_address_comm (x ∷ a) [] = refl
same_address_comm (x ∷ a) (y ∷ b) = ground (arith, same_address_comm a b)

is_listed-append :
    (x a : Address) (l : List Address)
    → is_listed x (l ++ (a ∷ [])) ≡ (if is_listed x l then true else same_address a x)
unfolding is_listed
is_listed-append x a [] = ground arith
is_listed-append x a (y ∷ l) = ground (arith, is_listed-append x a l)

Distinct-append :
    (a : Address) (l : List Address) → Distinct l → is_listed a l ≡ false → Distinct (l ++ (a ∷ []))
unfolding is_listed
Distinct-append a [] d h = (refl, tt)
Distinct-append a (y ∷ l) (d, ds) h =
    ground (arith, is_listed-append y a l, same_address_comm a y, Distinct-append a l ds)

add_address-IsAddressList :
    (limit : ℕ) (found : List Address) (a : Option Address)
    → IsAddressList limit found
    → length found < limit
    → IsAddressList limit (add_address found a)
unfolding add_address
add_address-IsAddressList limit found none i h = i
add_address-IsAddressList limit found (some a) i h = elim (Bool-cases (is_listed a found)) [
  | inl e ↦ rw e i
  | inr e ↦ rw e (record {
    short = omega (arith, length-append found (a ∷ []));
    distinct = Distinct-append a found i.distinct e;
  })
]

-- `parse_a_list` reads inside the response only and ends, on every response; its list has at
-- least one address, at most as many as the caller has room for, and none twice.
pub parse_a_list-IsAddressList :
    (p : List ℕ) (limit : ℕ)
    → Ensures (λ l. (0 < length l) × IsAddressList limit l) (parse_a_list p limit)
unfolding parse_a_list
parse_a_list-IsAddressList p limit = Ensures-bind (check_header-safe p) λ _ _.
    Ensures-bind (skip_question-le p) λ off _.
      Ensures-bind
        (list_loop-keeps p limit (IsAddressList limit)
          (λ found a i few four. add_address-IsAddressList limit found a i few) (suc (length p)) off
          [] (omega arith) (omega arith) (record { short = omega arith; distinct = tt }))
        λ l i. Ensures-bind (Ensures-guard (ltb 0 (length l))) λ _ g. returned (ltb→lt _ _ g, i)

-- The list's first address stays its first.
add_address_first :
    (x : Address) (found : List Address) (a : Option Address)
    → first_of_list found ≡ ok x
    → first_of_list (add_address found a) ≡ ok x
unfolding add_address
add_address_first x [] a e = cc
add_address_first x (y ∷ found) none e = e
add_address_first x (y ∷ found) (some a) e = elim (Bool-cases (is_listed a (y ∷ found))) [
  | inl f ↦ rw f e
  | inr f ↦ rw f e
]

-- The last steps of `parse_a`.
abbrev first_found : List Address → Scan Address
first_found l = guard (ltb 0 (length l)) >> first_of_list l

list_loop-ne-stop :
    (p : List ℕ) (limit fuel off : ℕ) (found : List Address)
    → list_loop fuel p limit off found ≢ stop
unfolding list_loop
list_loop-ne-stop p limit zero off found = λ e. cc
list_loop-ne-stop p limit (suc fuel) off found =
    elim (Bool-cases (ltb (off + 10) (length p) && ltb (length found) limit)) [
      | inr e ↦ rw (e, list_loop) (λ x. cc)
      | inl e ↦
          rw (e, list_loop)
            (by_answer (answer p off)
              (λ a next. list_loop-ne-stop p limit fuel next (add_address found a)))
    ]
  where
    by_answer :
        (r : Scan (Option Address × ℕ))
        → ((a : Option Address) (next : ℕ)
            → list_loop fuel p limit next (add_address found a) ≢ stop)
        → (let s : Scan (List Address) = elim r [
          | fault ↦ fault
          | stop ↦ ok found
          | ok (a, next) ↦ list_loop fuel p limit next (add_address found a)
        ] in
            s)
          ≢ stop
    by_answer fault step = λ e. cc
    by_answer stop step = λ e. cc
    by_answer (ok (a, next)) step = step a next

first_found-of :
    (r : Scan (List Address)) (a : Address)
    → r ≢ stop
    → Ensures (λ l. first_of_list l ≡ ok a) r
    → (r >>= first_found) ≡ ok a
first_found-of fault a ne h = elim h [ ]
first_found-of stop a ne h = absurd (ne refl)
first_found-of (ok []) a ne (returned h) = cc
first_found-of (ok (x ∷ l)) a ne (returned h) = rw (lt→ltb 0 (length (x ∷ l)) (omega arith)) h

-- With nothing found yet, `parse_a`'s loop comes to the address that `dns_resolve_udp` returns.
first_found-list_loop :
    (p : List ℕ) (fuel off : ℕ)
    → 0 < fuel
    → length p < off + fuel
    → (list_loop fuel p 8 off [] >>= first_found) ≡ udp_loop fuel p off
unfolding udp_loop list_loop
first_found-list_loop p zero off pos h = elim pos [ ]
first_found-list_loop p (suc fuel) off pos h = elim (Bool-cases (ltb (off + 10) (length p))) [
  | inr e ↦ rw (e, list_loop, udp_loop) refl
  | inl e ↦
      let room = ltb→lt (off + 10) (length p) e in
      rw (e, list_loop, udp_loop)
        (by_answer room (answer p off) (answer-le p off (omega arith))
          (λ next far. first_found-list_loop p fuel next (omega arith) (omega arith)))
]
  where
    by_answer :
        off + 10 < length p
        → (r : Scan (Option Address × ℕ)) → Ensures (λ r. FourBytes p r.0 × (off + 10 ≤ r.1)) r
        → ((next : ℕ)
            → off + 10 ≤ next
            → (list_loop fuel p 8 next [] >>= first_found) ≡ udp_loop fuel p next)
        → ((let s : Scan (List Address) = elim r [
          | fault ↦ fault
          | stop ↦ ok []
          | ok (a, next) ↦ list_loop fuel p 8 next (add_address [] a)
        ] in
              s)
            >>= first_found)
          ≡ (let s : Scan Address = elim r [
            | fault ↦ fault
            | stop ↦ stop
            | ok (some a, next) ↦ ok a
            | ok (none, next) ↦ udp_loop fuel p next
          ] in
              s)
    by_answer room fault safe step = elim safe [ ]
    by_answer room stop safe step = refl
    by_answer room (ok (none, next)) (returned far) step = unfold add_address in step next far.1
    by_answer room (ok (some a, next)) (returned far) step =
        first_found-of (list_loop fuel p 8 next (add_address [] (some a))) a
          (list_loop-ne-stop p 8 fuel next (add_address [] (some a)))
          (list_loop-keeps p 8 (λ l. first_of_list l ≡ ok a)
            (λ found b e few four. add_address_first a found b e) fuel next
            (add_address [] (some a)) (omega arith) (omega arith) (unfold add_address in refl))

first_found-bind :
    (r : Scan (List Address))
    → ((r >>= λ l. guard (ltb 0 (length l)) >> ok l) >>= first_of_list) ≡ (r >>= first_found)
first_found-bind fault = refl
first_found-bind stop = refl
first_found-bind (ok []) = refl
first_found-bind (ok (a ∷ l)) = rw (lt→ltb 0 (length (a ∷ l)) (omega arith))

same_tail :
    (p : List ℕ) (c : Scan (Unit {0})) (q : Scan ℕ)
    → (c >> (q >>= λ off. udp_loop (suc (length p)) p off)) ≡ (
        (c
          >> (q >>= λ off.
              list_loop (suc (length p)) p 8 off [] >>= λ l. guard (ltb 0 (length l)) >> ok l))
        >>= first_of_list)
same_tail p fault q = refl
same_tail p stop q = refl
same_tail p (ok _) fault = refl
same_tail p (ok _) stop = refl
same_tail p (ok _) (ok off) =
    sym (first_found-list_loop p (suc (length p)) off (omega arith) (omega arith))
    ∙ sym (first_found-bind (list_loop (suc (length p)) p 8 off []))

-- On a response with the query's id, the reader of `dns_resolve_udp` and `parse_a` give the same
-- answer: the same address, or none.
pub parse_udp-parse_a : (p : List ℕ) → at p 0 ≡ ok 0xAB → at p 1 ≡ ok 0xCD → parse_udp p ≡ parse_a p
unfolding parse_udp parse_a parse_a_list
parse_udp-parse_a p id1 id2 = elim (Bool-cases (leb 12 (length p))) [
  | inr e ↦ unfold check_header in rw e
  | inl e ↦ rw (e, id1, id2) (same_tail p (check_header p) (skip_question p))
]
