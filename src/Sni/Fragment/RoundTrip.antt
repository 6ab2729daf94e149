-- ===== src/Sni/Fragment/RoundTrip.antt =====
-- `extract_client_hello` joins what `sni_build_fragmented_ch` split.
use raise_my_freedom.Common.{
  ℕ, zero, suc, ◌+◌, ◌-◌, ◌*◌, ◌/◌, ◌%◌, ◌≤◌, ◌<◌, ◌≡◌, refl, ap, ◌∙◌, ◌&&◌, List, [], ◌∷◌, ◌++◌,
  append-nil, append_assoc, arith, leb, if◌then◌else◌, length, take, drop, Scan, stop, ok, max,
  le→leb, lt→leb, le→ltb, ne→==, length-append, length-take, length-drop, take-append, drop-append,
  take-append-drop, leb→le, guard-eq-ok, >>=-eq-ok,
}
use raise_my_freedom.Sni.Hello.{be24}
use raise_my_freedom.Sni.Fragment.{
  tls_record, fragments, part_count, first_cut, build_fragmented, whole, announced, needed,
  join_loop, extract_client_hello,
}
use raise_my_freedom.Sni.Fragment.Total.{
  length-tls_record, fragments_total, fragments_short, part_count_bounds, first_cut_bounds,
}

-- The bytes are a ClientHello of `sni_relay.c`: its header announces its own length.
abbrev pub IsHandshake : List ℕ → Type 0
IsHandshake hs = announced hs 65536 ≡ ok (length hs)

take_more : {A : Type 0} (n : ℕ) (xs : List A) → length xs ≤ n → take n xs ≡ xs
take_more zero [] h = refl
take_more zero (x ∷ xs) h = absurd (omega arith)
take_more (suc n) [] h = refl
take_more (suc n) (x ∷ xs) h = ap (◌∷◌ x) (take_more n xs (omega arith))

-- One round of the loop, on a whole record.
join_record :
    (fuel : ℕ) (p more : List ℕ) (hs_cap : ℕ) (need : Scan ℕ) (n : ℕ) (got : List ℕ) (off : ℕ)
    → 1 ≤ length p
    → length p < 65536
    → needed need p hs_cap ≡ ok n
    → length got + length p ≤ n
    → join_loop (suc fuel) (tls_record p ++ more) hs_cap need got off ≡ (
        if leb n (length (got ++ p))
        then whole (got ++ p) (off + 5 + length p)
        else join_loop fuel more hs_cap (ok n) (got ++ p) (off + 5 + length p))
unfolding join_loop tls_record
join_record fuel p more hs_cap need n got off pos small known fits =
    let size : length p / 256 % 256 * 256 + length p % 256 ≡ length p = omega arith in
    rw (
      size,
      ne→== (length p) 0 (omega arith),
      le→ltb (length (p ++ more)) (length p) (omega (arith, length-append p more)),
      take-append p more,
      known,
      size,
      take-append p more,
      drop-append p more,
      take_more (n - length got) p (omega arith),
    )

fragments_last :
    (rest : List ℕ) (cut total out_cap : ℕ) {out : List ℕ}
    → fragments zero rest cut total out_cap ≡ ok out
    → (1 ≤ length rest) × (tls_record rest ≡ out)
unfolding fragments
fragments_last rest cut total out_cap e =
    let (pos, e1) = guard-eq-ok (leb 1 (length rest)) _ e in
    let (_, e2) = guard-eq-ok (leb (total + 5 + length rest) out_cap) _ e1 in
    (leb→le 1 (length rest) pos, cc e2)

fragments_next :
    (left : ℕ) (rest : List ℕ) (cut total out_cap : ℕ) {out : List ℕ}
    → fragments (suc left) rest cut total out_cap ≡ ok out
    → (1 ≤ cut)
      × (cut ≤ length rest)
      × (more : List ℕ) × (fragments left
            (drop cut rest)
            (max 1 ((length rest - cut) / suc left))
            (total + 5 + cut)
            out_cap
          ≡ ok more)
      × (tls_record (take cut rest) ++ more ≡ out)
unfolding fragments
fragments_next left rest cut total out_cap e =
    let (pos, e1) = guard-eq-ok (leb 1 cut && leb cut (length rest)) _ e in
    let (_, e2) = guard-eq-ok (leb (total + 5 + cut) out_cap) _ e1 in
    let (more, e3, e4) =
      >>=-eq-ok (fragments left (drop cut rest) _ (total + 5 + cut) out_cap) _ e2 in
    (ground (arith, pos), ground (arith, pos), more, e3, cc e4)

fragments_nonempty :
    (left : ℕ) (rest : List ℕ) (cut total out_cap : ℕ) {out : List ℕ}
    → fragments left rest cut total out_cap ≡ ok out
    → 1 ≤ length rest
fragments_nonempty zero rest cut total out_cap e = (fragments_last rest cut total out_cap e).0
fragments_nonempty (suc left) rest cut total out_cap e =
    let t = fragments_next left rest cut total out_cap e in omega (arith, t.0, t.1)

-- The loop over the records of `fragments`, when the first of them settles how much is needed.
join_fragments :
    (left fuel : ℕ) (rest : List ℕ) (cut total out_cap hs_cap : ℕ) (need : Scan ℕ) (n : ℕ)
    (got : List ℕ) (off : ℕ) (out : List ℕ)
    → fragments left rest cut total out_cap ≡ ok out
    → length rest < 65536
    → left < fuel
    → length got + length rest ≡ n
    → (needed need rest hs_cap ≡ ok n) × (needed need (take cut rest) hs_cap ≡ ok n)
    → join_loop fuel out hs_cap need got off ≡ whole (got ++ rest) (off + length out)
join_fragments left zero rest cut total out_cap hs_cap need n got off out e small lt sum known =
    absurd (omega arith)
join_fragments zero (suc fuel) rest cut total out_cap hs_cap need n got off out e small lt sum
      known =
    let (pos, shape) = fragments_last rest cut total out_cap e in
    rw
      (
        ← shape,
        ← append-nil (tls_record rest),
        join_record fuel rest [] hs_cap need n got off pos small known.0 (omega arith),
        le→leb n (length (got ++ rest)) (omega (arith, length-append got rest)),
      )
      (ap (whole (got ++ rest)) (rw append-nil (omega (arith, length-tls_record rest))))
join_fragments (suc left) (suc fuel) rest cut total out_cap hs_cap need n got off out e small lt sum
      known =
    let (pos, inside, more, later, shape) = fragments_next left rest cut total out_cap e in
    let l = length-take cut rest inside in
    let r = length-drop cut rest in
    let some_left = fragments_nonempty left (drop cut rest) _ (total + 5 + cut) out_cap later in
    rw
      (
        ← shape,
        join_record fuel (take cut rest) more hs_cap need n got off (omega (arith, l))
            (omega (arith, l)) known.1 (omega (arith, l)),
        lt→leb n (length (got ++ take cut rest)) (omega (arith, length-append got (take cut rest))),
        join_fragments left fuel (drop cut rest) _ (total + 5 + cut) out_cap hs_cap (ok n) n
            (got ++ take cut rest) (off + 5 + length (take cut rest)) more later (omega (arith, r))
            (omega arith) (omega (arith, l, r, length-append got (take cut rest)))
            (unfold needed in (refl, refl)),
      )
      (rw (append_assoc got (take cut rest) (drop cut rest), take-append-drop cut rest)
        (ap (whole (got ++ rest)) (
          omega (
            arith,
            length-append (tls_record (take cut rest)) more,
            length-tls_record (take cut rest),
          ))))

pub announced-take :
    (cut : ℕ) (hs : List ℕ) (hs_cap : ℕ)
    → 4 ≤ cut
    → 4 ≤ length hs
    → announced (take cut hs) hs_cap ≡ announced hs hs_cap
unfolding announced be24
announced-take (suc (suc (suc (suc k)))) (a ∷ b ∷ c ∷ d ∷ t) hs_cap h l = rw (
  le→leb 4 (length (a ∷ b ∷ c ∷ d ∷ take k t)) (omega arith),
  le→leb 4 (length (a ∷ b ∷ c ∷ d ∷ t)) (omega arith),
)
announced-take k t hs_cap h l = absurd (omega arith)

-- Given a handshake that announces its own length and is below 65536 bytes, split with at least
-- as many bytes behind the first cut as parts are still to come: `sni_build_fragmented_ch`
-- succeeds in the relay's buffer, adds five bytes for each part, and `extract_client_hello` reads
-- the very same handshake back and consumes all that was written.
pub extract-build_fragmented :
    (multi_parts : ℕ) (hs : List ℕ)
    → IsHandshake hs
    → 46 ≤ length hs
    → length hs < 65536
    → (let parts = part_count multi_parts (length hs) in
        first_cut hs parts + (parts - 1) ≤ length hs)
    → (out : List ℕ) × (build_fragmented multi_parts hs 131072 ≡ ok out)
      × (length out ≡ length hs + 5 * part_count multi_parts (length hs))
      × (extract_client_hello out 65536 ≡ whole hs (length out))
unfolding build_fragmented extract_client_hello
extract-build_fragmented multi_parts hs announces long short room =
    let parts = part_count multi_parts (length hs) in
    let (two, most, eight) = part_count_bounds multi_parts (length hs) long in
    let (low, inside) = first_cut_bounds hs parts long two eight in
    let cut = first_cut hs parts in
    let (out, e, l) =
      fragments_total (parts - 1) hs cut 0 131072 (omega arith) room (omega arith) in
    let known = announced-take cut hs 65536 (omega arith) (omega arith) ∙ announces in
    (
      out,
      rw (le→leb 46 (length hs) long) e,
      omega arith,
      join_fragments (parts - 1) (length out) hs cut 0 131072 65536 stop (length hs) [] 0 out e
            short (omega arith) (omega arith) (unfold needed in (announces, known))
          ∙ ap (whole hs) (omega arith),
    )

part_count_two : (n : ℕ) → 46 ≤ n → part_count 2 n ≡ 2
unfolding part_count
part_count_two n h = ground arith

-- With the default setting of two parts there is always room: every handshake that announces its
-- own length, of 46 to 65535 bytes, is split into ten bytes more and read back whole.
pub extract-build_default :
    (hs : List ℕ)
    → IsHandshake hs
    → 46 ≤ length hs
    → length hs < 65536
    → (out : List ℕ) × (build_fragmented 2 hs 131072 ≡ ok out)
      × (length out ≡ length hs + 10)
      × (extract_client_hello out 65536 ≡ whole hs (length out))
extract-build_default hs announces long short =
    let n = part_count_two (length hs) long in
    let (two, most, eight) = part_count_bounds 2 (length hs) long in
    let b = first_cut_bounds hs (part_count 2 (length hs)) long two eight in
    let (out, e, l, x) =
      extract-build_fragmented 2 hs announces long short (omega (arith, n, b.1)) in
    (out, e, omega (arith, n, l), x)

-- With fewer bytes behind the first cut than parts still to come `sni_build_fragmented_ch`
-- answers -1, whatever the size of the output buffer.
pub build_fragmented_short :
    (multi_parts : ℕ) (hs : List ℕ) (out_cap : ℕ)
    → 46 ≤ length hs
    → (let parts = part_count multi_parts (length hs) in
        length hs < first_cut hs parts + (parts - 1))
    → build_fragmented multi_parts hs out_cap ≡ stop
unfolding build_fragmented
build_fragmented_short multi_parts hs out_cap long short =
    let parts = part_count multi_parts (length hs) in
    let (two, most, eight) = part_count_bounds multi_parts (length hs) long in
    let (low, inside) = first_cut_bounds hs parts long two eight in
    let step : parts - 1 ≡ suc (parts - 2) = omega arith in
    rw (le→leb 46 (length hs) long, step)
      (fragments_short (parts - 2) hs (first_cut hs parts) 0 out_cap inside (omega arith))
