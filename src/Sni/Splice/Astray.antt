-- ===== src/Sni/Splice/Astray.antt =====
-- A data record that two `recv` bring: `rec_left` of common/sni_relay.c begins at nothing with
-- each.
use raise_my_freedom.Common.{
  ℕ, zero, suc, refl, ◌*◌, append-nil, ◌+◌, ◌/◌, ◌%◌, ◌≤◌, ◌<◌, ◌≡◌, ap, Bool, true, false, ◌&&◌,
  List, [], ◌∷◌, ◌++◌, arith, length, take, drop, get_or, min, length-append, length-drop,
  length-take,
}
use raise_my_freedom.Sni.Splice.{
  Settings, record_size, whole_record, open_record, split_payload, forward, joined, splice, silent,
  data_in, ready, splice_loop,
}
use raise_my_freedom.Sni.Splice.Reframed.{
  Record, records_bytes, payloads, AllKind, split_payload-PartsOf, splice-open,
}
use raise_my_freedom.Sni.Splice.Relayed.{sent, splice_loop_two}

length-records_bytes :
    (rs : List Record) → length (records_bytes rs) ≡ 5 * length rs + length (payloads rs)
unfolding payloads records_bytes
length-records_bytes [] = omega arith
length-records_bytes (r ∷ rs) = omega (
  arith,
  length-records_bytes rs,
  length-append r.payload (payloads rs),
  length-append r.payload (records_bytes rs),
)

module _ (size a b : ℕ) (pos : 0 < size) where
  -- The writes for a first part, by those for the rest.
  first_part :
      (k n : ℕ) (p : List ℕ) (more : List (List ℕ))
      → k ≤ length p
      → n ≤ length (joined more)
      → k + n + 5
        ≤ length (joined ((0x17 ∷ a ∷ b ∷ (k / 256) % 256 ∷ k % 256 ∷ []) ∷ take k p ∷ more))
  unfolding joined
  first_part k n p more h e =
      omega (arith, length-append (take k p) (joined more), length-take k p h)

  length-split_payload_least :
      (fuel : ℕ) (p : List ℕ)
      → length p ≤ fuel
      → length p ≤ length (joined (split_payload fuel size a b p))
  unfolding split_payload joined
  length-split_payload_least fuel [] l = omega arith
  length-split_payload_least zero (c ∷ p) l = absurd (omega arith)
  length-split_payload_least (suc fuel) (c ∷ p) l =
      let k : ℕ = min (length (c ∷ p)) size in
      let e = length-drop k (c ∷ p) in
      omega (
        arith,
        e,
        first_part k (length (drop k (c ∷ p))) (c ∷ p)
            (split_payload fuel size a b (drop k (c ∷ p))) (omega arith)
            (length-split_payload_least fuel (drop k (c ∷ p)) (omega (arith, e))),
      )

  length-split_payload :
      (fuel : ℕ) (p : List ℕ)
      → 0 < length p
      → length p ≤ fuel
      → length p + 5 ≤ length (joined (split_payload fuel size a b p))
  unfolding split_payload
  length-split_payload fuel [] h l = absurd (omega arith)
  length-split_payload zero (c ∷ p) h l = absurd (omega arith)
  length-split_payload (suc fuel) (c ∷ p) h l =
      let k : ℕ = min (length (c ∷ p)) size in
      let e = length-drop k (c ∷ p) in
      omega (
        arith,
        e,
        first_part k (length (drop k (c ∷ p))) (c ∷ p)
            (split_payload fuel size a b (drop k (c ∷ p))) (omega arith)
            (length-split_payload_least fuel (drop k (c ∷ p)) (omega (arith, e))),
      )

  -- A payload of more than one part.
  length-split_payload_two :
      (fuel : ℕ) (p : List ℕ)
      → size < length p
      → length p ≤ fuel
      → length p + 10 ≤ length (joined (split_payload fuel size a b p))
  unfolding split_payload
  length-split_payload_two fuel [] h l = absurd (omega arith)
  length-split_payload_two zero (c ∷ p) h l = absurd (omega arith)
  length-split_payload_two (suc fuel) (c ∷ p) h l =
      let k : ℕ = min (length (c ∷ p)) size in
      let e = length-drop k (c ∷ p) in
      omega (
        arith,
        e,
        first_part k (length (drop k (c ∷ p)) + 5) (c ∷ p)
            (split_payload fuel size a b (drop k (c ∷ p))) (omega arith)
            (length-split_payload fuel (drop k (c ∷ p)) (omega (arith, e)) (omega (arith, e))),
      )

not_handshake :
    (b : Bool) (least : ℕ) (k : ℕ) (s : List ℕ)
    → whole_record 0x17 least (k ∷ s) ≡ true
    → b && whole_record 0x16 200 (k ∷ s) ≡ false
not_handshake b least k (c ∷ d ∷ hi ∷ lo ∷ s) e = ground arith
not_handshake b least k [] e = absurd (ground arith)
not_handshake b least k (c ∷ []) e = absurd (ground arith)
not_handshake b least k (c ∷ d ∷ []) e = absurd (ground arith)
not_handshake b least k (c ∷ d ∷ hi ∷ []) e = absurd (ground arith)

enough :
    (k : ℕ) (s : List ℕ) (least : ℕ)
    → whole_record 0x17 least (k ∷ s) ≡ true
    → least < record_size (k ∷ s)
enough k (c ∷ d ∷ hi ∷ lo ∷ s) least e = ground arith
enough k [] least e = absurd (ground arith)
enough k (c ∷ []) least e = absurd (ground arith)
enough k (c ∷ d ∷ []) least e = absurd (ground arith)
enough k (c ∷ d ∷ hi ∷ []) least e = absurd (ground arith)

forward-nil : (fuel : ℕ) (cfg : Settings) (n : ℕ) → forward fuel cfg [] n ≡ []
unfolding forward
forward-nil zero cfg n = refl
forward-nil (suc fuel) cfg n = refl

drop-end : (n : ℕ) (l : List ℕ) → length l ≤ n → drop n l ≡ []
drop-end zero [] h = refl
drop-end zero (x ∷ l) h = absurd (omega arith)
drop-end (suc n) [] h = refl
drop-end (suc n) (x ∷ l) h = drop-end n l (omega arith)

take-end : (n : ℕ) (l : List ℕ) → length l ≤ n → take n l ≡ l
take-end zero [] h = refl
take-end zero (x ∷ l) h = absurd (omega arith)
take-end (suc n) [] h = refl
take-end (suc n) (x ∷ l) h = ap (◌∷◌ x) (take-end n l (omega arith))

-- A payload in two records at least.
record InParts (payload out : List ℕ) : Type 0 where
  parts : List Record
  written : out ≡ records_bytes parts
  same_kind : AllKind 0x17 parts
  same_payload : payloads parts ≡ payload
  several : 2 ≤ length parts

-- A buffer that is one data record of more than one part is cut into records.
splice-InParts :
    (cfg : Settings) (ys : List ℕ)
    → cfg.split_data ≡ true
    → 0 < cfg.split_size
    → whole_record 0x17 cfg.split_size ys ≡ true
    → length ys ≡ 5 + record_size ys
    → InParts (drop 5 ys) (joined (splice cfg ys))
unfolding splice forward
splice-InParts cfg [] on pos e l = absurd (omega (arith, l))
splice-InParts cfg (k ∷ s) on pos e l =
    let size : ℕ = record_size (k ∷ s) in
    let p : List ℕ = drop 4 s in
    let lp : length p ≡ size = omega (arith, l, length-drop 4 s) in
    let all : take size p ≡ p = take-end size p (omega (arith, lp)) in
    let none_left : drop size p ≡ [] = drop-end size p (omega (arith, lp)) in
    let pieces : List (List ℕ) =
      split_payload size cfg.split_size (get_or s 0 0) (get_or s 1 0) p in
    let grown =
      length-split_payload_two cfg.split_size (get_or s 0 0) (get_or s 1 0) pos size p
        (omega (arith, lp, enough k s cfg.split_size e)) (omega (arith, lp)) in
    let made =
      split_payload-PartsOf size cfg.split_size (get_or s 0 0) (get_or s 1 0) p pos
        (omega (arith, lp)) in
    let size_of = length-records_bytes made.parts in
    let same : length (payloads made.parts) ≡ length p = ap length made.same_payload in
    let sent_size : length (joined pieces) ≡ length (records_bytes made.parts) =
      ap length made.written in
    record {
      parts = made.parts;
      written =
          rw
            (
              not_handshake cfg.split_recs cfg.split_size k s e,
              on,
              e,
              all,
              none_left,
              forward-nil (length s) (record cfg { split_data = true }) 0,
              append-nil pieces,
            )
            made.written;
      same_kind = made.same_kind;
      same_payload = made.same_payload;
      several = omega (arith, grown, size_of, same, sent_size);
    }

-- Unless a send fails, with data records cut and a positive `g_data_chunk` and `g_split_size`: a
-- data record from the client that two `recv` bring, whose second part looks like one whole record
-- of more than `g_split_size` bytes, does not reach the server as it was. The server gets the first
-- part, and then two data records or more, with a header each, that carry what follows the first
-- five bytes of the second part.
pub splice_loop-astray :
    (cfg : Settings) (accepts : ℕ → Bool) (xs ys : List ℕ)
    → ((i : ℕ) → accepts i ≡ true)
    → cfg.split_data ≡ true
    → 0 < cfg.data_chunk
    → 0 < cfg.split_size
    → open_record xs ≡ true
    → length xs + length ys ≡ 5 + record_size xs
    → whole_record 0x17 cfg.split_size ys ≡ true
    → length ys ≡ 5 + record_size ys
    → (parts : List Record) × (sent true
          (splice_loop cfg accepts 0 (ready (data_in xs) silent ∷ ready (data_in ys) silent ∷ []))
        ≡ xs ++ records_bytes parts)
      × AllKind 0x17 parts
      × (payloads parts ≡ drop 5 ys)
      × (2 ≤ length parts)
splice_loop-astray cfg accepts xs ys accepting on pos least is_open whole e l =
    let made = splice-InParts cfg ys on least e l in
    (
      made.parts,
      rw
          (
            splice_loop_two cfg accepts accepting pos least xs ys,
            splice-open cfg xs on is_open pos,
            made.written,
          )
          refl,
      made.same_kind,
      made.same_payload,
      made.several,
    )
