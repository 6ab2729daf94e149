-- ===== src/Sni/Splice/Reframed.antt =====
-- The relay changes where records are cut, not what they carry.
use raise_my_freedom.Common.{
  ℕ, zero, suc, ◌+◌, ◌-◌, ◌*◌, ◌/◌, ◌%◌, ◌≤◌, ◌<◌, ◌≡◌, refl, sym, ap, ◌∙◌, Bool, true, false, ◌&&◌,
  List, [], ◌∷◌, ◌++◌, arith, ltb, if◌then◌else◌, length, take, drop, get_or, min, All, length-take,
  length-drop, take-append-drop, append_assoc, append-nil, Bool-cases, inl, inr, lt→ltb,
}
use raise_my_freedom.Desync.Checksum.{IsByte}
use raise_my_freedom.Desync.Packet.Checks.{drop-IsByte}
use raise_my_freedom.Sni.Splice.{
  Settings, record_size, header, whole_record, open_record, split_record, split_payload, forward,
  joined, splice,
}

-- A record: its kind, its version, and what it carries.
pub record Record : Type 0 where
  pub kind : ℕ
  pub major : ℕ
  pub minor : ℕ
  pub payload : List ℕ

abbrev pub record_bytes : Record → List ℕ
record_bytes r = header r.kind r.major r.minor (length r.payload) ++ r.payload

unfoldable pub records_bytes : List Record → List ℕ
records_bytes [] = []
records_bytes (r ∷ rs) = record_bytes r ++ records_bytes rs

unfoldable pub payloads : List Record → List ℕ
payloads [] = []
payloads (r ∷ rs) = r.payload ++ payloads rs

abbrev pub AllKind : ℕ → List Record → Type 0
AllKind k [] = Unit
AllKind k (r ∷ rs) = (r.kind ≡ k) × AllKind k rs

-- How what is written for the bytes of one `recv` relates to them, by whether data records are cut.
-- At the place where the loop stands: bytes pass as they are; or what reads as a whole record, with
-- something in it, is replaced by records of its kind that carry the same together; or what reads
-- as a data record that goes on behind the buffer passes as it is, to the buffer's last byte.
pub data Reframed (cuts_data : Bool) : List ℕ → List ℕ → Type 0 where
  finished : {i o : List ℕ} → i ≡ [] → o ≡ [] → Reframed cuts_data i o
  kept : {i o : List ℕ} → cuts_data ≡ true → open_record i ≡ true → o ≡ i → Reframed cuts_data i o
  passed :
      {i o : List ℕ} (xs ys zs : List ℕ)
      → cuts_data && open_record i ≡ false
      → i ≡ xs ++ ys
      → o ≡ xs ++ zs
      → Reframed cuts_data ys zs
      → Reframed cuts_data i o
  cut :
      {i o : List ℕ} (r : Record) (parts : List Record) (ys zs : List ℕ)
      → i ≡ record_bytes r ++ ys
      → 0 < length r.payload
      → AllKind r.kind parts
      → payloads parts ≡ r.payload
      → o ≡ records_bytes parts ++ zs
      → Reframed cuts_data ys zs
      → Reframed cuts_data i o

pub joined-append : (xs ys : List (List ℕ)) → joined (xs ++ ys) ≡ joined xs ++ joined ys
unfolding joined
joined-append [] ys = refl
joined-append (x ∷ xs) ys = rw (joined-append xs ys, append_assoc x (joined xs) (joined ys))

-- The record that lies ahead.
abbrev ahead : ℕ → List ℕ → Record
ahead kind rest = record {
  kind = kind;
  major = get_or rest 1 0;
  minor = get_or rest 2 0;
  payload = take (record_size rest) (drop 5 rest);
}

ahead_lem :
    (kind least : ℕ) (rest : List ℕ)
    → All IsByte rest
    → whole_record kind least rest ≡ true
    → (rest ≡ record_bytes (ahead kind rest) ++ drop (record_size rest) (drop 5 rest))
      × (length (ahead kind rest).payload ≡ record_size rest)
      × (least < record_size rest)
ahead_lem kind least (k ∷ a ∷ b ∷ hi ∷ lo ∷ body) (hk, (ha, (hb, (hhi, (hlo, h))))) e =
    let n : ℕ = hi * 256 + lo in
    let l : length (take n body) ≡ n = length-take n body (ground arith) in
    (
      whole_again k a b hi lo (take n body) (drop n body) body (ground arith) hhi hlo l
          (take-append-drop n body),
      l,
      ground arith,
    )
  where
    whole_again :
        (k a b hi lo : ℕ) (p q body : List ℕ)
        → k ≡ kind
        → hi < 256
        → lo < 256
        → length p ≡ hi * 256 + lo
        → p ++ q ≡ body
        → k ∷ a ∷ b ∷ hi ∷ lo ∷ body ≡ (header kind a b (length p) ++ p) ++ q
    whole_again k a b hi lo p q body ek h1 h2 l w =
        let e1 : hi ≡ (length p / 256) % 256 = omega (arith, l) in
        let e2 : lo ≡ length p % 256 = omega (arith, l) in rw (← w, ← e1, ← e2, ek)
ahead_lem kind least [] h e = absurd (ground arith)
ahead_lem kind least (k ∷ []) h e = absurd (ground arith)
ahead_lem kind least (k ∷ a ∷ []) h e = absurd (ground arith)
ahead_lem kind least (k ∷ a ∷ b ∷ []) h e = absurd (ground arith)
ahead_lem kind least (k ∷ a ∷ b ∷ c ∷ []) h e = absurd (ground arith)

-- The parts of a payload, and what is written for them.
pub record PartsOf (kind : ℕ) (payload : List ℕ) (writes : List (List ℕ)) : Type 0 where
  pub parts : List Record
  pub same_kind : AllKind kind parts
  pub same_payload : payloads parts ≡ payload
  pub written : joined writes ≡ records_bytes parts

split_record-PartsOf :
    (rest : List ℕ)
    → length (ahead 0x16 rest).payload ≡ record_size rest
    → PartsOf 0x16 (ahead 0x16 rest).payload (split_record rest)
unfolding split_record joined records_bytes payloads
split_record-PartsOf rest l =
    halves (get_or rest 1 0) (get_or rest 2 0) (record_size rest) (record_size rest / 2)
      (ahead 0x16 rest).payload l (omega arith)
  where
    halves :
        (a b n k : ℕ) (p : List ℕ)
        → length p ≡ n
        → k ≤ n
        → PartsOf 0x16 p
            (header 0x16 a b k ∷ take k p ∷ header 0x16 0x03 0x01 (n - k) ∷ drop k p ∷ [])
    halves a b n k p l h =
        let l1 = length-take k p (omega (arith, l)) in
        let l2 : length (drop k p) ≡ n - k = omega (arith, l, length-drop k p) in
        record {
          parts =
              record { kind = 0x16; major = a; minor = b; payload = take k p }
              ∷ record { kind = 0x16; major = 0x03; minor = 0x01; payload = drop k p }
              ∷ [];
          same_kind = (refl, (refl, tt));
          same_payload = rw (append-nil (drop k p)) (take-append-drop k p);
          written = rw (l1, l2);
        }

onto-PartsOf :
    (kind a b : ℕ) (k : ℕ) (p : List ℕ) (writes : List (List ℕ))
    → k ≤ length p
    → PartsOf kind (drop k p) writes
    → PartsOf kind p (header kind a b k ∷ take k p ∷ writes)
unfolding joined records_bytes payloads
onto-PartsOf kind a b k p writes h rest =
    let l = length-take k p h in
    record {
      parts = record { kind = kind; major = a; minor = b; payload = take k p } ∷ rest.parts;
      same_kind = (refl, rest.same_kind);
      same_payload = rw rest.same_payload (take-append-drop k p);
      written = rw (l, rest.written) (refl);
    }

pub split_payload-PartsOf :
    (fuel size a b : ℕ) (payload : List ℕ)
    → 0 < size
    → length payload ≤ fuel
    → PartsOf 0x17 payload (split_payload fuel size a b payload)
unfolding split_payload joined records_bytes payloads
split_payload-PartsOf zero size a b [] pos h = record {
  parts = [];
  same_kind = tt;
  same_payload = refl;
  written = refl;
}
split_payload-PartsOf zero size a b (c ∷ p) pos h = absurd (omega arith)
split_payload-PartsOf (suc fuel) size a b [] pos h = record {
  parts = [];
  same_kind = tt;
  same_payload = refl;
  written = refl;
}
split_payload-PartsOf (suc fuel) size a b (c ∷ p) pos h =
    onto-PartsOf 0x17 a b (min (length (c ∷ p)) size) (c ∷ p)
      (split_payload fuel size a b (drop (min (length (c ∷ p)) size) (c ∷ p))) (omega arith)
      (split_payload-PartsOf fuel size a b (drop (min (length (c ∷ p)) size) (c ∷ p)) pos
        (omega (arith, length-drop (min (length (c ∷ p)) size) (c ∷ p))))

module _ (cuts_data : Bool) where
  pass-Reframed :
      (n : ℕ) (rest : List ℕ) (more : List (List ℕ))
      → cuts_data && open_record rest ≡ false
      → Reframed cuts_data (drop n rest) (joined more)
      → Reframed cuts_data rest (joined (take n rest ∷ more))
  unfolding joined
  pass-Reframed n rest more c h =
      passed (take n rest) (drop n rest) (joined more) c (sym (take-append-drop n rest)) refl h

  cut-Reframed :
      (kind least : ℕ) (rest : List ℕ) (writes more : List (List ℕ))
      → All IsByte rest
      → whole_record kind least rest ≡ true
      → (length (ahead kind rest).payload ≡ record_size rest
          → PartsOf kind (ahead kind rest).payload writes)
      → Reframed cuts_data (drop (record_size rest) (drop 5 rest)) (joined more)
      → Reframed cuts_data rest (joined (writes ++ more))
  cut-Reframed kind least rest writes more bytes e p h =
      let (shape, l, more_than) = ahead_lem kind least rest bytes e in
      let found = p l in
      cut (ahead kind rest) found.parts (drop (record_size rest) (drop 5 rest)) (joined more) shape
        (omega arith) found.same_kind found.same_payload
        (joined-append writes more ∙ ap (λ o. o ++ joined more) found.written) h

if_elim {ℓ κ} :
    {A : Type ℓ} (P : A → Type κ) (b : Bool) (x y : A)
    → (b ≡ true → P x)
    → (b ≡ false → P y)
    → P (if b then x else y)
if_elim P true x y f g = f refl
if_elim P false x y f g = g refl

and-both : (a b : Bool) → a && b ≡ true → (a ≡ true) × (b ≡ true)
and-both true true h = (refl, refl)
and-both true false h = absurd (ground arith)
and-both false b h = absurd (ground arith)

and-right : (a b : Bool) → a && b ≡ true → b ≡ true
and-right true b h = h
and-right false b h = absurd (ground arith)

-- Inside a data record that fills the rest of the buffer, all of it passes.
forward-inside :
    (fuel : ℕ) (cfg : Settings) (rest : List ℕ) (rec_left : ℕ)
    → length rest ≤ rec_left
    → length rest ≤ fuel
    → joined (forward fuel cfg rest rec_left) ≡ rest
unfolding forward joined
forward-inside zero cfg [] rec_left h l = refl
forward-inside zero cfg (b ∷ s) rec_left h l = absurd (omega arith)
forward-inside (suc fuel) cfg [] rec_left h l = refl
forward-inside (suc fuel) cfg (b ∷ s) rec_left h l =
    let n : ℕ = min rec_left (length (b ∷ s)) in
    let more : ltb 0 rec_left ≡ true = lt→ltb 0 rec_left (omega arith) in
    let again =
      forward-inside fuel cfg (drop n (b ∷ s)) (rec_left - n) (omega (arith, length-drop n (b ∷ s)))
        (omega (arith, length-drop n (b ∷ s))) in
    rw (more, again) (take-append-drop n (b ∷ s))

-- What reads as an open data record reads as no whole record.
open-tests :
    (b : Bool) (least : ℕ) (rest : List ℕ)
    → open_record rest ≡ true
    → (b && whole_record 0x16 200 rest ≡ false) × (whole_record 0x17 least rest ≡ false)
open-tests b least (k ∷ c ∷ d ∷ hi ∷ lo ∷ s) e = (ground arith, ground arith)
open-tests b least [] e = absurd (ground arith)
open-tests b least (k ∷ []) e = absurd (ground arith)
open-tests b least (k ∷ c ∷ []) e = absurd (ground arith)
open-tests b least (k ∷ c ∷ d ∷ []) e = absurd (ground arith)
open-tests b least (k ∷ c ∷ d ∷ hi ∷ []) e = absurd (ground arith)

open-longer : (rest : List ℕ) → open_record rest ≡ true → length rest < 5 + record_size rest
open-longer (k ∷ c ∷ d ∷ hi ∷ lo ∷ s) e = ground arith
open-longer [] e = absurd (ground arith)
open-longer (k ∷ []) e = absurd (ground arith)
open-longer (k ∷ c ∷ []) e = absurd (ground arith)
open-longer (k ∷ c ∷ d ∷ []) e = absurd (ground arith)
open-longer (k ∷ c ∷ d ∷ hi ∷ []) e = absurd (ground arith)

-- A data record that begins where the loop stands and goes on behind the buffer passes as it is.
forward-open :
    (fuel : ℕ) (cfg : Settings) (rest : List ℕ)
    → cfg.split_data ≡ true
    → open_record rest ≡ true
    → 0 < cfg.data_chunk
    → length rest ≤ fuel
    → joined (forward fuel cfg rest 0) ≡ rest
unfolding forward joined
forward-open zero cfg [] on e pos h = refl
forward-open zero cfg (b ∷ s) on e pos h = absurd (omega arith)
forward-open (suc fuel) cfg [] on e pos h = refl
forward-open (suc fuel) cfg (b ∷ s) on e pos h =
    let rest : List ℕ = b ∷ s in
    let t : ℕ = 5 + record_size rest in
    let tests = open-tests cfg.split_recs cfg.split_size rest e in
    let long = open-longer rest e in
    let tracked : ltb 0 t ≡ true = lt→ltb 0 t (omega arith) in
    let n : ℕ = min (min (length rest) cfg.data_chunk) t in
    let some_taken : ltb 0 n ≡ true = lt→ltb 0 n (omega arith) in
    let again =
      forward-inside fuel (record cfg { split_data = true }) (drop n rest) (t - n)
        (omega (arith, length-drop n rest)) (omega (arith, length-drop n rest)) in
    rw (tests.0, on, tests.1, e, tracked, some_taken, again) (take-append-drop n rest)

forward-Reframed :
    (fuel : ℕ) (cfg : Settings) (rest : List ℕ)
    → All IsByte rest
    → 0 < cfg.data_chunk
    → 0 < cfg.split_size
    → length rest ≤ fuel
    → Reframed cfg.split_data rest (joined (forward fuel cfg rest 0))
unfolding forward joined
forward-Reframed zero cfg [] bytes pos least h = finished refl refl
forward-Reframed zero cfg (b ∷ s) bytes pos least h = absurd (omega arith)
forward-Reframed (suc fuel) cfg [] bytes pos least h = finished refl refl
forward-Reframed (suc fuel) cfg (b ∷ s) bytes pos least h =
    let rest : List ℕ = b ∷ s in
    let to : List (List ℕ) → Type 0 = λ ws. Reframed cfg.split_data rest (joined ws) in
    let size : ℕ = record_size rest in
    let left : List ℕ = drop size (drop 5 rest) in
    let next : Reframed cfg.split_data left (joined (forward fuel cfg left 0)) =
      forward-Reframed fuel cfg left (drop-IsByte size (drop 5 rest) (drop-IsByte 5 rest bytes)) pos
        least (omega (arith, length-drop size (drop 5 rest), length-drop 5 rest)) in
    elim (Bool-cases (cfg.split_data && open_record rest)) [
      | inl o ↦
          let (on, is_open) = and-both cfg.split_data (open_record rest) o in
          kept on is_open (forward-open (suc fuel) cfg rest on is_open pos h)
      | inr o ↦
          let n : ℕ = min (length rest) cfg.data_chunk in
          let none_left : 0 - n ≡ 0 = omega arith in
          if_elim to (cfg.split_recs && whole_record 0x16 200 rest) _ _
            (λ e.
              cut-Reframed cfg.split_data 0x16 200 rest (split_record rest)
                (forward fuel cfg left 0) bytes (and-right _ _ e) (split_record-PartsOf rest) next)
            (λ _.
              if_elim to (cfg.split_data && whole_record 0x17 cfg.split_size rest) _ _
                (λ e.
                  cut-Reframed cfg.split_data 0x17 cfg.split_size rest
                    (split_payload size cfg.split_size (get_or rest 1 0) (get_or rest 2 0)
                      (take size (drop 5 rest)))
                    (forward fuel cfg left 0) bytes (and-right _ _ e)
                    (λ l.
                      split_payload-PartsOf size cfg.split_size (get_or rest 1 0) (get_or rest 2 0)
                        (take size (drop 5 rest)) least (omega (arith, l)))
                    next)
                (λ _.
                  rw (o, none_left, lt→ltb 0 n (omega arith))
                    (pass-Reframed cfg.split_data n rest (forward fuel cfg (drop n rest) 0) o (
                      forward-Reframed fuel cfg (drop n rest) (drop-IsByte n rest bytes) pos least
                        (omega (arith, length-drop n rest))))))
    ]

-- With a positive `g_data_chunk` and `g_split_size`, what the loop writes for the bytes of one
-- `recv` is `Reframed` from them.
pub splice-Reframed :
    (cfg : Settings) (buf : List ℕ)
    → All IsByte buf
    → 0 < cfg.data_chunk
    → 0 < cfg.split_size
    → Reframed cfg.split_data buf (joined (splice cfg buf))
unfolding splice
splice-Reframed cfg buf bytes pos least =
    forward-Reframed (length buf) cfg buf bytes pos least (omega arith)

-- A buffer that reads as an open data record passes as it is.
pub splice-open :
    (cfg : Settings) (buf : List ℕ)
    → cfg.split_data ≡ true
    → open_record buf ≡ true
    → 0 < cfg.data_chunk
    → joined (splice cfg buf) ≡ buf
unfolding splice
splice-open cfg buf on e pos = forward-open (length buf) cfg buf on e pos (omega arith)
