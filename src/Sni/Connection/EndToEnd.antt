-- ===== src/Sni/Connection/EndToEnd.antt =====
-- A connection from end to end: what the server reads is what the client sent.
use raise_my_freedom.Common.{
  ℕ, zero, suc, ◌+◌, ◌-◌, ◌≤◌, ◌<◌, ◌≡◌, refl, sym, ap, ◌∙◌, Bool, true, false, Option, none, some,
  List, [], ◌∷◌, ◌++◌, arith, ltb, leb, ◌==◌, if◌then◌else◌, length, take, drop, set, Scan, fault,
  stop, ok, min, All, Bool-cases, inl, inr, append_assoc, append-nil, take-append-drop, drop-append,
  length-append, length-take, length-drop, le→leb, ==_self, Ensures, returned, ==→eq,
}
use raise_my_freedom.Sni.Hello.{be24, shift_case, shift_byte}
use raise_my_freedom.Sni.Shift.{ShiftsOne, shift_case-ShiftsOne, ShiftsOne-length}
use raise_my_freedom.Sni.Fragment.{
  Joined, bad, need_more, whole, announced, part_count, first_cut, build_fragmented,
  extract_client_hello,
}
use raise_my_freedom.Sni.Fragment.RoundTrip.{extract-build_fragmented}
use raise_my_freedom.Sni.Fragment.Read.{extract_client_hello-announced, extract_client_hello-append}
use raise_my_freedom.Sni.Upstream.{World, Relay, connect_upstream}
use raise_my_freedom.Sni.Splice.{joined, Poll, Write, label, splice_loop}
use raise_my_freedom.Sni.Splice.Relayed.{
  ReframedInTurn, sent, received, PollBytes, splice_loop-Reframed, transmit-all, sent-append,
  sent-label,
}
use raise_my_freedom.Sni.Connection.{
  hs_size, frag_size, Setup, Read, given_up, not_hello, hello, read_hello, shifted, shifted_buf,
  segment, known_orig, name_of, opening, Begun, deliver, connected, handle_conn, conversation,
}

-- What the loop that reads has found.
record Found (stream buf hs : List ℕ) (consumed : ℕ) (rest : List ℕ) : Type 0 where
  whole_hello : extract_client_hello buf hs_size ≡ whole hs consumed
  all_read : buf ++ rest ≡ stream

-- One round of the loop.
round : Bool → Joined → List ℕ → List ℕ → Read × List ℕ → Read × List ℕ
round stop_here j stream buf other = if stop_here then (given_up, stream) else elim j [
  | bad ↦ (not_hello buf, stream)
  | need_more ↦ other
  | whole found n ↦ (hello buf found n, stream)
]

found_here :
    (stop_here : Bool) (j : Joined) (stream buf0 buf hs : List ℕ) (consumed : ℕ) (rest : List ℕ)
    (other : Read × List ℕ)
    → extract_client_hello buf0 hs_size ≡ j
    → (other ≡ (hello buf hs consumed, rest) → Found (buf0 ++ stream) buf hs consumed rest)
    → round stop_here j stream buf0 other ≡ (hello buf hs consumed, rest)
    → Found (buf0 ++ stream) buf hs consumed rest
unfolding round
found_here true j stream buf0 buf hs consumed rest other e go f = absurd (cc f)
found_here false bad stream buf0 buf hs consumed rest other e go f = absurd (cc f)
found_here false need_more stream buf0 buf hs consumed rest other e go f = go f
found_here false (whole found n) stream buf0 buf hs consumed rest other e go f =
    let e1 : buf0 ≡ buf = cc f in
    let e2 : stream ≡ rest = cc f in
    let e3 : found ≡ hs = cc f in
    let e4 : n ≡ consumed = cc f in
    record { whole_hello = rw (← e1, ← e3, ← e4) e; all_read = rw (e1, e2) }

found_later :
    (ended : Bool) (stream buf hs whole_stream : List ℕ) (consumed : ℕ) (rest : List ℕ)
    (other : Read × List ℕ)
    → (other ≡ (hello buf hs consumed, rest) → Found whole_stream buf hs consumed rest)
    → (if ended then (given_up, stream) else other) ≡ (hello buf hs consumed, rest)
    → Found whole_stream buf hs consumed rest
found_later true stream buf hs all consumed rest other go f = absurd (cc f)
found_later false stream buf hs all consumed rest other go f = go f

read_hello-Found :
    (sizes stream buf0 buf hs : List ℕ) (consumed : ℕ) (rest : List ℕ)
    → read_hello sizes stream buf0 ≡ (hello buf hs consumed, rest)
    → Found (buf0 ++ stream) buf hs consumed rest
unfolding read_hello round
read_hello-Found [] stream buf0 buf hs consumed rest e =
    found_here (leb 1048576 (length buf0)) (extract_client_hello buf0 hs_size) stream buf0 buf hs
      consumed rest (given_up, stream) refl (λ f. absurd (cc f)) e
read_hello-Found (size ∷ sizes) stream buf0 buf hs consumed rest e =
    let n : ℕ = min size (min (1048576 - length buf0) (length stream)) in
    let later : List ℕ = buf0 ++ take n stream in
    let joined_again : later ++ drop n stream ≡ buf0 ++ stream =
      rw (append_assoc buf0 (take n stream) (drop n stream), take-append-drop n stream) in
    found_here (leb 1048576 (length buf0)) (extract_client_hello buf0 hs_size) stream buf0 buf hs
      consumed rest _ refl
      (found_later (n == 0) stream buf hs (buf0 ++ stream) consumed rest _ (λ f.
        rw (← joined_again) (read_hello-Found sizes (drop n stream) later buf hs consumed rest f)))
      e

-- The shift leaves the handshake's first four bytes and its length.
announced-set :
    (place v : ℕ) (hs : List ℕ) (hs_cap : ℕ)
    → 4 ≤ place
    → announced (set hs place v) hs_cap ≡ announced hs hs_cap
unfolding announced be24
announced-set (suc (suc (suc (suc k)))) v (a ∷ b ∷ c ∷ d ∷ t) hs_cap h = rw (
  le→leb 4 (length (a ∷ b ∷ c ∷ d ∷ set t k v)) (omega arith),
  le→leb 4 (length (a ∷ b ∷ c ∷ d ∷ t)) (omega arith),
)
announced-set (suc (suc (suc (suc k)))) v [] hs_cap h = refl
announced-set (suc (suc (suc (suc k)))) v (a ∷ []) hs_cap h = refl
announced-set (suc (suc (suc (suc k)))) v (a ∷ b ∷ []) hs_cap h = refl
announced-set (suc (suc (suc (suc k)))) v (a ∷ b ∷ c ∷ []) hs_cap h = refl
announced-set place v hs hs_cap h = absurd (omega arith)

record Alike (hs hs' : List ℕ) : Type 0 where
  same_length : length hs' ≡ length hs
  same_header : (hs_cap : ℕ) → announced hs' hs_cap ≡ announced hs hs_cap

shifted-Alike : (on : Bool) (hs : List ℕ) → Alike hs (shifted on hs)
unfolding shifted
shifted-Alike false hs = record { same_length = refl; same_header = λ c. refl }
shifted-Alike true hs = cases (shift_case hs) (shift_case-ShiftsOne hs)
  where
    cases :
        (m : Scan (List ℕ)) → Ensures (ShiftsOne hs) m → Alike hs (elim m [ ok hs' ↦ hs' | _ ↦ hs ])
    cases stop h = record { same_length = refl; same_header = λ c. refl }
    cases fault h = record { same_length = refl; same_header = λ c. refl }
    cases (ok hs') (returned s) = record {
      same_length = ShiftsOne-length s;
      same_header =
          λ c. rw s.now (announced-set s.place (shift_byte s.byte) hs c (omega (arith, s.behind)));
    }

drop_front : (c : ℕ) (x y : List ℕ) → length x ≡ c → drop c (x ++ y) ≡ y
drop_front c x y e = rw (← e) (drop-append x y)

-- The shift leaves what was read behind the handshake.
drop-shifted_buf :
    (on : Bool) (buf hs : List ℕ) (consumed : ℕ)
    → consumed ≤ length buf
    → drop consumed (shifted_buf on buf hs consumed) ≡ drop consumed buf
unfolding shifted_buf
drop-shifted_buf on buf hs consumed h = elim (Bool-cases (consumed == length hs + 5)) [
  | inr e ↦ rw e refl
  | inl e ↦
      let size : consumed ≡ 5 + length hs = omega (arith, ==→eq consumed (length hs + 5) e) in
      let middle : List ℕ = take (length hs) (drop 5 buf) in
      let alike = shifted-Alike on middle in
      rw (e, ← append_assoc (take 5 buf) (shifted on middle) (drop (5 + length hs) buf))
        (drop_front consumed (take 5 buf ++ shifted on middle) (drop (5 + length hs) buf) (
            omega (
              arith,
              size,
              alike.same_length,
              length-append (take 5 buf) (shifted on middle),
              length-take 5 buf (omega (arith, size)),
              length-take (length hs) (drop 5 buf) (omega (arith, size, length-drop 5 buf)),
            ))
          ∙ ap (λ k. drop k buf) (sym size))
]

drop_all : (c : ℕ) (b : List ℕ) → ltb c (length b) ≡ false → drop c b ≡ []
drop_all zero [] f = refl
drop_all (suc c) [] f = refl
drop_all zero (x ∷ b) f = absurd (ground arith)
drop_all (suc c) (x ∷ b) f = drop_all c b (ground arith)

-- What `handle_conn` sends when the ClientHello is split.
opening_split :
    (setup : Setup) (buf hs frag : List ℕ) (consumed : ℕ)
    → setup.split_ch ≡ true
    → build_fragmented setup.multi_parts (shifted setup.shift_sni hs) frag_size ≡ ok frag
    → consumed ≤ length buf
    → (first leftover : List (List ℕ)) × (opening setup buf hs consumed ≡ some (first, leftover))
      × (joined (first ++ leftover) ≡ frag ++ drop consumed buf)
unfolding opening joined
opening_split setup buf hs frag consumed on e h =
    let fs : ℕ = segment setup.first_seg (shifted setup.shift_sni hs) (length frag) in
    elim (Bool-cases (ltb consumed (length buf))) [
      | inl more ↦ (
        take fs frag ∷ drop fs frag ∷ [],
        drop consumed (shifted_buf setup.shift_sni buf hs consumed) ∷ [],
        rw (on, e, more) refl,
        rw
            (
              append-nil (drop consumed (shifted_buf setup.shift_sni buf hs consumed)),
              ← append_assoc (take fs frag) (drop fs frag)
                  (drop consumed (shifted_buf setup.shift_sni buf hs consumed)),
              take-append-drop fs frag,
              drop-shifted_buf setup.shift_sni buf hs consumed h,
            )
            refl,
      )
      | inr full ↦ (
        take fs frag ∷ drop fs frag ∷ [],
        [],
        rw (on, e, full) refl,
        rw
            (
              append-nil (drop fs frag),
              take-append-drop fs frag,
              drop_all consumed buf full,
              append-nil frag,
            )
            refl,
      )
    ]

module _ (setup : Setup) (accepts : ℕ → Bool) (accepting : (i : ℕ) → accepts i ≡ true) where
  -- With an upstream and an opening, all of the opening is sent and `splice_loop` follows.
  connected_opened :
      (buf hs : List ℕ) (consumed a : ℕ) (first leftover : List (List ℕ)) (found : Option ℕ × Relay)
      → found.0 ≡ some a
      → opening setup buf hs consumed ≡ some (first, leftover)
      → (let begun = connected setup accepts buf hs consumed found in
          (begun.writes ≡ first ++ leftover) × (begun.splices ≡ true))
  unfolding connected deliver
  connected_opened buf hs consumed a first leftover (none, relay) e opens = absurd (cc e)
  connected_opened buf hs consumed a first leftover (some b, relay) e opens =
      let all1 = transmit-all accepts 0 first accepting in
      let all2 = transmit-all accepts (length first) leftover accepting in
      rw (opens, all1, all2, ==_self (length first)) (refl, refl)

  sent-conversation :
      (begun : Begun) (polls : List Poll) (ws : List (List ℕ)) (frag tail : List ℕ)
      → begun.writes ≡ ws
      → begun.splices ≡ true
      → joined ws ≡ frag ++ tail
      → sent true (conversation setup accepts begun polls)
        ≡ frag ++ (tail ++ sent true (splice_loop setup.splicing accepts (length ws) polls))
  unfolding conversation
  sent-conversation begun polls ws frag tail writes goes_on joins =
      let later : List Write = splice_loop setup.splicing accepts (length ws) polls in
      rw (writes, goes_on)
        (sent-append true (label true ws) later
          ∙ ap (λ o. o ++ sent true later) (sent-label true ws ∙ joins)
          ∙ append_assoc frag tail (sent true later))

-- What the server gets behind the ClientHello: first what was read behind it, and then what the
-- loop makes of what the client sends later.
pub record Follows (cuts_data : Bool) (early : List ℕ) (later : List (List ℕ)) (got : List ℕ)
    : Type 0 where
  pub rest : List ℕ
  pub first_early : got ≡ early ++ rest
  pub then_later : ReframedInTurn cuts_data later rest

server_reads :
    (cuts_data : Bool) (got frag tail sent_hs : List ℕ) (inp : List (List ℕ)) (up : List ℕ)
    → got ≡ frag ++ (tail ++ up)
    → extract_client_hello frag 65536 ≡ whole sent_hs (length frag)
    → ReframedInTurn cuts_data inp up
    → (extract_client_hello got 65536 ≡ whole sent_hs (length frag))
      × Follows cuts_data tail inp (drop (length frag) got)
server_reads cuts_data got frag tail sent_hs inp up e x r =
    rw (e, drop-append frag (tail ++ up))
      (
        extract_client_hello-append frag (tail ++ up) 65536 sent_hs (length frag) x,
        record { rest = up; first_early = refl; then_later = r },
      )

module _ (setup : Setup) (w : World) (relay : Relay) (accepts : ℕ → Bool)
    (accepting : (i : ℕ) → accepts i ≡ true) (orig : Option ℕ) (buf hs : List ℕ) (consumed : ℕ)
    (a : ℕ) where
  -- Unless a send fails, with the ClientHello split, a positive `g_data_chunk` and
  -- `g_split_size`, and an upstream found: if `handle_conn` reads a ClientHello of 46 to 65535
  -- bytes with as many bytes behind the first cut as parts are to come, then all that the server
  -- gets begins with records that `extract_client_hello` joins to the same ClientHello, but for the
  -- shifted letter, and behind them comes what was read behind the ClientHello and then what
  -- `splice_loop` makes of what the client sent later; and what `handle_conn` read is the beginning
  -- of what the client sent.
  pub conversation-extract :
      (sizes stream rest : List ℕ) (polls : List Poll)
      → setup.split_ch ≡ true
      → 0 < setup.splicing.data_chunk
      → 0 < setup.splicing.split_size
      → All PollBytes polls
      → read_hello sizes stream [] ≡ (hello buf hs consumed, rest)
      → (connect_upstream w relay (known_orig orig) (name_of (shifted setup.shift_sni hs))).0
        ≡ some a
      → 46 ≤ length hs
      → length hs < 65536
      → (let sent_hs = shifted setup.shift_sni hs in
          let parts = part_count setup.multi_parts (length sent_hs) in
          first_cut sent_hs parts + (parts - 1) ≤ length sent_hs)
      → (let got = sent true (
            conversation setup accepts
              (handle_conn setup w relay accepts orig (hello buf hs consumed))
              polls) in
          (buf ++ rest ≡ stream)
          × (n : ℕ) × (extract_client_hello got 65536 ≡ whole (shifted setup.shift_sni hs) n)
          × Follows setup.splicing.split_data
              (drop consumed buf)
              (received true polls)
              (drop n got))
  unfolding handle_conn
  conversation-extract sizes stream rest polls split pos least bytes e found long short room =
      let f = read_hello-Found sizes stream [] buf hs consumed rest e in
      let (announces, inside) =
        extract_client_hello-announced buf hs_size hs consumed f.whole_hello in
      let sent_hs : List ℕ = shifted setup.shift_sni hs in
      let alike = shifted-Alike setup.shift_sni hs in
      let (frag, e1, l, x) =
        extract-build_fragmented setup.multi_parts sent_hs
          (alike.same_header 65536 ∙ announces ∙ ap ok (sym alike.same_length))
          (omega (arith, alike.same_length)) (omega (arith, alike.same_length)) room in
      let (first, leftover, opens, joins) =
        opening_split setup buf hs frag consumed split e1 inside in
      let begun : Begun = handle_conn setup w relay accepts orig (hello buf hs consumed) in
      let up : List ℕ =
        sent true (splice_loop setup.splicing accepts (length (first ++ leftover)) polls) in
      let (writes, goes_on) =
        connected_opened setup accepts accepting buf hs consumed a first leftover _ found opens in
      let (y, z) =
        server_reads setup.splicing.split_data (sent true (conversation setup accepts begun polls))
          frag (drop consumed buf) sent_hs (received true polls) up
          (sent-conversation setup accepts accepting begun polls (first ++ leftover) frag
            (drop consumed buf) writes goes_on joins)
          x
          (splice_loop-Reframed setup.splicing accepts accepting pos least true
            (length (first ++ leftover)) polls bytes) in
      (f.all_read, length frag, y, z)

drop-drop : (m n : ℕ) (xs : List ℕ) → drop (m + n) xs ≡ drop n (drop m xs)
drop-drop m n [] = nothing (m + n) ∙ sym (ap (drop n) (nothing m) ∙ nothing n)
  where
    nothing : (k : ℕ) → drop {A = ℕ} k [] ≡ []
    nothing zero = refl
    nothing (suc k) = refl
drop-drop zero n (x ∷ xs) = let same : 0 + n ≡ n = omega arith in rw same refl
drop-drop (suc m) n (x ∷ xs) =
    let same : suc m + n ≡ suc (m + n) = omega arith in rw same (drop-drop m n xs)

shifted_buf_off : (buf hs : List ℕ) (consumed : ℕ) → shifted_buf false buf hs consumed ≡ buf
unfolding shifted_buf shifted
shifted_buf_off buf hs consumed = elim (Bool-cases (consumed == length hs + 5)) [
  | inr e ↦ rw e refl
  | inl e ↦
      rw
        (
          e,
          drop-drop 5 (length hs) buf,
          take-append-drop (length hs) (drop 5 buf),
          take-append-drop 5 buf,
        )
        refl
]

-- Unless a send fails, with neither a split ClientHello nor a shifted letter: what the server gets
-- begins with the records of the ClientHello, and right behind them comes what the client sent
-- later; what was read behind the ClientHello is never sent.
pub conversation_unsplit :
    (setup : Setup) (w : World) (relay : Relay) (accepts : ℕ → Bool) (orig : Option ℕ)
    (buf hs : List ℕ) (consumed : ℕ) (a : ℕ) (polls : List Poll)
    → ((i : ℕ) → accepts i ≡ true)
    → setup.split_ch ≡ false
    → setup.shift_sni ≡ false
    → (connect_upstream w relay (known_orig orig) (name_of hs)).0 ≡ some a
    → sent true (
        conversation setup accepts
          (handle_conn setup w relay accepts orig (hello buf hs consumed))
          polls)
      ≡ take consumed buf ++ sent true (splice_loop setup.splicing accepts 1 polls)
unfolding handle_conn shifted shifted_buf
conversation_unsplit setup w relay accepts orig buf hs consumed a polls accepting split shift
      found =
    let named : (connect_upstream w relay (known_orig orig)
          (name_of (shifted setup.shift_sni hs))).0
        ≡ some a =
      rw shift found in
    let opens : opening setup buf hs consumed
        ≡ some (take consumed (shifted_buf setup.shift_sni buf hs consumed) ∷ [], []) =
      unfold opening in rw split refl in
    let (writes, goes_on) =
      connected_opened setup accepts accepting buf hs consumed a _ [] _ named opens in
    let plain : shifted_buf setup.shift_sni buf hs consumed ≡ buf =
      rw shift (shifted_buf_off buf hs consumed) in
    sent-conversation setup accepts accepting
      (handle_conn setup w relay accepts orig (hello buf hs consumed)) polls
      (take consumed (shifted_buf setup.shift_sni buf hs consumed) ∷ []) (take consumed buf) []
      writes goes_on (unfold joined in rw plain refl)
