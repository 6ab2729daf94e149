-- ===== src/Sni/Splice/Relayed.antt =====
-- What the relay's loop sends to each side, over all rounds of `splice_loop` in
-- common/sni_relay.c.
use raise_my_freedom.Common.{
  ℕ, ◌+◌, ◌<◌, ◌≡◌, ◌≢◌, refl, sym, arith, ne→==, Bool, true, false, List, [], ◌∷◌, ◌++◌,
  if◌then◌else◌, length, All, append_assoc, append-nil, ==_self,
}
use raise_my_freedom.Desync.Checksum.{IsByte}
use raise_my_freedom.Sni.Splice.{
  Settings, splice, joined, transmit, Recv, silent, gone, data_in, Poll, idle, failed, ready, Write,
  label, serve_side, splice_loop,
}
use raise_my_freedom.Sni.Splice.Reframed.{Reframed, splice-Reframed}

-- The bytes sent to one side.
unfoldable pub sent : Bool → List Write → List ℕ
sent true [] = []
sent false [] = []
sent true ((true, w) ∷ ws) = w ++ sent true ws
sent true ((false, w) ∷ ws) = sent true ws
sent false ((true, w) ∷ ws) = sent false ws
sent false ((false, w) ∷ ws) = w ++ sent false ws

abbrev bytes_of : Recv → List (List ℕ)
bytes_of silent = []
bytes_of gone = []
bytes_of (data_in bytes) = bytes ∷ []

abbrev stays : Recv → Bool
stays silent = true
stays gone = false
stays (data_in bytes) = true

-- What was received from one side until the loop ends, by the `recv` that brought it: from the
-- client for the server, or the other way round.
unfoldable pub received : Bool → List Poll → List (List ℕ)
received up [] = []
received up (idle ∷ polls) = []
received up (failed ∷ polls) = []
received true (ready c s ∷ polls) =
    if stays c
    then (if stays s then bytes_of c ++ received true polls else bytes_of c)
    else bytes_of c
received false (ready c s ∷ polls) =
    if stays c then (if stays s then bytes_of s ++ received false polls else bytes_of s) else []

abbrev RecvBytes : Recv → Type 0
RecvBytes silent = Unit
RecvBytes gone = Unit
RecvBytes (data_in bytes) = All IsByte bytes

abbrev pub PollBytes : Poll → Type 0
PollBytes idle = Unit
PollBytes failed = Unit
PollBytes (ready c s) = RecvBytes c × RecvBytes s

-- What is written for several `recv`, one behind the other, each `Reframed` for itself.
pub data ReframedInTurn (cuts_data : Bool) : List (List ℕ) → List ℕ → Type 0 where
  nothing : {o : List ℕ} → o ≡ [] → ReframedInTurn cuts_data [] o
  one_more :
      {o buf : List ℕ} {bufs : List (List ℕ)} (w zs : List ℕ)
      → o ≡ w ++ zs
      → Reframed cuts_data buf w
      → ReframedInTurn cuts_data bufs zs
      → ReframedInTurn cuts_data (buf ∷ bufs) o

InTurn-append :
    {cuts_data : Bool} {a c : List (List ℕ)} {b d : List ℕ}
    → ReframedInTurn cuts_data a b
    → ReframedInTurn cuts_data c d
    → ReframedInTurn cuts_data (a ++ c) (b ++ d)
InTurn-append (nothing e) h = rw e h
InTurn-append {d = d} (one_more w zs e r more) h =
    one_more w (zs ++ d) (rw (e, append_assoc w zs d) refl) r (InTurn-append more h)

pub transmit-all :
    (accepts : ℕ → Bool) (k : ℕ) (ws : List (List ℕ))
    → ((i : ℕ) → accepts i ≡ true)
    → transmit accepts k ws ≡ ws
unfolding transmit
transmit-all accepts k [] h = refl
transmit-all accepts k (w ∷ ws) h = rw (h k, transmit-all accepts (k + 1) ws h)

pub sent-append : (up : Bool) (xs ys : List Write) → sent up (xs ++ ys) ≡ sent up xs ++ sent up ys
unfolding sent
sent-append true [] ys = refl
sent-append false [] ys = refl
sent-append true ((true, w) ∷ xs) ys =
    rw (sent-append true xs ys, append_assoc w (sent true xs) (sent true ys))
sent-append true ((false, w) ∷ xs) ys = sent-append true xs ys
sent-append false ((true, w) ∷ xs) ys = sent-append false xs ys
sent-append false ((false, w) ∷ xs) ys =
    rw (sent-append false xs ys, append_assoc w (sent false xs) (sent false ys))

pub sent-label : (up : Bool) (ws : List (List ℕ)) → sent up (label up ws) ≡ joined ws
unfolding sent joined
sent-label true [] = refl
sent-label false [] = refl
sent-label true (w ∷ ws) = rw (sent-label true ws)
sent-label false (w ∷ ws) = rw (sent-label false ws)

pub sent-other :
    (ws : List (List ℕ)) → (sent true (label false ws) ≡ []) × (sent false (label true ws) ≡ [])
unfolding sent
sent-other [] = (refl, refl)
sent-other (w ∷ ws) = sent-other ws

-- A round's writes, by whether the loop goes on behind the client's turn and behind the server's.
up_round :
    {on : Bool} (b1 b2 : Bool) (i j : List (List ℕ)) (w1 w2 w3 : List Write)
    → ReframedInTurn on i (sent true w1)
    → sent true w2 ≡ []
    → ReframedInTurn on j (sent true w3)
    → ReframedInTurn on
        (if b1 then (if b2 then i ++ j else i) else i)
        (sent true (if b1 then (if b2 then w1 ++ (w2 ++ w3) else w1 ++ w2) else w1))
up_round false b2 i j w1 w2 w3 h1 h2 h3 = h1
up_round true true i j w1 w2 w3 h1 h2 h3 =
    rw (sent-append true w1 (w2 ++ w3), sent-append true w2 w3, h2) (InTurn-append h1 h3)
up_round true false i j w1 w2 w3 h1 h2 h3 =
    rw (sent-append true w1 w2, h2, append-nil (sent true w1)) h1

down_round :
    {on : Bool} (b1 b2 : Bool) (i j : List (List ℕ)) (w1 w2 w3 : List Write)
    → sent false w1 ≡ []
    → ReframedInTurn on i (sent false w2)
    → ReframedInTurn on j (sent false w3)
    → ReframedInTurn on
        (if b1 then (if b2 then i ++ j else i) else [])
        (sent false (if b1 then (if b2 then w1 ++ (w2 ++ w3) else w1 ++ w2) else w1))
down_round false b2 i j w1 w2 w3 h1 h2 h3 = nothing h1
down_round true true i j w1 w2 w3 h1 h2 h3 =
    rw (sent-append false w1 (w2 ++ w3), sent-append false w2 w3, h1) (InTurn-append h2 h3)
down_round true false i j w1 w2 w3 h1 h2 h3 = rw (sent-append false w1 w2, h1) h2

module _ (cfg : Settings) (accepts : ℕ → Bool) (accepting : (i : ℕ) → accepts i ≡ true)
    (pos : 0 < cfg.data_chunk) (least : 0 < cfg.split_size) where
  -- What one socket's turn adds to each side.
  record Turn (up : Bool) (r : Recv) (turn : List Write × Bool) : Type 0 where
    same : ReframedInTurn cfg.split_data (bytes_of r) (sent up turn.0)
    goes_on : turn.1 ≡ stays r

  serve_side-Turn :
      (k : ℕ) (up : Bool) (r : Recv) → RecvBytes r → Turn up r (serve_side cfg accepts k up r)
  unfolding serve_side sent
  serve_side-Turn k true silent h = record { same = nothing refl; goes_on = refl }
  serve_side-Turn k false silent h = record { same = nothing refl; goes_on = refl }
  serve_side-Turn k true gone h = record { same = nothing refl; goes_on = refl }
  serve_side-Turn k false gone h = record { same = nothing refl; goes_on = refl }
  serve_side-Turn k up (data_in bytes) h =
      let all = transmit-all accepts k (splice cfg bytes) accepting in
      let not_zero : cfg.data_chunk ≢ 0 = λ e. omega (arith, e) in
      record {
        same =
            rw (all, sent-label up (splice cfg bytes))
              (one_more (joined (splice cfg bytes)) []
                (sym (append-nil (joined (splice cfg bytes))))
                (splice-Reframed cfg bytes h pos least) (nothing refl));
        goes_on =
            rw (all, ==_self (length (splice cfg bytes)), ne→== cfg.data_chunk 0 not_zero) refl;
      }

  serve_side-other :
      (k : ℕ) (r : Recv)
      → (sent true (serve_side cfg accepts k false r).0 ≡ [])
        × (sent false (serve_side cfg accepts k true r).0 ≡ [])
  unfolding serve_side sent
  serve_side-other k silent = (refl, refl)
  serve_side-other k gone = (refl, refl)
  serve_side-other k (data_in bytes) = sent-other (transmit accepts k (splice cfg bytes))

  -- With a positive `g_data_chunk` and `g_split_size`, and as long as no send fails, each side gets
  -- what was received from the other until the loop ends, one `recv` behind the other, all of it and
  -- in order, but for this. Wherever the loop stands in the bytes of a `recv`, at their beginning or
  -- behind what it took, what reads as a whole record with something in it may be replaced by
  -- records of its kind whose payloads joined are that record's. With `g_split_data`, what reads
  -- there as a data record that goes on behind the bytes of this `recv` passes as it is to the last
  -- of them.
  pub splice_loop-Reframed :
      (up : Bool) (k : ℕ) (polls : List Poll)
      → All PollBytes polls
      → ReframedInTurn cfg.split_data
          (received up polls)
          (sent up (splice_loop cfg accepts k polls))
  unfolding splice_loop received sent
  splice_loop-Reframed true k [] h = nothing refl
  splice_loop-Reframed false k [] h = nothing refl
  splice_loop-Reframed true k (idle ∷ polls) h = nothing refl
  splice_loop-Reframed false k (idle ∷ polls) h = nothing refl
  splice_loop-Reframed true k (failed ∷ polls) h = nothing refl
  splice_loop-Reframed false k (failed ∷ polls) h = nothing refl
  splice_loop-Reframed true k (ready c s ∷ polls) ((hc, hs), h) =
      let first = serve_side cfg accepts k true c in
      let second = serve_side cfg accepts (k + length first.0) false s in
      let t1 = serve_side-Turn k true c hc in
      let t2 = serve_side-Turn (k + length first.0) false s hs in
      rw (t1.goes_on, t2.goes_on)
        (up_round (stays c) (stays s) (bytes_of c) (received true polls) first.0 second.0
          (splice_loop cfg accepts (k + length first.0 + length second.0) polls) t1.same
          (serve_side-other (k + length first.0) s).0
          (splice_loop-Reframed true (k + length first.0 + length second.0) polls h))
  splice_loop-Reframed false k (ready c s ∷ polls) ((hc, hs), h) =
      let first = serve_side cfg accepts k true c in
      let second = serve_side cfg accepts (k + length first.0) false s in
      let t1 = serve_side-Turn k true c hc in
      let t2 = serve_side-Turn (k + length first.0) false s hs in
      rw (t1.goes_on, t2.goes_on)
        (down_round (stays c) (stays s) (bytes_of s) (received false polls) first.0 second.0
          (splice_loop cfg accepts (k + length first.0 + length second.0) polls)
          (serve_side-other k c).1 t2.same
          (splice_loop-Reframed false (k + length first.0 + length second.0) polls h))

  -- Two rounds in which the client alone has something.
  pub splice_loop_two :
      (xs ys : List ℕ)
      → sent true
          (splice_loop cfg accepts 0 (ready (data_in xs) silent ∷ ready (data_in ys) silent ∷ []))
        ≡ joined (splice cfg xs) ++ joined (splice cfg ys)
  unfolding splice_loop serve_side sent
  splice_loop_two xs ys =
      let all1 = transmit-all accepts 0 (splice cfg xs) accepting in
      let n : ℕ = length (label true (splice cfg xs)) in
      let all2 = transmit-all accepts (0 + n + 0) (splice cfg ys) accepting in
      rw (
        all1,
        ==_self (length (splice cfg xs)),
        ne→== cfg.data_chunk 0 (λ e. omega (arith, e)),
        all2,
        ==_self (length (splice cfg ys)),
        sent-append true (label true (splice cfg xs)) (label true (splice cfg ys) ++ []),
        append-nil (label true (splice cfg ys)),
        sent-label true (splice cfg xs),
        sent-label true (splice cfg ys),
      )
