-- ===== src/Sni/Connection.antt =====
-- `handle_conn` of common/sni_relay.c: it reads the ClientHello, connects, sends it in pieces and
-- hands both sockets to `splice_loop`.
pub mod EndToEnd
pub mod Start
use raise_my_freedom.Common.{
  ℕ, zero, suc, ◌+◌, ◌-◌, ◌/◌, Bool, true, false, not, ◌&&◌, Option, none, some, List, [], ◌∷◌,
  ◌++◌, ltb, leb, ◌==◌, if◌then◌else◌, length, take, drop, Scan, fault, stop, ok, min,
}
use raise_my_freedom.SiteConfig.Text.{c_string}
use raise_my_freedom.Sni.Hello.{find_split, shift_case}
use raise_my_freedom.Sni.Name.{extract_name}
use raise_my_freedom.Sni.Fragment.{bad, need_more, whole, build_fragmented, extract_client_hello}
use raise_my_freedom.Sni.Upstream.{World, Relay, connect_upstream}
use raise_my_freedom.Sni.Splice.{Settings, transmit, Poll, Write, label, splice_loop}

-- `MAX_CH_BUF`, `sizeof hs`, `sizeof frag` and `sizeof sni`
abbrev max_ch_buf : ℕ
max_ch_buf = 1048576

abbrev pub hs_size : ℕ
hs_size = 65536

abbrev pub frag_size : ℕ
frag_size = 131072

abbrev sni_size : ℕ
sni_size = 256

-- `g_split_ch`, `g_shift_sni`, `g_first_seg`, `g_multi_parts` and what `splice_loop` reads.
pub record Setup : Type 0 where
  pub split_ch : Bool
  pub shift_sni : Bool
  pub first_seg : ℕ
  pub multi_parts : ℕ
  pub splicing : Settings

-- What the loop that reads leaves: `buf`, and for a ClientHello `hs` and `consumed`.
pub data Read : Type 0 where
  given_up : Read
  not_hello : List ℕ → Read
  hello : List ℕ → List ℕ → ℕ → Read

-- The loop that reads, by the sizes that `recv` has ready in turn; with none left, `recv` ends or
-- fails. `stream` is what the client sends, and what is left of it goes on to `splice_loop`.
unfoldable pub read_hello : List ℕ → List ℕ → List ℕ → Read × List ℕ
read_hello [] stream buf =
    if leb max_ch_buf (length buf)
    then (given_up, stream)
    else elim (extract_client_hello buf hs_size) [
      | bad ↦ (not_hello buf, stream)
      | need_more ↦ (given_up, stream)
      | whole hs consumed ↦ (hello buf hs consumed, stream)
    ]
read_hello (size ∷ sizes) stream buf =
    let n = min size (min (max_ch_buf - length buf) (length stream)) in
    let rest = read_hello sizes (drop n stream) (buf ++ take n stream) in
    if leb max_ch_buf (length buf)
    then (given_up, stream)
    else elim (extract_client_hello buf hs_size) [
      | bad ↦ (not_hello buf, stream)
      | need_more ↦ if n == 0 then (given_up, stream) else rest
      | whole hs consumed ↦ (hello buf hs consumed, stream)
    ]

-- `sni_shift_case` on a handshake, where it finds what to shift.
unfoldable pub shifted : Bool → List ℕ → List ℕ
shifted on hs = if on then elim (shift_case hs) [ ok hs' ↦ hs' | _ ↦ hs ] else hs

-- The same on the buffer, where the handshake lies in one piece.
unfoldable pub shifted_buf : Bool → List ℕ → List ℕ → ℕ → List ℕ
unfolding shifted
shifted_buf on buf hs consumed =
    if consumed == length hs + 5
    then take 5 buf ++ (shifted on (take (length hs) (drop 5 buf)) ++ drop (5 + length hs) buf)
    else buf

-- `fs`: where the fragments are cut into two segments.
unfoldable pub segment : ℕ → List ℕ → ℕ → ℕ
segment first_seg hs flen =
    let wanted = if ltb 0 first_seg then first_seg else 20 in
    let r1_len : ℕ = elim (find_split hs) [
      | ok cut ↦ (if ltb (5 + cut) 6 then flen / 2 else 5 + cut)
      | _ ↦ flen / 2
    ] in
    let fs = if leb r1_len wanted then r1_len - 1 else wanted in if ltb fs 1 then 1 else fs

-- The destination that the kernel remembers; the loopback address is none.
unfoldable pub known_orig : Option ℕ → Option ℕ
known_orig none = none
known_orig (some a) = if a == 2130706433 then none else some a

-- The name that `connect_upstream` gets, up to a NUL; an empty one counts as none there.
unfoldable pub name_of : List ℕ → Option (List ℕ)
unfolding extract_name c_string
name_of hs = elim (extract_name hs sni_size) [
  | ok name ↦ elim (c_string name) [ c ∷ text ↦ some (c ∷ text) | [] ↦ none ]
  | _ ↦ none
]

-- What is sent for the ClientHello, and then what was read behind it.
unfoldable pub opening : Setup → List ℕ → List ℕ → ℕ → Option (List (List ℕ) × List (List ℕ))
unfolding segment shifted_buf
opening setup buf hs consumed =
    let sent_buf = shifted_buf setup.shift_sni buf hs consumed in
    let sent_hs = shifted setup.shift_sni hs in
    if setup.split_ch
    then elim (build_fragmented setup.multi_parts sent_hs frag_size) [
      | ok frag ↦
          let fs = segment setup.first_seg sent_hs (length frag) in
          some (
            take fs frag ∷ drop fs frag ∷ [],
            if ltb consumed (length buf) then drop consumed sent_buf ∷ [] else [],
          )
      | _ ↦ none
    ]
    else some (take consumed sent_buf ∷ [], [])

-- How a connection begins: the upstream, what is sent to it, whether `splice_loop` follows, and
-- what it has still to read.
pub record Begun : Type 0 where
  pub upstream : Option ℕ
  pub writes : List (List ℕ)
  pub splices : Bool
  pub relay : Relay

-- The ClientHello's writes must all succeed; whether the leftover's does is not looked at.
unfoldable pub deliver : (ℕ → Bool) → ℕ → Relay → Option (List (List ℕ) × List (List ℕ)) → Begun
unfolding transmit
deliver accepts a relay none = record {
  upstream = some a;
  writes = [];
  splices = false;
  relay = relay;
}
deliver accepts a relay (some (first, leftover)) =
    let made = transmit accepts 0 first in
    let after = transmit accepts (length first) leftover in
    let all = length made == length first in
    record {
      upstream = some a;
      writes = if all then made ++ after else made;
      splices = all;
      relay = relay;
    }

-- What follows `connect_upstream`.
unfoldable pub connected : Setup → (ℕ → Bool) → List ℕ → List ℕ → ℕ → Option ℕ × Relay → Begun
unfolding opening deliver
connected setup accepts buf hs consumed (none, relay) = record {
  upstream = none;
  writes = [];
  splices = false;
  relay = relay;
}
connected setup accepts buf hs consumed (some a, relay) =
    deliver accepts a relay (opening setup buf hs consumed)

-- `handle_conn` up to `splice_loop`.
unfoldable pub handle_conn : Setup → World → Relay → (ℕ → Bool) → Option ℕ → Read → Begun
unfolding connected known_orig name_of
handle_conn setup w relay accepts orig given_up = record {
  upstream = none;
  writes = [];
  splices = false;
  relay = relay;
}
handle_conn setup w relay accepts orig (not_hello buf) = elim (known_orig orig) [
  | none ↦ record { upstream = none; writes = []; splices = false; relay = relay }
  | some a ↦
      if w.connects 0 a
      then record {
        upstream = some a;
        writes = transmit accepts 0 (buf ∷ []);
        splices = true;
        relay = relay;
      }
      else record { upstream = none; writes = []; splices = false; relay = relay }
]
handle_conn setup w relay accepts orig (hello buf hs consumed) =
    connected setup accepts buf hs consumed
      (connect_upstream w relay (known_orig orig) (name_of (shifted setup.shift_sni hs)))

-- All that a connection sends, to the server and back.
unfoldable pub conversation : Setup → (ℕ → Bool) → Begun → List Poll → List Write
unfolding splice_loop
conversation setup accepts begun polls =
    label true begun.writes
    ++ (if begun.splices
        then splice_loop setup.splicing accepts (length begun.writes) polls
        else [])
