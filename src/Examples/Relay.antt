-- ===== src/Examples/Relay.antt =====
-- Runs of the relay's connections.
use raise_my_freedom.Common.{
  ℕ, ◌+◌, ◌-◌, ◌≤◌, ◌≡◌, refl, Bool, true, false, Option, none, some, List, [], ◌∷◌, ◌++◌, arith,
  length, drop, take, replicate, All,
}
use raise_my_freedom.SiteConfig.Text.{c_string}
use raise_my_freedom.Sni.Hello.{
  find_split, find_block, find_body, split_loop, cut_in_name, be24, skip8, skip16,
}
use raise_my_freedom.Sni.Name.{extract_name, name_loop}
use raise_my_freedom.Sni.Fragment.{
  announced, needed, whole, part_count, first_cut, join_loop, extract_client_hello,
}
use raise_my_freedom.Sni.Upstream.{
  World, Relay, relay_ip_allowed, is_candidate, add_unique, connect_upstream,
}
use raise_my_freedom.Sni.Splice.{Poll, silent, data_in, ready, splice_loop}
use raise_my_freedom.Sni.Splice.Reframed.{Record, records_bytes, payloads, AllKind}
use raise_my_freedom.Sni.Splice.Relayed.{
  ReframedInTurn, sent, received, PollBytes, splice_loop-Reframed,
}
use raise_my_freedom.Sni.Splice.Astray.{splice_loop-astray}
use raise_my_freedom.Sni.Connection.{
  Setup, hello, read_hello, shifted, known_orig, name_of, handle_conn, conversation,
}
use raise_my_freedom.Sni.Connection.EndToEnd.{Follows, conversation_unsplit}
use raise_my_freedom.Sni.Connection.Start.{
  settings_of, sni_relay_start, setup_of, sni_relay_start-conversation,
}

abbrev always : ℕ → Bool
always k = true

abbrev first_byte : List ℕ → Option ℕ
first_byte [] = none
first_byte (c ∷ s) = some c

abbrev world : World
world = record {
  parse = first_byte;
  print = λ a. a ∷ [];
  validates = λ ip. true;
  doh = λ name. none;
  udp = λ server name. none;
  lookup = λ name. [];
  connects = λ round a. true;
}

abbrev relay : Relay
relay = record { last_good = none; dns1 = []; dns2 = []; fallbacks = [] }

-- A ClientHello of 46 bytes with no extensions, and a byte behind it.
abbrev bare : List ℕ
bare = 1 ∷ 0 ∷ 0 ∷ 42 ∷ replicate 42 0

abbrev stream : List ℕ
stream = 0x16 ∷ 0x03 ∷ 0x01 ∷ 0 ∷ 46 ∷ (bare ++ 9 ∷ [])

abbrev later : List Poll
later = ready (data_in (7 ∷ 8 ∷ [])) silent ∷ []

later-PollBytes : All PollBytes later
later-PollBytes = (((omega arith, (omega arith, tt)), tt), tt)

reads : read_hello (60 ∷ []) stream [] ≡ (hello stream bare 51, [])
unfolding read_hello extract_client_hello join_loop announced needed be24
reads = refl

finds :
    (connect_upstream world relay (known_orig (some 7)) (name_of (shifted false bare))).0 ≡ some 7
unfolding connect_upstream add_unique relay_ip_allowed is_candidate known_orig name_of shifted
    extract_name name_loop c_string
finds = refl

finds_bare : (connect_upstream world relay (known_orig (some 7)) (name_of bare)).0 ≡ some 7
unfolding connect_upstream add_unique relay_ip_allowed is_candidate known_orig name_of extract_name
    name_loop c_string
finds_bare = refl

splits : (setup_of none).split_ch ≡ true
unfolding sni_relay_start settings_of
splits = refl

room :
    first_cut (shifted false bare) (part_count 2 46) + (part_count 2 46 - 1)
    ≤ length (shifted false bare)
unfolding first_cut part_count shifted find_split find_block find_body skip8 skip16 split_loop
    cut_in_name be24
room = omega arith

-- The server gets the ClientHello in records, the byte behind it, and what follows.
sni_relay_start-conversation_example :
    (let begun = handle_conn (setup_of none) world relay always (some 7) (hello stream bare 51) in
      let got = sent true (conversation (setup_of none) always begun later) in
      (stream ++ [] ≡ stream)
      × (n : ℕ) × (extract_client_hello got 65536
          ≡ whole (shifted (setup_of none).shift_sni bare) n)
      × Follows
          (setup_of none).splicing.split_data
          (drop 51 stream)
          (received true later)
          (drop n got))
unfolding sni_relay_start settings_of shifted
sni_relay_start-conversation_example =
    sni_relay_start-conversation none world relay always (some 7) (60 ∷ []) stream stream bare 51 []
      7 later (λ k. refl) splits later-PollBytes reads finds (omega arith) (omega arith) room

abbrev unsplit : Setup
unsplit = record {
  split_ch = false;
  shift_sni = false;
  first_seg = 20;
  multi_parts = 2;
  splicing = record { split_recs = true; split_data = true; split_size = 2; data_chunk = 4096 };
}

conversation_unsplit_example :
    sent true (
      conversation unsplit always
        (handle_conn unsplit world relay always (some 7) (hello stream bare 51))
        later)
    ≡ take 51 stream ++ sent true (splice_loop unsplit.splicing always 1 later)
conversation_unsplit_example =
    conversation_unsplit unsplit world relay always (some 7) stream bare 51 7 later (λ k. refl) refl
      refl finds_bare

-- A data record of 9 bytes, in two pieces of which the second looks like a record of 3.
abbrev piece1 : List ℕ
piece1 = 0x17 ∷ 3 ∷ 3 ∷ 0 ∷ 9 ∷ 1 ∷ []

abbrev piece2 : List ℕ
piece2 = 0x17 ∷ 3 ∷ 3 ∷ 0 ∷ 3 ∷ 1 ∷ 2 ∷ 3 ∷ []

-- A whole record that is cut, and behind it the first piece, which is not.
abbrev mixed : List Poll
mixed = ready (data_in (piece2 ++ piece1)) silent ∷ []

mixed-PollBytes : All PollBytes mixed
mixed-PollBytes = ground arith

splice_loop-Reframed_example :
    ReframedInTurn true
      (received true mixed)
      (sent true (splice_loop unsplit.splicing always 0 mixed))
splice_loop-Reframed_example =
    splice_loop-Reframed unsplit.splicing always (λ k. refl) (omega arith) (omega arith) true 0
      mixed mixed-PollBytes

splice_loop-astray_example :
    (parts : List Record) × (sent true (
        splice_loop unsplit.splicing always 0
          (ready (data_in piece1) silent ∷ ready (data_in piece2) silent ∷ []))
      ≡ piece1 ++ records_bytes parts)
    × AllKind 0x17 parts
    × (payloads parts ≡ drop 5 piece2)
    × (2 ≤ length parts)
splice_loop-astray_example =
    splice_loop-astray unsplit.splicing always piece1 piece2 (λ k. refl) refl (omega arith)
      (omega arith) refl refl refl refl
