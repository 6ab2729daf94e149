-- ===== src/Examples/Files.antt =====
-- Runs of the settings file, of the answers of name servers and of the constructor's check.
use raise_my_freedom.Common.{
  ℕ, ◌+◌, ◌/◌, ◌<◌, ◌≡◌, refl, true, none, some, List, [], ◌∷◌, arith, length, ok, Ensures,
}
use raise_my_freedom.SiteConfig.Config.{
  Config, ok as loaded_ok, defaults, load, load_lines, file_lines, load_line, load_text, load_entry,
  load_value, set_key, add_to,
}
use raise_my_freedom.SiteConfig.Text.{trim, split_at, c_string, str_eq}
use raise_my_freedom.SiteConfig.Save.{Disk, Files}
use raise_my_freedom.SiteConfig.Laws.{Fits, load-Fits}
use raise_my_freedom.Dns.Answer.{
  check_header, skip_question, udp_loop, parse_a_list, parse_a, parse_udp,
}
use raise_my_freedom.Dns.Answer.Lists.{IsAddressList, parse_a_list-IsAddressList, parse_udp-parse_a}
use raise_my_freedom.Sni.Hello.{find_split}
use raise_my_freedom.Constructor.Split.{build_ch, judge_cut, check_split}
use raise_my_freedom.Sni.Name.{extract_name}
use raise_my_freedom.Constructor.Resolved.{extract_name-build_ch}
use raise_my_freedom.Constructor.Agree.{check_split-find_split}
use raise_my_freedom.Constructor.Report.{Spec, Network, validate as check_spec}
use raise_my_freedom.Constructor.Verdict.{IsSound, validate-IsSound}

-- "domain = a.io" and a line end.
abbrev one_domain : List ℕ
one_domain =
    b'd' ∷ b'o' ∷ b'm' ∷ b'a' ∷ b'i' ∷ b'n' ∷ b' ' ∷ b'=' ∷ b' ' ∷ b'a' ∷ b'.' ∷ b'i' ∷ b'o' ∷ 10
    ∷ []

abbrev a_io : List ℕ
a_io = b'a' ∷ b'.' ∷ b'i' ∷ b'o' ∷ []

abbrev loaded : Config
loaded = record defaults { domains = a_io ∷ [] }

load-one_domain : load (some one_domain) ≡ loaded_ok loaded
unfolding load load_lines file_lines load_line load_text trim split_at c_string load_entry
    load_value set_key str_eq add_to defaults
load-one_domain = refl

load-Fits_example : Fits loaded
load-Fits_example = load-Fits (some one_domain) loaded load-one_domain

abbrev disk : Disk
disk = record { opens = true; closes = true; renames = true; block = 100; blocks = 0 }

abbrev no_files : Files
no_files q = none

-- A response with one A record for "a.io": 93.184.216.34.
abbrev response : List ℕ
response =
    0xAB ∷ 0xCD ∷ 0x81 ∷ 0x80 ∷ 0 ∷ 1 ∷ 0 ∷ 1 ∷ 0 ∷ 0 ∷ 0 ∷ 0 ∷ 1 ∷ b'a' ∷ 2 ∷ b'i' ∷ b'o' ∷ 0 ∷ 0
    ∷ 1 ∷ 0 ∷ 1 ∷ 0xC0 ∷ 12 ∷ 0 ∷ 1 ∷ 0 ∷ 1 ∷ 0 ∷ 0 ∷ 0 ∷ 60 ∷ 0 ∷ 4 ∷ 93 ∷ 184 ∷ 216 ∷ 34 ∷ []

parse_udp-response : parse_udp response ≡ ok (93 ∷ 184 ∷ 216 ∷ 34 ∷ [])
unfolding parse_udp check_header skip_question udp_loop
parse_udp-response = refl

parse_udp-parse_a_example : parse_udp response ≡ parse_a response
parse_udp-parse_a_example = parse_udp-parse_a response refl refl

parse_a_list-IsAddressList_example :
    Ensures (λ l. (0 < length l) × IsAddressList 8 l) (parse_a_list response 8)
parse_a_list-IsAddressList_example = parse_a_list-IsAddressList response 8

check_split-find_split_example :
    (hs : List ℕ) × (build_ch a_io 2048 ≡ ok hs)
    × (find_split hs ≡ ok (64 + length a_io / 2))
    × (check_split a_io 20 30 ≡ judge_cut (length hs) (64 + length a_io / 2) 20 30)
check_split-find_split_example = check_split-find_split a_io 20 30 (omega arith) (omega arith)

-- No port is taken, every name resolves, and every address answers.
abbrev open_network : Network
open_network = record {
  port_free = λ port. true;
  resolve = λ server name. some (93 ∷ []);
  tcp_answers = λ ip. true;
}

abbrev spec : Spec
spec = record {
  name = a_io;
  chain = b'A' ∷ [];
  domains = a_io ∷ [];
  dns_port = 1053;
  relay_port = 18443;
  mark = 20100;
  primary = [];
  fallback = [];
  mode = 1;
  frag_first_seg = 20;
  frag_delay_ms = 30;
  mt_port = 0;
}

validate-IsSound_example : IsSound (check_spec open_network spec)
validate-IsSound_example = validate-IsSound open_network spec

extract_name-build_ch_example :
    (hs : List ℕ) × (build_ch a_io 2048 ≡ ok hs) × (extract_name hs 256 ≡ ok a_io)
extract_name-build_ch_example = extract_name-build_ch a_io (omega arith) (omega arith)
