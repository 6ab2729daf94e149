-- ===== src/Lib.antt =====
-- Raise-My-Freedom: models of the parts of the program that read and rewrite bytes, and the
-- theorems that make them correct.
--
-- The program takes a site's TLS traffic through a local relay, which splits the ClientHello so
-- that a filter does not see the site's name in one piece; beside it a packet layer injects a
-- fake ClientHello with a short life. Modules resolve names through their own resolvers, keep
-- their settings in a file, and are checked by a constructor before they run.
--
-- Files:
--   Common        Boolean tests, lists, and `Scan`, reads of a buffer that may leave it (`fault`),
--                 give up (`stop`) or answer (`ok`); `Ensures` says that no read faults.
--   Sni           src/common/sni_relay.c: Hello has `sni_find_split` (`find_split`) and
--                 `sni_shift_case` (`shift_case`), Fragment has `sni_build_fragmented_ch`
--                 (`build_fragmented`) and `extract_client_hello`, Upstream has
--                 `connect_upstream` and the candidates it gathers, Name has
--                 `sni_extract_name`, Splice has `splice_loop`, Connection has `handle_conn` and,
--                 in Connection/Start, the settings of `sni_relay_start`.
--   Desync        src/desync/desync.c: Checksum has `csum16`, `ip_csum`, `sum16` and `tcp_csum`,
--                 Hello has `find_sni` and `build_fake_hello`, Peers has `note_peer` and
--                 `desync_top_peers` (`top_peers`), Packet has `handle` and a round of `loop`
--                 (`handle_frame`), Service has `desync_start` (`start`) and `desync_stop`
--                 (`halt`).
--   SiteConfig    src/common/site_config.c: Text has the C string functions it uses, Config has
--                 `site_config_load` (`load`), Validate `site_config_validate` (`validate`), Save
--                 `site_config_save` (`save`).
--   Dns           src/dns/doh_resolve.c and src/dns/dns_resolve.c: Query has `build_query` and
--                 `b64url_encode`, Answer has `parse_a_list`, `parse_a` and the reader that
--                 `dns_resolve_udp` ends with (`parse_udp`), Transport the resolvers around them,
--                 Ranges the tests for an operator's networks.
--   Netfilter     src/netfilter/netfilter_linux.c: Pattern has `nf_wire_hex_pattern`, Registry the
--                 table of chains with its file (`registry_add`, `registry_load`,
--                 `registry_remove`), Rules the commands that the functions run.
--   Plain         src/common/plain_relay.c: Pump has `pump`, Children the count of connections in
--                 `relay_loop`.
--   Bypass        src/common/site_bypass.c: Pins has `normalize_domain`, `domain_matches` and
--                 `lookup_pin`, Reply the answers of `dns_child`, PinFile the file of pins, Choose
--                 the choice of addresses in `site_bypass_start` and `site_doctor`, Start
--                 `site_bypass_start`, `site_bypass_stop` and `site_bypass_active`.
--   Proxy         src/proxy/proxy.c: Hosts has `load_hosts` and `find_host`, Answer has `get_qname`,
--                 `skip_qname`, `build_a_resp`, `build_a_resp_multi` and what `run_proxy` sends
--                 back for one query (`proxy_reply`).
--   Claims        src/common/claims.c: `claims_store`, `claims_taken_by_other` and
--                 `claims_release` over the files of the directory of claims.
--   Constructor   src/constructor/validate.c: Json has its JSON readers, Split `build_ch` and
--                 `check_split`, Report the steps of `main` (`validate`).
--   Examples      Runs on concrete inputs.
--
-- How the parts meet: the constructor's `check_split` is compared with the relay's `find_split`,
-- the relay's readers are run on the fakes of the packet layer and on the constructor's message,
-- and both DNS readers share the walk of names; a connection of the relay is followed from what the
-- client sends over the splitter and the forwarding loop to what the server reads; the answers of
-- the bypass are read by the DoH reader, and the pattern of a name in a rule is compared with the
-- name in a query. A buffer is a list of bytes and its length is the length of the list; state that C
-- keeps in globals (counters, the table of peers, the report) is passed on. Counters of 64 bits
-- and checksums wrap. Settings that are int or unsigned are numbers below 2 ^ 32.
--
-- Fuel: loops that walk a buffer take its length as fuel, or one more, since every round moves on
-- by one byte at least; out of fuel is a `fault`, so a theorem that nothing faults is also one
-- that the loop ends.
--
-- Not modelled: sockets, threads, processes, timing and what the commands do; the relay's accept
-- loop; the plain relay's reading of a ClientHello; the refreshing thread of the bypass and the
-- order of its rules' commands; the proxy's options and count of children; the web interface; the
-- modules of the sites, which configure these parts.
-- What the network answers is a parameter: the sender's success in `handle`, `World` of the
-- relay's upstream, `System` of the layer's start, `fetch` and `ask` of the resolvers, the record
-- `Network` of the constructor's check, that of the proxy, the record `Disk` of the calls that
-- save a file and of how its stream is written, `World` and `System` of the bypass, and for a
-- connection what `recv` has ready in turn and which sends succeed.
pub mod Common
pub mod Sni
pub mod Desync
pub mod SiteConfig
pub mod Dns
pub mod Netfilter
pub mod Constructor
pub mod Examples
pub mod Plain
pub mod Proxy
pub mod Claims
pub mod Bypass
