-- ===== src/Client/Runs.antt =====
-- Concrete runs of the upstream client, and the theorems at concrete inputs.
use mathlib.Core.Path.{subst}
use lynx_dns.Common.{
  ℕ, ◌≡◌, refl, inl, arith, true, false, none, some, [], ◌∷◌, ◌++◌, Bytes, codes, text_eq,
  has_prefix, trim_prefix, trim_suffix, trim_space, split, if◌then◌else◌, pos,
}
use lynx_dns.Common.Dict
use lynx_dns.Common.Dict.{lookup, insert}
use lynx_dns.Upstream.Breaker.{new_breaker, opened}
use lynx_dns.Upstream.Stats.{new_stats}
use lynx_dns.Client.Address.{udp, parse_upstream, extract_host}
use lynx_dns.Client.Base64.{dns_msg_to_base64_url, decode, decode-dns_msg_to_base64_url}
use lynx_dns.Client.Query.{
  UpstreamClient, DnsClient, network, replied, failed, Result, Net, no_reply, add_upstream, query,
  query_all, query_group, select, query_selected,
}
use lynx_dns.Client.Group.{IsGroupResult, query_group-IsGroupResult}
use lynx_dns.Client.Invariant.{
  AllSound, empty-AllSound, add_upstream-AllSound, query_group-AllSound,
}

-- A network on which `9.9.9.9` is silent and the others answer with the message, `1.1.1.1` first.
abbrev net : Net ℕ
net = record {
  split_host_port = λ addr. none;
  join_host_port = λ host port. host ++ (b':' ∷ port);
  exchange = λ proto addr m.
      if text_eq addr (codes "9.9.9.9:53")
      then (failed (network (codes "timeout") true), 90)
      else if text_eq addr (codes "1.1.1.1:53")
      then (replied m, 5)
      else (replied m, 8);
  pack = λ m. inl [];
  http_get = λ url. no_reply (network [] false) 0;
  unpack = λ b. inl 0;
}

abbrev upstream_at : Bytes → UpstreamClient
upstream_at addr = record {
  config = record { address = addr; protocol = udp; server_name = [] };
  stats = new_stats;
  breaker = new_breaker;
}

abbrev two : DnsClient
two =
    (codes "9.9.9.9", upstream_at (codes "9.9.9.9"))
    ∷ (codes "1.1.1.1", upstream_at (codes "1.1.1.1"))
    ∷ []

added : add_upstream net (codes "1.1.1.1") (add_upstream net (codes "9.9.9.9") []) ≡ two
unfolding add_upstream parse_upstream trim_space has_prefix text_eq Dict.insert
added = refl

host : extract_host (codes "https://dns.google:443/dns-query") ≡ codes "dns.google"
unfolding extract_host has_prefix split trim_suffix trim_prefix
host = refl

two-AllSound : AllSound two
two-AllSound =
    subst (λ c. AllSound c) added
      (add_upstream-AllSound net (codes "1.1.1.1") _
        (add_upstream-AllSound net (codes "9.9.9.9") [] empty-AllSound))

query_group-AllSound_example : AllSound (query net 0 100 7 (codes "9.9.9.9") two).0
unfolding query_group select query_selected
query_group-AllSound_example =
    query_group-AllSound net (λ xs. xs) 0 100 7 (codes "9.9.9.9" ∷ []) (pos 3) two
      (query net 0 100 7 (codes "9.9.9.9") two).0 (query net 0 100 7 (codes "9.9.9.9") two).1
      two-AllSound refl

query_group-IsGroupResult_example :
    (res : Result ℕ) × (query_group net
        (λ xs. xs)
        0
        100
        7
        (codes "9.9.9.9" ∷ codes "1.1.1.1" ∷ [])
        (pos 2)
        two
      ≡ some ((query_all net 0 100 7 (codes "9.9.9.9" ∷ codes "1.1.1.1" ∷ []) two).0, res))
    × IsGroupResult net
        (codes "9.9.9.9")
        res
        (query_all net 0 100 7 (codes "9.9.9.9" ∷ codes "1.1.1.1" ∷ []) two).1
query_group-IsGroupResult_example =
    query_group-IsGroupResult net (λ xs. xs) 0 100 7 (codes "9.9.9.9") (codes "1.1.1.1") [] 0 two

abbrev open_one : UpstreamClient
open_one = record (upstream_at (codes "a")) {
  breaker = record new_breaker { state = opened; opened_at = 10 };
}

decode-dns_msg_to_base64_url_example :
    decode (dns_msg_to_base64_url (0 ∷ 255 ∷ 16 ∷ 7 ∷ [])) ≡ 0 ∷ 255 ∷ 16 ∷ 7 ∷ []
decode-dns_msg_to_base64_url_example =
    decode-dns_msg_to_base64_url (0 ∷ 255 ∷ 16 ∷ 7 ∷ [])
      (omega arith, (omega arith, (omega arith, (omega arith, tt))))
