-- ===== src/Client/Address.antt =====
-- ParseUpstream, extractHost and ensurePort of internal/client/client.go. The functions of package
-- net are parameters: `SplitHostPort` gives a host and a port, or fails.
use lynx_dns.Common.{
  Option, none, some, [], Bytes, codes, has_prefix, trim_prefix, trim_suffix, trim_space, split,
  get_or, if◌then◌else◌,
}

pub data Protocol : Type 0 where
  udp : Protocol
  tcp : Protocol
  dot : Protocol
  doh : Protocol

-- The timeout of a configuration is always 5 seconds, and nothing reads it.
pub record UpstreamConfig : Type 0 where
  pub address : Bytes
  pub protocol : Protocol
  pub server_name : Bytes

unfoldable pub extract_host : Bytes → Bytes
extract_host url =
    let rest = trim_prefix (trim_prefix url (codes "https://")) (codes "http://") in
    let host = get_or (split b'/' rest) 0 [] in
    trim_suffix (trim_suffix host (codes ":443")) (codes ":80")

module _ (split_host_port : Bytes → Option (Bytes × Bytes)) where
  -- The host of `net.SplitHostPort`, which is empty when it fails.
  unfoldable pub host_of : Bytes → Bytes
  host_of addr = elim (split_host_port addr) [ none ↦ [] | some hp ↦ hp.0 ]

  unfoldable pub parse_upstream : Bytes → UpstreamConfig
  unfolding extract_host host_of
  parse_upstream text =
      let addr = trim_space text in
      if has_prefix addr (codes "https://")
      then record { address = addr; protocol = doh; server_name = extract_host addr }
      else if has_prefix addr (codes "tls://")
      then record {
        address = trim_prefix addr (codes "tls://");
        protocol = dot;
        server_name = host_of (trim_prefix addr (codes "tls://"));
      }
      else if has_prefix addr (codes "tcp://")
      then record { address = trim_prefix addr (codes "tcp://"); protocol = tcp; server_name = [] }
      else if has_prefix addr (codes "udp://")
      then record { address = trim_prefix addr (codes "udp://"); protocol = udp; server_name = [] }
      else record { address = addr; protocol = udp; server_name = [] }

  unfoldable pub ensure_port : (Bytes → Bytes → Bytes) → Bytes → Bytes → Bytes
  ensure_port join_host_port addr default_port = elim (split_host_port addr) [
    | none ↦ join_host_port addr default_port
    | some hp ↦ addr
  ]
