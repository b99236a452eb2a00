-- ===== src/Server.antt =====
-- internal/server/server.go: the listeners and the reply that they write, and the calls that
-- cmd/lynxdns/main.go makes of them. A listener of the dns library is what it is made with and whether
-- Shutdown was called; what it does on its socket is left out.
use lynx_dns.Common.{
  ℕ, suc, ◌%◌, ◌^◌, ◌==◌, Bool, true, false, ◌&&◌, Option, none, some, List, [], ◌∷◌, ◌++◌, Bytes,
  codes, leb, ltb, if◌then◌else◌, ℤ, pos, negsuc,
}
use lynx_dns.Rules.Ident.{decimal}
pub mod Limit
pub mod Cycle
mod Runs

-- dns.MinMsgSize of the dns library, and MaxEDNSSize of internal/client/client.go.
abbrev pub min_msg_size : ℕ
min_msg_size = 512

abbrev pub max_edns_size : ℕ
max_edns_size = 4096

-- The network of the client's address: whether it is a *net.TCPAddr.
pub data Proto : Type 0 where
  udp : Proto
  tcp : Proto

-- What the server uses of a message of the dns library: its length, its EDNS0 record's size, a
-- uint16, if it has the record, and Truncate.
pub record Sizes : Type 1 where
  pub Msg : Type 0
  pub len : Msg → ℕ
  pub udp_size : Msg → Option ℕ
  pub truncate : ℕ → Msg → Msg

-- The size that the request's EDNS0 record asks for, if it is not too small.
abbrev pub offered_size : Option ℕ → ℕ
offered_size none = min_msg_size
offered_size (some n) = if leb min_msg_size n then n else min_msg_size

module _ (d : Sizes) where
  -- The largest reply to a request over UDP.
  unfoldable pub max_reply_size : d.Msg → ℕ
  max_reply_size r =
      let size = offered_size (d.udp_size r) in
      if ltb max_edns_size size then max_edns_size else size

  -- The reply over UDP; its length is converted to a uint16 before it is compared.
  unfoldable pub fit : d.Msg → d.Msg → d.Msg
  unfolding max_reply_size
  fit r resp =
      if ltb (max_reply_size r) (d.len resp % 2 ^ 16)
      then d.truncate (max_reply_size r) resp
      else resp

  -- The function that the listeners call: what it writes, if anything.
  unfoldable pub serve :
      {Addr : Type 0} → (d.Msg → Proto → Addr → Option d.Msg) → d.Msg → Proto → Addr → Option d.Msg
  unfolding fit
  serve handler r proto remote = elim (handler r proto remote) [
    | none ↦ none
    | some resp ↦ elim proto [ udp ↦ some (fit r resp) | tcp ↦ some resp ]
  ]

-- A dns.Server.
pub record Listener : Type 0 where
  pub listen_addr : Bytes
  pub net : Proto
  pub shut : Bool

pub record DnsServer : Type 0 where
  pub udp_listener : Option Listener
  pub tcp_listener : Option Listener
  pub addr : Bytes
  pub port : ℤ
  pub running : Bool
  -- whether the channel stopCh is closed
  pub stop_closed : Bool

unfoldable pub new_server : Bytes → ℤ → DnsServer
new_server addr port = record {
  udp_listener = none;
  tcp_listener = none;
  addr = addr;
  port = port;
  running = false;
  stop_closed = false;
}

unfoldable pub dns_port : ℤ → Bytes
unfolding decimal
dns_port (pos n) = if n == 0 then codes "5334" else decimal n
dns_port (negsuc n) = b'-' ∷ decimal (suc n)

module _ (join_host_port : Bytes → Bytes → Bytes) where
  unfoldable pub listen_address : DnsServer → Bytes
  unfolding dns_port
  listen_address s = join_host_port s.addr (dns_port s.port)

  abbrev pub listener : Proto → DnsServer → Option Listener
  listener net s = some record { listen_addr = listen_address s; net = net; shut = false }

  unfoldable pub start : DnsServer → DnsServer
  unfolding listen_address
  start s =
      if s.running
      then s
      else record s { udp_listener = listener udp s; tcp_listener = listener tcp s; running = true }

pub data Stopped : Type 0 where
  stopped : Stopped
  panicked : Stopped

abbrev pub shutdown : Option Listener → Option Listener
shutdown none = none
shutdown (some l) = some (record l { shut = true })

-- Closing the channel a second time panics, after the rest is done.
unfoldable pub stop : DnsServer → DnsServer × Stopped
stop s =
    let down = record s {
      udp_listener = shutdown s.udp_listener;
      tcp_listener = shutdown s.tcp_listener;
      running = false;
    } in
    if s.running
    then if s.stop_closed then (down, panicked) else (record down { stop_closed = true }, stopped)
    else (s, stopped)

pub data Call : Type 0 where
  call_start : Call
  call_stop : Call

-- The calls that a start of the program, the restarts and the end make of the server, by the settings
-- `server.enabled` of each configuration.
unfoldable pub start_if : Bool → List Call
start_if enabled = if enabled then call_start ∷ [] else []

unfoldable pub restarts : List Bool → List Call
unfolding start_if
restarts [] = call_stop ∷ []
restarts (enabled ∷ es) = (call_stop ∷ []) ++ start_if enabled ++ restarts es

unfoldable pub main_calls : Bool → List Bool → List Call
unfolding start_if restarts
main_calls enabled es = start_if enabled ++ restarts es

module _ (join_host_port : Bytes → Bytes → Bytes) where
  -- Whether none of the calls panics.
  unfoldable pub survives : List Call → DnsServer → Bool
  unfolding start stop
  survives [] s = true
  survives (call_start ∷ cs) s = survives cs (start join_host_port s)
  survives (call_stop ∷ cs) s = elim (stop s).1 [
    | stopped ↦ survives cs (stop s).0
    | panicked ↦ false
  ]
