-- ===== src/Dns.antt =====
-- github.com/miekg/dns, which the program uses and does not contain: an argument of every definition
-- that works with messages.
pub mod Sample
use lynx_dns.Common.{ℕ, ◌≡◌, Bool, Option, List, ◌∷◌, ◌++◌, [], Bytes}

pub record Question : Type 0 where
  pub name : Bytes
  pub qtype : ℕ

-- What the type switches of the program read of a resource record: the address as text, the target,
-- the priority, or the strings.
pub data RrData : Type 0 where
  a : Bytes → RrData
  aaaa : Bytes → RrData
  cname : Bytes → RrData
  https : ℕ → Bytes → RrData
  svcb : ℕ → Bytes → RrData
  mx : Bytes → RrData
  txt : List Bytes → RrData
  ns : Bytes → RrData
  other : RrData

pub record DnsLib : Type 1 where
  -- *dns.Msg that is not nil, and dns.RR
  pub Msg : Type 0
  pub Rr : Type 0
  pub rr_data : Rr → RrData
  -- rr.Header().Ttl, a uint32
  pub rr_ttl : Rr → ℕ
  -- dns.NewRR, which may fail
  pub new_rr : Bytes → Option Rr
  pub copy : Msg → Msg
  pub id : Msg → ℕ
  pub set_id : ℕ → Msg → Msg
  pub questions : Msg → List Question
  -- msg.Answer, in which an entry may be nil
  pub answer : Msg → List (Option Rr)
  pub set_answer : List (Option Rr) → Msg → Msg
  pub rcode : Msg → ℕ
  -- new(dns.Msg).SetRcode(request, code), new(dns.Msg).SetReply(request)
  pub set_rcode : Msg → ℕ → Msg
  pub set_reply : Msg → Msg
  pub set_authoritative : Msg → Msg
  pub set_recursion_available : Msg → Msg
  -- new(dns.Msg).SetQuestion(name, type), with the identifier that it draws, and SetEdns0(size, false)
  pub question_msg : ℕ → Bytes → ℕ → Msg
  pub set_recursion_desired : Msg → Msg
  pub set_edns0 : ℕ → Msg → Msg
  -- dns.Fqdn, dns.TypeToString, dns.TypeAAAA, and the response codes
  pub fqdn : Bytes → Bytes
  pub type_to_string : ℕ → Bytes
  pub type_aaaa : ℕ
  pub rcode_success : ℕ
  pub rcode_format_error : ℕ
  pub rcode_server_failure : ℕ
  pub rcode_name_error : ℕ

-- The documented behaviour of the library that theorems rely on.
pub record DnsLaws (d : DnsLib) : Type 0 where
  pub rcode-set_rcode : (m : d.Msg) (c : ℕ) → d.rcode (d.set_rcode m c) ≡ c
  pub answer-set_rcode : (m : d.Msg) (c : ℕ) → d.answer (d.set_rcode m c) ≡ []
  pub rcode-set_reply : (m : d.Msg) → d.rcode (d.set_reply m) ≡ d.rcode_success
  pub answer-set_reply : (m : d.Msg) → d.answer (d.set_reply m) ≡ []
  pub rcode-set_authoritative : (m : d.Msg) → d.rcode (d.set_authoritative m) ≡ d.rcode m
  pub answer-set_authoritative : (m : d.Msg) → d.answer (d.set_authoritative m) ≡ d.answer m
  pub rcode-set_recursion_available :
      (m : d.Msg) → d.rcode (d.set_recursion_available m) ≡ d.rcode m
  pub answer-set_recursion_available :
      (m : d.Msg) → d.answer (d.set_recursion_available m) ≡ d.answer m
  pub answer-set_answer : (m : d.Msg) (rs : List (Option d.Rr)) → d.answer (d.set_answer rs m) ≡ rs
  pub rcode-set_answer :
      (m : d.Msg) (rs : List (Option d.Rr)) → d.rcode (d.set_answer rs m) ≡ d.rcode m
  pub answer-copy : (m : d.Msg) → d.answer (d.copy m) ≡ d.answer m
  pub rcode-copy : (m : d.Msg) → d.rcode (d.copy m) ≡ d.rcode m
  pub id-set_id : (m : d.Msg) (n : ℕ) → d.id (d.set_id n m) ≡ n
  pub answer-set_id : (m : d.Msg) (n : ℕ) → d.answer (d.set_id n m) ≡ d.answer m
  pub rcode-set_id : (m : d.Msg) (n : ℕ) → d.rcode (d.set_id n m) ≡ d.rcode m
