-- ===== src/Dns/Sample.antt =====
-- A small implementation of the DNS library's interface, on which theorems are run: a message is a
-- record, a resource record is its data and its time to live, and `NewRR` fails on the empty text.
use lynx_dns.Common.{
  ℕ, refl, Bool, true, false, Option, none, some, List, [], ◌∷◌, ◌++◌, Bytes, codes, if◌then◌else◌,
  ◌==◌,
}
use lynx_dns.Dns.{DnsLib, DnsLaws, Question, RrData, a}

pub record SampleMsg : Type 0 where
  pub ident : ℕ
  pub question : List Question
  pub records : List (Option (RrData × ℕ))
  pub code : ℕ
  pub authoritative : Bool
  pub recursion_available : Bool

abbrev reply_to : SampleMsg → ℕ → SampleMsg
reply_to m c = record {
  ident = m.ident;
  question = m.question;
  records = [];
  code = c;
  authoritative = false;
  recursion_available = false;
}

abbrev sample_rr : Bytes → Option (RrData × ℕ)
sample_rr [] = none
sample_rr (c ∷ s) = some (a (c ∷ s), 3600)

abbrev pub sample : DnsLib
sample = record {
  Msg = SampleMsg;
  Rr = RrData × ℕ;
  rr_data = λ r. r.0;
  rr_ttl = λ r. r.1;
  new_rr = sample_rr;
  copy = λ m. m;
  id = λ m. m.ident;
  set_id = λ n m. record m { ident = n };
  questions = λ m. m.question;
  answer = λ m. m.records;
  set_answer = λ rs m. record m { records = rs };
  rcode = λ m. m.code;
  set_rcode = reply_to;
  set_reply = λ m. reply_to m 0;
  set_authoritative = λ m. record m { authoritative = true };
  set_recursion_available = λ m. record m { recursion_available = true };
  question_msg = λ n name t. record {
    ident = n;
    question = record { name = name; qtype = t } ∷ [];
    records = [];
    code = 0;
    authoritative = false;
    recursion_available = false;
  };
  set_recursion_desired = λ m. m;
  set_edns0 = λ n m. m;
  fqdn = λ s. s ++ (b'.' ∷ []);
  type_to_string = λ t. if t == 28 then codes "AAAA" else codes "A";
  type_aaaa = 28;
  rcode_success = 0;
  rcode_format_error = 1;
  rcode_server_failure = 2;
  rcode_name_error = 3;
}

pub sample-DnsLaws : DnsLaws sample
sample-DnsLaws = record {
  rcode-set_rcode = λ m c. refl;
  answer-set_rcode = λ m c. refl;
  rcode-set_reply = λ m. refl;
  answer-set_reply = λ m. refl;
  rcode-set_authoritative = λ m. refl;
  answer-set_authoritative = λ m. refl;
  rcode-set_recursion_available = λ m. refl;
  answer-set_recursion_available = λ m. refl;
  answer-set_answer = λ m rs. refl;
  rcode-set_answer = λ m rs. refl;
  answer-copy = λ m. refl;
  rcode-copy = λ m. refl;
  id-set_id = λ m n. refl;
  answer-set_id = λ m n. refl;
  rcode-set_id = λ m n. refl;
}
