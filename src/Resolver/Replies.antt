-- ===== src/Resolver/Replies.antt =====
-- The replies that internal/resolver/resolver.go makes itself, and what it shows of a reply.
use lynx_dns.Common.{
  ◌==◌, if◌then◌else◌, Option, none, some, List, [], ◌∷◌, ◌++◌, Bytes, codes, join,
}
use lynx_dns.Dns.{DnsLib, Question, RrData, a, aaaa, cname, https, svcb, mx, txt, ns, other}

-- The entry of one record in extractIPsFromMsg.
unfoldable pub shown_record : RrData → List Bytes
shown_record (a ip) = ip ∷ []
shown_record (aaaa ip) = ip ∷ []
shown_record (cname target) = target ∷ []
shown_record (https priority target) =
    (if priority == 0 then codes "HTTPS:alias " ++ target else codes "HTTPS:" ++ target) ∷ []
shown_record (svcb priority target) =
    (if priority == 0 then codes "SVCB:alias " ++ target else codes "SVCB:" ++ target) ∷ []
shown_record (mx host) = (codes "MX:" ++ host) ∷ []
shown_record (txt []) = []
shown_record (txt (t ∷ ts)) = (codes "TXT:" ++ join b' ' (t ∷ ts)) ∷ []
shown_record (ns host) = (codes "NS:" ++ host) ∷ []
shown_record other = []

module _ (d : DnsLib) where
  -- A nil record is of none of the types that are shown.
  unfoldable pub shown_records : List (Option d.Rr) → List Bytes
  unfolding shown_record
  shown_records [] = []
  shown_records (none ∷ rs) = shown_records rs
  shown_records (some r ∷ rs) = shown_record (d.rr_data r) ++ shown_records rs

  unfoldable pub extract_ips_from_msg : d.Msg → List Bytes
  unfolding shown_records
  extract_ips_from_msg m = shown_records (d.answer m)

  unfoldable pub block_response : d.Msg → d.Msg
  block_response m = d.set_recursion_available (d.set_authoritative (d.set_rcode m d.rcode_success))

  -- fmt.Sprintf("%s 3600 IN AAAA %s", q.Name, targetIP), or with A
  unfoldable pub redirect_text : Question → Bytes → Bytes
  redirect_text q target =
      if q.qtype == d.type_aaaa
      then q.name ++ (codes " 3600 IN AAAA " ++ target)
      else q.name ++ (codes " 3600 IN A " ++ target)

  unfoldable pub redirect_response : d.Msg → Question → Bytes → d.Msg
  unfolding redirect_text
  redirect_response m q target =
      let resp = d.set_recursion_available (d.set_authoritative (d.set_reply m)) in
      elim (d.new_rr (redirect_text q target)) [
        | none ↦ resp
        | some rr ↦ d.set_answer (d.answer resp ++ (some rr ∷ [])) resp
      ]
