-- ===== src/Geodata/Address.antt =====
-- net.IP.String, which writes the networks of a list (internal/geodata/geodata.go).
use lynx_dns.Common.{
  ℕ, suc, ◌+◌, ◌*◌, ◌/◌, ◌%◌, ◌&&◌, List, [], ◌∷◌, ◌++◌, Bytes, codes, text_eq, leb, ltb, ◌==◌,
  if◌then◌else◌, length, take, drop, replicate, get_or,
}
use lynx_dns.Rules.Ident.{decimal}

abbrev pub hex_digit : ℕ → ℕ
hex_digit n = get_or (codes "0123456789abcdef") n 0

-- The four bytes of an IPv4 address.
unfoldable pub dotted_text : Bytes → Bytes
unfolding decimal
dotted_text ip =
    decimal (get_or ip 0 0)
    ++ codes "."
    ++ decimal (get_or ip 1 0)
    ++ codes "."
    ++ decimal (get_or ip 2 0)
    ++ codes "."
    ++ decimal (get_or ip 3 0)

-- The eight groups of an IPv6 address.
unfoldable pub groups_of : Bytes → List ℕ
groups_of [] = []
groups_of (a ∷ []) = []
groups_of (a ∷ b ∷ ip) = (a * 256 + b) ∷ groups_of ip

-- A group in lower-case hexadecimal without leading zeros.
unfoldable pub group_text : ℕ → Bytes
group_text g =
    (if leb 4096 g then hex_digit (g / 4096) ∷ [] else [])
    ++ (if leb 256 g then hex_digit (g / 256 % 16) ∷ [] else [])
    ++ (if leb 16 g then hex_digit (g / 16 % 16) ∷ [] else [])
    ++ (hex_digit (g % 16) ∷ [])

unfoldable pub zeros_ahead : List ℕ → ℕ
zeros_ahead [] = 0
zeros_ahead (g ∷ gs) = let rest = zeros_ahead gs in if g == 0 then suc rest else 0

-- The start and the length of the first longest run of zeros, at `at` from the groups that are
-- left; a shorter run that is found inside a longer one is never better.
unfoldable pub longest_run : List ℕ → ℕ → ℕ × ℕ → ℕ × ℕ
unfolding zeros_ahead
longest_run [] at best = best
longest_run (g ∷ gs) at best =
    let n = zeros_ahead (g ∷ gs) in
    if leb 2 n && ltb best.1 n
    then longest_run gs (suc at) (at, n)
    else longest_run gs (suc at) best

unfoldable pub join_groups : List ℕ → Bytes
unfolding group_text
join_groups [] = []
join_groups (g ∷ []) = group_text g
join_groups (g ∷ h ∷ gs) = group_text g ++ codes ":" ++ join_groups (h ∷ gs)

unfoldable pub v6_text : List ℕ → Bytes
unfolding longest_run join_groups
v6_text gs =
    let run = longest_run gs 0 (0, 0) in
    if run.1 == 0
    then join_groups gs
    else join_groups (take run.0 gs) ++ codes "::" ++ join_groups (drop (run.0 + run.1) gs)

unfoldable pub hex_text : Bytes → Bytes
hex_text [] = []
hex_text (b ∷ bs) = hex_digit (b / 16) ∷ hex_digit (b % 16) ∷ hex_text bs

abbrev pub v4_in_v6 : Bytes
v4_in_v6 = replicate 10 0 ++ (255 ∷ 255 ∷ [])

-- Four bytes, or sixteen that hold an IPv4 address, are dotted; another length is no address.
unfoldable pub ip_text : Bytes → Bytes
unfolding dotted_text groups_of v6_text hex_text
ip_text ip =
    if length ip == 0
    then codes "<nil>"
    else if length ip == 4
    then dotted_text ip
    else if length ip == 16 && text_eq (take 12 ip) v4_in_v6
    then dotted_text (drop 12 ip)
    else if length ip == 16
    then v6_text (groups_of ip)
    else codes "?" ++ hex_text ip
