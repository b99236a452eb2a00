-- ===== src/Geodata/Text.antt =====
-- The text forms of the lists, and how they are told from protobuf (internal/geodata/geodata.go).
use lynx_dns.Common.{
  ◌-◌, Bool, true, false, not, ◌&&◌, ◌||◌, Option, none, some, List, [], ◌∷◌, ◌++◌, Bytes, codes,
  has_prefix, has_suffix, contains, split, trim_space, trim_prefix, ◌==◌, ltb, if◌then◌else◌,
  length, take, drop,
}
use lynx_dns.Common.Dict.{Dict, lookup, insert}

unfoldable pub has_newline : Bytes → Bool
has_newline [] = false
has_newline (b ∷ bs) = b == 10 || has_newline bs

-- A byte below 0x20 that is no newline, carriage return or tab.
unfoldable pub has_control : Bytes → Bool
has_control [] = false
has_control (b ∷ bs) =
    (ltb b 32 && (not (b == 10) && (not (b == 13) && not (b == 9)))) || has_control bs

unfoldable pub is_protobuf : Bytes → Bool
unfolding has_newline has_control
is_protobuf text =
    not (length text == 0) && (has_newline (take 8 text) || has_control (take 512 text))

-- A line that the parsers of the text forms skip.
abbrev pub is_blank : Bytes → Bool
is_blank line = length line == 0 || has_prefix line (codes "#")

-- One line of the advertisement filter: line[2:len(line)-1] of a rule `||domain^`, or a plain name.
unfoldable pub ad_filter_line : Bytes → Dict Bool → Dict Bool
ad_filter_line raw m =
    let line = trim_space raw in
    let domain = take (length line - 3) (drop 2 line) in
    if is_blank line || has_prefix line (codes "!")
    then m
    else if has_prefix line (codes "||") && has_suffix line (codes "^")
    then insert domain true (insert (b'.' ∷ domain) true m)
    else if contains line (codes ".")
        && (not (has_prefix line (codes "/")) && not (contains line (codes " ")))
    then insert line true m
    else m

unfoldable pub ad_filter_lines : List Bytes → Dict Bool → Dict Bool
unfolding ad_filter_line
ad_filter_lines [] m = m
ad_filter_lines (l ∷ ls) m = ad_filter_lines ls (ad_filter_line l m)

unfoldable pub parse_ad_filter_data : Bytes → Dict Bool
unfolding ad_filter_lines
parse_ad_filter_data text = ad_filter_lines (split 10 text) []

abbrev pub entries_of : Option (Dict Bool) → Dict Bool
entries_of none = []
entries_of (some m) = m

abbrev pub items_of : Option (List Bytes) → List Bytes
items_of none = []
items_of (some xs) = xs

-- The loop of parseGeositeText, with the current category.
unfoldable pub geosite_lines : List Bytes → Bytes → Dict (Dict Bool) → Dict (Dict Bool)
geosite_lines [] cat m = m
geosite_lines (raw ∷ rest) cat m =
    let line = trim_space raw in
    let next = trim_prefix line (codes "@") in
    let skipped = geosite_lines rest cat m in
    let opened = geosite_lines rest next (insert next (entries_of (lookup next m)) m) in
    let added =
      geosite_lines rest cat (insert cat (insert line true (entries_of (lookup cat m))) m) in
    if is_blank line
    then skipped
    else if has_prefix line (codes "@")
        || (not (contains line (codes ".")) && not (contains line (codes "/")))
    then opened
    else if length cat == 0
    then skipped
    else added

unfoldable pub parse_geosite_text : Bytes → Dict (Dict Bool)
unfolding geosite_lines
parse_geosite_text text = geosite_lines (split 10 text) [] []

-- The loop of parseGeoipText, with the current category.
unfoldable pub geoip_lines : List Bytes → Bytes → Dict (List Bytes) → Dict (List Bytes)
geoip_lines [] cat m = m
geoip_lines (raw ∷ rest) cat m =
    let line = trim_space raw in
    let skipped = geoip_lines rest cat m in
    let opened = geoip_lines rest line m in
    let added = geoip_lines rest cat (insert cat (items_of (lookup cat m) ++ (line ∷ [])) m) in
    if is_blank line
    then skipped
    else if contains line (codes "/")
    then (if length cat == 0 then skipped else added)
    else opened

unfoldable pub parse_geoip_text : Bytes → Dict (List Bytes)
unfolding geoip_lines
parse_geoip_text text = geoip_lines (split 10 text) [] []
