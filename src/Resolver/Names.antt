-- ===== src/Resolver/Names.antt =====
-- isLocalDomain of internal/resolver/resolver.go.
use lynx_dns.Common.{
  ◌-◌, Bool, false, ◌||◌, List, [], ◌∷◌, Bytes, codes, text_eq, has_suffix, to_lower, split, ◌==◌,
  length, get_or, drop,
}

abbrev pub local_domain_suffixes : List Bytes
local_domain_suffixes =
    codes ".lan"
    ∷ codes ".local"
    ∷ codes ".localhost"
    ∷ codes ".home"
    ∷ codes ".internal"
    ∷ codes ".test"
    ∷ codes ".example"
    ∷ codes ".invalid"
    ∷ codes ".onion"
    ∷ codes ".arpa"
    ∷ []

unfoldable pub any_suffix : Bytes → List Bytes → Bool
any_suffix name [] = false
any_suffix name (s ∷ ss) = has_suffix name s || any_suffix name ss

unfoldable pub any_tld : Bytes → List Bytes → Bool
any_tld label [] = false
any_tld label (s ∷ ss) = text_eq label (drop 1 s) || any_tld label ss

unfoldable pub last_label : List Bytes → Bytes
last_label parts = get_or parts (length parts - 1) []

unfoldable pub is_local_domain : Bytes → Bool
unfolding any_suffix any_tld last_label
is_local_domain domain =
    let lower = to_lower domain in
    let parts = split b'.' lower in
    any_suffix lower local_domain_suffixes
    || (length parts == 1 || any_tld (last_label parts) local_domain_suffixes)
