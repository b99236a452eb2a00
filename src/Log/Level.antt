-- ===== src/Log/Level.antt =====
-- The levels and the colours of internal/log/log.go; a Level is a number.
use lynx_dns.Common.{ℕ, ◌==◌, if◌then◌else◌, ◌∷◌, Bytes, codes, text_eq}

abbrev pub debug : ℕ
debug = 0

abbrev pub info : ℕ
info = 1

abbrev pub warn : ℕ
warn = 2

abbrev pub error : ℕ
error = 3

unfoldable pub level_string : ℕ → Bytes
level_string l =
    if l == debug
    then codes "DEBUG"
    else if l == info
    then codes "INFO"
    else if l == warn
    then codes "WARN"
    else if l == error
    then codes "ERROR"
    else codes "UNKNOWN"

unfoldable pub parse_level : Bytes → ℕ
unfolding text_eq
parse_level s =
    if text_eq s (codes "debug")
    then debug
    else if text_eq s (codes "info")
    then info
    else if text_eq s (codes "warn")
    then warn
    else if text_eq s (codes "error")
    then error
    else info

-- "\x1b[" and the rest
abbrev pub escape : Bytes → Bytes
escape rest = 27 ∷ b'[' ∷ rest

abbrev pub color_reset : Bytes
color_reset = escape (codes "0m")

abbrev pub color_red : Bytes
color_red = escape (codes "31m")

abbrev pub color_green : Bytes
color_green = escape (codes "32m")

abbrev pub color_yellow : Bytes
color_yellow = escape (codes "33m")

abbrev pub color_purple : Bytes
color_purple = escape (codes "35m")

abbrev pub color_cyan : Bytes
color_cyan = escape (codes "36m")

abbrev pub color_white : Bytes
color_white = escape (codes "37m")
