-- ===== src/Server/Runs.antt =====
-- Concrete runs of the server, and the theorems at concrete inputs.
use lynx_dns.Common.{
  ℕ, ◌≡◌, refl, arith, true, Option, some, [], ◌∷◌, ◌++◌, Bytes, codes, leb, min, pos,
}
use lynx_dns.Server.{Sizes, Proto, udp, new_server, dns_port, serve, main_calls, survives}
use lynx_dns.Server.Limit.{Truncates, Written, limit_of, serve-Written}
use lynx_dns.Server.Cycle.{count_true, survives-main_calls}

-- Messages that are their own length; a client offers 1232 bytes.
abbrev lengths : Sizes
lengths = record { Msg = ℕ; len = λ m. m; udp_size = λ m. some 1232; truncate = λ n m. min n m }

lengths-Truncates : Truncates lengths
lengths-Truncates n m h = omega arith

abbrev long_reply : ℕ → Proto → Bytes → Option ℕ
long_reply req proto remote = some 1500

cut : serve lengths long_reply 40 udp (codes "10.0.0.2") ≡ some 1232
unfolding serve
cut = refl

-- A reply of 2^16 bytes counts as empty.
uncut : serve lengths (λ req proto remote. some 65536) 40 udp (codes "10.0.0.2") ≡ some 65536
unfolding serve
uncut = refl

serve-Written_example :
    (out : ℕ) × (serve lengths long_reply 40 udp (codes "10.0.0.2") ≡ some out)
    × Written (limit_of (some 1232)) 1500 out (out ≡ 1500)
serve-Written_example =
    serve-Written lengths Bytes long_reply 40 1500 (codes "10.0.0.2") lengths-Truncates refl

default_port : dns_port (pos 0) ≡ codes "5334"
unfolding dns_port
default_port = refl

abbrev joined : Bytes → Bytes → Bytes
joined host port = host ++ (b':' ∷ port)

survives-main_calls_example :
    survives joined (main_calls true (true ∷ [])) (new_server (codes "0.0.0.0") (pos 5334))
    ≡ leb (count_true (true ∷ true ∷ [])) 1
survives-main_calls_example =
    survives-main_calls joined (codes "0.0.0.0") (pos 5334) true (true ∷ [])
