-- ===== src/Server/Cycle.antt =====
-- Which sequences of calls the server survives (internal/server/server.go, cmd/lynxdns/main.go).
use lynx_dns.Common.{
  ℕ, suc, ◌+◌, ◌≡◌, refl, ap, ◌∙◌, arith, Bool, true, false, Bool-cases, List, [], ◌∷◌, Bytes, leb,
  ℤ, inl, inr,
}
use lynx_dns.Server.{
  DnsServer, new_server, Call, call_start, call_stop, start, stop, stopped, panicked, start_if,
  restarts, main_calls, survives,
}

-- How often the calls stop a server that runs.
abbrev pub stops : Bool → List Call → ℕ
stops on [] = 0
stops on (call_start ∷ cs) = stops true cs
stops true (call_stop ∷ cs) = suc (stops false cs)
stops false (call_stop ∷ cs) = stops false cs

abbrev pub bit : Bool → ℕ
bit true = 1
bit false = 0

-- How many of the settings are on.
abbrev pub count_true : List Bool → ℕ
count_true [] = 0
count_true (b ∷ bs) = bit b + count_true bs

plus_zero : (n : ℕ) → n + 0 ≡ n
plus_zero n = omega arith

stop_again : (s : DnsServer) → s.running ≡ true → s.stop_closed ≡ true → (stop s).1 ≡ panicked
unfolding stop
stop_again s on closed = rw (on, closed, stop) refl

stop_first :
    (s : DnsServer)
    → s.running ≡ true
    → s.stop_closed ≡ false
    → ((stop s).1 ≡ stopped) × ((stop s).0.running ≡ false) × ((stop s).0.stop_closed ≡ true)
unfolding stop
stop_first s on fresh = rw (on, fresh, stop) (refl, refl, refl)

stop_off : (s : DnsServer) → s.running ≡ false → ((stop s).1 ≡ stopped) × ((stop s).0 ≡ s)
unfolding stop
stop_off s off = rw (off, stop) (refl, refl)

module _ (join_host_port : Bytes → Bytes → Bytes) where
  start_lem :
      (s : DnsServer)
      → ((start join_host_port s).running ≡ true)
        × ((start join_host_port s).stop_closed ≡ s.stop_closed)
  unfolding start
  start_lem s = elim (Bool-cases s.running) [
    | inl on ↦ rw (on, start) (refl, refl)
    | inr off ↦ rw (off, start) (refl, refl)
  ]

  survives_lem :
      (cs : List Call) (s : DnsServer)
      → survives join_host_port cs s ≡ leb (stops s.running cs + bit s.stop_closed) 1
  unfolding survives
  survives_lem [] s = elim (Bool-cases s.stop_closed) [ inl h ↦ rw h refl | inr h ↦ rw h refl ]
  survives_lem (call_start ∷ cs) s =
      let (on, same) = start_lem s in
      survives_lem cs (start join_host_port s)
      ∙ ap (λ b. leb (stops b cs + bit (start join_host_port s).stop_closed) 1) on
      ∙ ap (λ b. leb (stops true cs + bit b) 1) same
  survives_lem (call_stop ∷ cs) s = elim (Bool-cases s.running) [
    | inl on ↦ elim (Bool-cases s.stop_closed) [
      | inl closed ↦ rw (stop_again s on closed, survives) (rw (on, closed) (ground arith))
      | inr fresh ↦
          let (fine, off, closed) = stop_first s on fresh in
          rw (fine, survives)
            (survives_lem cs (stop s).0
              ∙ ap (λ b. leb (stops b cs + bit (stop s).0.stop_closed) 1) off
              ∙ ap (λ b. leb (stops false cs + bit b) 1) closed
              ∙ rw (on, fresh) (ground arith))
    ]
    | inr off ↦
        let (fine, same) = stop_off s off in
        rw (fine, survives)
          (ap (λ s. survives join_host_port cs s) same ∙ survives_lem cs s ∙ rw off refl)
  ]

stops-restarts : (on : Bool) (es : List Bool) → stops on (restarts es) ≡ bit on + count_true es
unfolding restarts start_if
stops-restarts true [] = refl
stops-restarts false [] = refl
stops-restarts true (true ∷ es) = let ih = stops-restarts true es in omega arith
stops-restarts true (false ∷ es) = let ih = stops-restarts false es in omega arith
stops-restarts false (true ∷ es) = let ih = stops-restarts true es in omega arith
stops-restarts false (false ∷ es) = let ih = stops-restarts false es in omega arith

stops-main_calls :
    (enabled : Bool) (es : List Bool)
    → stops false (main_calls enabled es) ≡ count_true (enabled ∷ es)
unfolding main_calls start_if
stops-main_calls true es = stops-restarts true es
stops-main_calls false es = stops-restarts false es

-- The calls that the program makes of a new server from its start over its restarts to its end, each
-- with its configuration, do not panic exactly if at most one of these configurations enables the
-- server: after a restart that starts the server again, the next stop panics.
pub survives-main_calls :
    (join_host_port : Bytes → Bytes → Bytes) (addr : Bytes) (port : ℤ) (enabled : Bool)
    (es : List Bool)
    → survives join_host_port (main_calls enabled es) (new_server addr port)
      ≡ leb (count_true (enabled ∷ es)) 1
unfolding new_server
survives-main_calls join_host_port addr port enabled es =
    survives_lem join_host_port (main_calls enabled es) (new_server addr port)
    ∙ ap (λ n. leb (n + 0) 1) (stops-main_calls enabled es)
    ∙ ap (λ n. leb n 1) (plus_zero (count_true (enabled ∷ es)))
