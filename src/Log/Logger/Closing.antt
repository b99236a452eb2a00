-- ===== src/Log/Logger/Closing.antt =====
-- What Close writes (internal/log/log.go).
use lynx_dns.Common.{
  ℕ, zero, suc, ◌≤◌, ◌≡◌, refl, sym, ap, ◌∙◌, arith, Bytes, true, false, Option, none, some, List,
  [], ◌∷◌, ◌++◌, append_assoc, append-nil, length, map, keep,
}
use lynx_dns.Log.Logger.{
  Entry, LogItem, Sink, stdout, Channel, Flight, Logger, flush_begin, flush_end, send_all, drain,
  close, line_for, subscribers, is_file,
}
use lynx_dns.Log.Logger.Race.{is_gone, after_send, is_gone-after_send}

-- Every channel of a slice is open.
abbrev pub AllOpen : List Channel → List ℕ → Type 0
AllOpen cs [] = Unit
AllOpen cs (x ∷ xs) = (is_gone cs x ≡ false) × AllOpen cs xs

AllOpen-after_send :
    (e : Entry) (x : ℕ) (cs : List Channel) (xs : List ℕ)
    → AllOpen cs xs
    → AllOpen (after_send e x cs) xs
AllOpen-after_send e x cs [] h = tt
AllOpen-after_send e x cs (y ∷ ys) h =
    (is_gone-after_send e x y cs ∙ h.0, AllOpen-after_send e x cs ys h.1)

send_all-AllOpen :
    (e : Entry) (xs ys : List ℕ) (cs : List Channel)
    → AllOpen cs xs
    → AllOpen cs ys
    → (ds : List Channel) × (send_all e xs cs ≡ some ds) × AllOpen ds ys
unfolding send_all
send_all-AllOpen e [] ys cs h k = (cs, refl, k)
send_all-AllOpen e (x ∷ xs) ys cs h k =
    let next = after_send e x cs in
    let r =
      send_all-AllOpen e xs ys next (AllOpen-after_send e x cs xs h.1)
        (AllOpen-after_send e x cs ys k) in
    (r.0, rw (h.0, send_all) r.1, r.2)

-- The lines of the items, in their order, for all outputs.
abbrev pub lines_of : List Sink → List LogItem → List (Sink × Bytes)
lines_of outs [] = []
lines_of outs (item ∷ items) = map (λ s. (s, line_for item s)) outs ++ lines_of outs items

-- What the turns of the goroutine leave.
abbrev pub Drained : List (Sink × Bytes) → Option Logger → Type 0
Drained written r = (m : Logger) × (r ≡ some m) × (m.queue ≡ []) × (m.written ≡ written)

-- One turn at a queue that is not empty.
turn :
    (l : Logger) (item : LogItem) (rest : List LogItem)
    → l.flight ≡ none
    → l.queue ≡ item ∷ rest
    → AllOpen l.channels (subscribers l)
    → (ds : List Channel) × AllOpen ds (subscribers l)
      × (flush_end (flush_begin l)
          ≡ some record l {
            queue = rest;
            channels = ds;
            flight = none;
            written = l.written ++ map (λ s. (s, line_for item s)) l.outputs;
          })
unfolding flush_begin flush_end
turn l item rest no_flight q ok =
    let f : Flight = record {
      item = item;
      outputs = l.outputs;
      sub_count = l.sub_count;
      old_array = none;
    } in
    let flying = record l { queue = rest; flight = some f } in
    let begun : flush_begin l ≡ flying = rw (no_flight, flush_begin) (rw (q, flush_begin) refl) in
    let s = send_all-AllOpen item.entry (subscribers l) (subscribers l) l.channels ok ok in
    (s.0, s.2, ap flush_end begun ∙ rw (s.1, flush_end) refl)

flush_begin_idle : (l : Logger) → l.flight ≡ none → l.queue ≡ [] → flush_begin l ≡ l
unfolding flush_begin
flush_begin_idle l no_flight e = simp (no_flight, e, flush_begin)

flush_end_idle : (l : Logger) → l.flight ≡ none → flush_end l ≡ some l
unfolding flush_end
flush_end_idle l no_flight = simp (no_flight, flush_end)

drain-lines_of :
    (q : List LogItem) (n : ℕ) (l : Logger)
    → length q ≤ n
    → l.flight ≡ none
    → l.queue ≡ q
    → AllOpen l.channels (subscribers l)
    → Drained (l.written ++ lines_of l.outputs q) (drain n l)
unfolding drain flush_begin flush_end
drain-lines_of [] zero l h no_flight e ok = (l, refl, e, sym (append-nil l.written))
drain-lines_of (item ∷ q) zero l h no_flight e ok = absurd (omega arith)
drain-lines_of [] (suc n) l h no_flight e ok =
    let turned = ap flush_end (flush_begin_idle l no_flight e) ∙ flush_end_idle l no_flight in
    let ih = drain-lines_of [] n l (omega arith) no_flight e ok in
    (ih.0, rw (turned, drain) ih.1, ih.2, ih.3)
drain-lines_of (item ∷ q) (suc n) l h no_flight e ok =
    let t = turn l item q no_flight e ok in
    let out : List (Sink × Bytes) = map (λ s. (s, line_for item s)) l.outputs in
    let next : Logger = record l {
      queue = q;
      channels = t.0;
      flight = none;
      written = l.written ++ out;
    } in
    let ih = drain-lines_of q n next (omega arith) refl refl t.1 in
    (ih.0, rw (t.2, drain) ih.1, ih.2, ih.3 ∙ append_assoc l.written out (lines_of l.outputs q))

-- The first Close of a logger with no item in flight and only open channels among its subscribers
-- returns, and then everything that was in the queue has been written to every output, in its order.
pub close-lines_of :
    (l : Logger)
    → l.closed ≡ false
    → l.flight ≡ none
    → AllOpen l.channels (subscribers l)
    → Drained (l.written ++ lines_of l.outputs l.queue) (close l)
unfolding close
close-lines_of l ok no_flight channels =
    let ended = record l { closed = true } in
    let d =
      drain-lines_of l.queue (suc (length l.queue)) ended (omega arith) no_flight refl channels in
    (
      record d.0 {
        outputs = stdout ∷ [];
        closed_outputs = d.0.closed_outputs ++ keep is_file d.0.outputs;
      },
      rw (ok, close) (rw d.1 refl),
      d.2,
      d.3,
    )
