-- ===== src/Log/Logger/Race.antt =====
-- Calls of a logger beside its goroutine (internal/log/log.go).
use mathlib.Core.Path.{subst}
use lynx_dns.Common.{
  ℕ, zero, suc, ◌-◌, ◌<◌, ◌≡◌, ◌⊎◌, inl, inr, refl, sym, ap, ◌∙◌, arith, Bool, true, false,
  Option-cases, none, some, List, [], ◌∷◌, ◌++◌, append-nil, ==_iff, ltb, ◌==◌, if◌then◌else◌,
  length, take, take-append-drop, drop, set, get_or, Bool-cases, if_ind,
}
use lynx_dns.Log.Logger.{
  Entry, LogItem, Channel, Flight, Logger, channel_size, unsubscribe, place_of, close_channel,
  enqueue, offer, flush_begin, flush_end, send_all, subscribers,
}

abbrev pub no_channel : Channel
no_channel = record { waiting = []; is_closed = true }

-- The channel at a place is closed.
abbrev pub is_gone : List Channel → ℕ → Bool
is_gone cs ch = (get_or cs ch no_channel).is_closed

-- A call of a logging function after Close panics unless the level leaves the message out.
pub log_after_close :
    (level : ℕ) (item : LogItem) (l : Logger)
    → l.closed ≡ true
    → ltb level l.level ≡ false
    → offer level item l ≡ none
unfolding offer enqueue
log_after_close level item l h k = rw (k, offer) (rw (h, enqueue) refl)

-- A send does not close or open a channel.
is_gone-set :
    (cs : List Channel) (x ch : ℕ) (waiting : List Entry)
    → is_gone (set cs x record (get_or cs x no_channel) { waiting = waiting }) ch ≡ is_gone cs ch
is_gone-set [] x ch waiting = refl
is_gone-set (c ∷ cs) zero zero waiting = refl
is_gone-set (c ∷ cs) zero (suc ch) waiting = refl
is_gone-set (c ∷ cs) (suc x) zero waiting = refl
is_gone-set (c ∷ cs) (suc x) (suc ch) waiting = is_gone-set cs x ch waiting

-- The channels after one send.
abbrev pub after_send : Entry → ℕ → List Channel → List Channel
after_send e ch cs =
    let c = get_or cs ch no_channel in
    if ltb (length c.waiting) channel_size
    then set cs ch record c { waiting = c.waiting ++ (e ∷ []) }
    else cs

pub is_gone-after_send :
    (e : Entry) (x ch : ℕ) (cs : List Channel) → is_gone (after_send e x cs) ch ≡ is_gone cs ch
is_gone-after_send e x ch cs =
    let c = get_or cs x no_channel in
    if_ind (λ (ds : List Channel). is_gone ds ch ≡ is_gone cs ch)
      (ltb (length c.waiting) channel_size) (λ t. is_gone-set cs x ch (c.waiting ++ (e ∷ [])))
      (λ f. refl)

-- A closed channel among those that are sent to.
abbrev Hit : List Channel → List ℕ → Type 0
Hit cs [] = ⊥
Hit cs (x ∷ xs) = (is_gone cs x ≡ true) ⊎ Hit cs xs

Hit-after_send :
    (e : Entry) (x : ℕ) (cs : List Channel) (xs : List ℕ) → Hit cs xs → Hit (after_send e x cs) xs
Hit-after_send e x cs [] h = h
Hit-after_send e x cs (y ∷ ys) (inl h) = inl (is_gone-after_send e x y cs ∙ h)
Hit-after_send e x cs (y ∷ ys) (inr h) = inr (Hit-after_send e x cs ys h)

send_all-Hit : (e : Entry) (xs : List ℕ) (cs : List Channel) → Hit cs xs → send_all e xs cs ≡ none
unfolding send_all
send_all-Hit e [] cs h = absurd h
send_all-Hit e (x ∷ xs) cs (inl h) = rw (h, send_all) refl
send_all-Hit e (x ∷ xs) cs (inr h) = elim (Bool-cases (is_gone cs x)) [
  | inl k ↦ rw (k, send_all) refl
  | inr k ↦ rw (k, send_all) (send_all-Hit e xs (after_send e x cs) (Hit-after_send e x cs xs h))
]

drop-take : (n : ℕ) (xs : List ℕ) → drop n (take n xs) ≡ []
drop-take zero xs = refl
drop-take (suc n) [] = refl
drop-take (suc n) (x ∷ xs) = drop-take n xs

-- Taking the last element out leaves the array as it is.
array-last :
    (i : ℕ) (xs : List ℕ) → take i xs ++ drop (suc i) (take (suc i) xs) ++ drop (suc i - 1) xs ≡ xs
array-last i xs =
    let e : suc i - 1 ≡ i = omega arith in
    rw (drop-take (suc i) xs, append-nil (take i xs), e) (take-append-drop i xs)

place_of-Hit :
    (ch i : ℕ) (xs : List ℕ) (cs : List Channel)
    → is_gone cs ch ≡ true
    → place_of ch xs ≡ some i
    → Hit cs xs
unfolding place_of
place_of-Hit ch i [] cs h k = absurd (ground (arith, k))
place_of-Hit ch i (x ∷ xs) cs h k = elim (Bool-cases (x == ch)) [
  | inl e ↦ inl (ap (λ y. is_gone cs y) ((==_iff x ch).0 e) ∙ h)
  | inr e ↦ elim (Option-cases (place_of ch xs)) [
    | inl p ↦ absurd (ground (arith, e, p, k))
    | inr (j, p) ↦ inr (place_of-Hit ch j xs cs h p)
  ]
]

get_or-set :
    (cs : List Channel) (i : ℕ) (c : Channel) → i < length cs → get_or (set cs i c) i no_channel ≡ c
get_or-set [] i c h = absurd (omega arith)
get_or-set (x ∷ cs) zero c h = refl
get_or-set (x ∷ cs) (suc i) c h = get_or-set cs i c (omega arith)

-- Unsubscribing the last subscriber while the goroutine has an item in flight makes the send panic.
pub unsubscribe_in_flight :
    (l : Logger) (item : LogItem) (rest : List LogItem) (ch i : ℕ)
    → l.flight ≡ none
    → l.queue ≡ item ∷ rest
    → l.sub_count ≡ suc i
    → place_of ch (subscribers l) ≡ some i
    → ch < length l.channels
    → flush_end (unsubscribe ch (flush_begin l)) ≡ none
unfolding flush_begin flush_end unsubscribe
unsubscribe_in_flight l item rest ch i no_flight q count place exists =
    let f : Flight = record {
      item = item;
      outputs = l.outputs;
      sub_count = l.sub_count;
      old_array = none;
    } in
    let flying = record l { queue = rest; flight = some f } in
    let begun : flush_begin l ≡ flying = rw (no_flight, flush_begin) (rw (q, flush_begin) refl) in
    let array = take i l.array ++ drop (suc i) (subscribers l) ++ drop (l.sub_count - 1) l.array in
    let left = record flying {
      array = array;
      sub_count = l.sub_count - 1;
      channels = close_channel ch l.channels;
    } in
    let closed : unsubscribe ch flying ≡ left = rw (place, unsubscribe) refl in
    let same : array ≡ l.array =
      ap (λ n. take i l.array ++ drop (suc i) (take n l.array) ++ drop (n - 1) l.array) count
      ∙ array-last i l.array in
    let gone : is_gone left.channels ch ≡ true =
      ap (λ (c : Channel). c.is_closed) (get_or-set l.channels ch _ exists) in
    let hit : Hit left.channels (take l.sub_count array) =
      subst (λ xs. Hit left.channels (take l.sub_count xs)) (sym same)
        (place_of-Hit ch i (subscribers l) left.channels gone place) in
    let fails = send_all-Hit item.entry (take l.sub_count array) left.channels hit in
    ap (λ m. flush_end (unsubscribe ch m)) begun ∙ ap flush_end closed ∙ rw (fails, flush_end) refl
