-- ===== src/Log/Logger.antt =====
-- Logger of internal/log/log.go: the queue of lines, the goroutine that writes them, and the
-- subscribers. A line's time is a text that is passed in; the message is already formatted.
use lynx_dns.Common.{
  ℕ, zero, suc, ◌+◌, ◌-◌, ◌*◌, ◌≡◌, Bool, true, false, ◌&&◌, ◌||◌, Option, none, some, List, [],
  ◌∷◌, ◌++◌, Bytes, codes, ltb, leb, ◌==◌, if◌then◌else◌, length, take, drop, set, get_or,
  replicate, keep, map, max,
}
use lynx_dns.Log.Level.{level_string, color_reset, info}
use lynx_dns.Log.Ansi.{strip_ansi}
pub mod Race
pub mod Closing

pub record Entry : Type 0 where
  pub timestamp : Bytes
  pub level : ℕ
  pub message : Bytes

pub record LogItem : Type 0 where
  pub colored_line : Bytes
  pub plain_line : Bytes
  pub entry : Entry

pub data Sink : Type 0 where
  stdout : Sink
  stderr : Sink
  to_file : ℕ → Sink

-- The channel of a subscriber.
pub record Channel : Type 0 where
  pub waiting : List Entry
  pub is_closed : Bool

-- The item that the goroutine has taken from the queue, with the outputs and the slice of the
-- subscribers that it read: the number of its elements, and its array, if the logger has another one
-- by now.
pub record Flight : Type 0 where
  pub item : LogItem
  pub outputs : List Sink
  pub sub_count : ℕ
  pub old_array : Option (List ℕ)

-- The slice `subscribers` is the first `sub_count` elements of `array`, whose length is the
-- capacity; its elements are places of `channels`. `written` is what the outputs have got, and
-- `closed_outputs` those on which Close was called.
pub record Logger : Type 0 where
  pub level : ℕ
  pub outputs : List Sink
  pub array : List ℕ
  pub sub_count : ℕ
  pub channels : List Channel
  pub queue : List LogItem
  pub closed : Bool
  pub dropped : ℕ
  pub flight : Option Flight
  pub written : List (Sink × Bytes)
  pub closed_outputs : List Sink

unfoldable pub new_logger : ℕ → Logger
new_logger level = record {
  level = level;
  outputs = stdout ∷ [];
  array = [];
  sub_count = 0;
  channels = [];
  queue = [];
  closed = false;
  dropped = 0;
  flight = none;
  written = [];
  closed_outputs = [];
}

abbrev pub queue_size : ℕ
queue_size = 4096

abbrev pub channel_size : ℕ
channel_size = 256

unfoldable pub set_level : ℕ → Logger → Logger
set_level level l = record l { level = level }

unfoldable pub add_output : Sink → Logger → Logger
add_output s l = record l { outputs = l.outputs ++ (s ∷ []) }

unfoldable pub set_outputs : List Sink → Logger → Logger
set_outputs ss l = record l { outputs = ss }

abbrev pub subscribers : Logger → List ℕ
subscribers l = take l.sub_count l.array

-- The new channel's place, and append, which writes behind the slice, or moves to an array of twice
-- the capacity, and leaves the one that a flight reads.
unfoldable pub subscribe : Logger → ℕ × Logger
subscribe l =
    let ch = length l.channels in
    let fresh : Channel = record { waiting = []; is_closed = false } in
    let added = record l { channels = l.channels ++ (fresh ∷ []); sub_count = suc l.sub_count } in
    let grown = record added {
      array = l.array ++ (ch ∷ replicate (length l.array - 1) 0);
      flight = elim l.flight [
        | none ↦ none
        | some f ↦
            some
              record f { old_array = elim f.old_array [ none ↦ some l.array | some xs ↦ some xs ] }
      ];
    } in
    (
      ch,
      if ltb l.sub_count (length l.array)
          then record added { array = set l.array l.sub_count ch }
          else grown,
    )

-- The first place of `ch` in a slice.
unfoldable pub place_of : ℕ → List ℕ → Option ℕ
place_of ch [] = none
place_of ch (x ∷ xs) =
    let rest = place_of ch xs in
    if x == ch then some 0 else elim rest [ none ↦ none | some i ↦ some (suc i) ]

abbrev pub close_channel : ℕ → List Channel → List Channel
close_channel ch cs = set cs ch record {
  waiting = (get_or cs ch record { waiting = []; is_closed = true }).waiting;
  is_closed = true;
}

-- append(subs[:i], subs[i+1:]...) moves the later elements within the array; then the channel is
-- closed.
unfoldable pub unsubscribe : ℕ → Logger → Logger
unfolding place_of
unsubscribe ch l = elim (place_of ch (subscribers l)) [
  | none ↦ l
  | some i ↦ record l {
    array = take i l.array ++ drop (suc i) (subscribers l) ++ drop (l.sub_count - 1) l.array;
    sub_count = l.sub_count - 1;
    channels = close_channel ch l.channels;
  }
]

abbrev pub head_of : Bytes → Bytes
head_of time = codes "[" ++ time ++ codes "] "

abbrev pub plain : Bytes → ℕ → Bytes → Bytes
plain time level message = head_of time ++ level_string level ++ codes " " ++ message ++ (10 ∷ [])

abbrev pub entry_of : Bytes → ℕ → Bytes → Entry
entry_of time level message = record { timestamp = time; level = level; message = message }

-- The select: into the queue, or counted as dropped. Sending on the closed queue panics.
unfoldable pub enqueue : LogItem → Logger → Option Logger
enqueue item l =
    if l.closed
    then none
    else some (
        if ltb (length l.queue) queue_size
        then record l { queue = l.queue ++ (item ∷ []) }
        else record l { dropped = suc l.dropped })

-- A level below the logger's is left out.
unfoldable pub offer : ℕ → LogItem → Logger → Option Logger
unfolding enqueue
offer level item l = if ltb level l.level then some l else enqueue item l

unfoldable pub log : ℕ → Bytes → Bytes → Logger → Option Logger
unfolding offer level_string
log level time message l =
    let line = plain time level message in
    offer level
      record { colored_line = line; plain_line = line; entry = entry_of time level message } l

unfoldable pub log_with_color : ℕ → Bytes → Bytes → Bytes → Logger → Option Logger
unfolding offer level_string
log_with_color level color time message l =
    offer level
      record {
        colored_line =
            head_of time
            ++ color_reset
            ++ level_string level
            ++ color_reset
            ++ codes " "
            ++ color
            ++ message
            ++ color_reset
            ++ (10 ∷ []);
        plain_line = plain time level message;
        entry = entry_of time level message;
      }
      l

-- The colours stand in the message; the label's colour is not used.
unfoldable pub log_with_color_multi : ℕ → Bytes → Bytes → Bytes → Logger → Option Logger
unfolding offer level_string strip_ansi
log_with_color_multi level label_color time message l =
    offer level
      record {
        colored_line =
            head_of time
            ++ color_reset
            ++ level_string level
            ++ color_reset
            ++ codes " "
            ++ message
            ++ (10 ∷ []);
        plain_line = plain time level (strip_ansi message);
        entry = entry_of time level message;
      }
      l

-- The goroutine takes an item, and reads the outputs and the subscribers under the lock.
unfoldable pub flush_begin : Logger → Logger
flush_begin l = elim l.flight [
  | some f ↦ l
  | none ↦ elim l.queue [
    | [] ↦ l
    | item ∷ rest ↦ record l {
      queue = rest;
      flight =
          some
            record { item = item; outputs = l.outputs; sub_count = l.sub_count; old_array = none };
    }
  ]
]

abbrev pub line_for : LogItem → Sink → Bytes
line_for item stdout = item.colored_line
line_for item stderr = item.colored_line
line_for item (to_file n) = item.plain_line

-- The sends: a full channel is passed over, and sending on a closed one panics.
unfoldable pub send_all : Entry → List ℕ → List Channel → Option (List Channel)
send_all e [] cs = some cs
send_all e (ch ∷ chs) cs =
    let c = get_or cs ch record { waiting = []; is_closed = true } in
    let got = set cs ch record c { waiting = c.waiting ++ (e ∷ []) } in
    elim c.is_closed [
      | true ↦ none
      | false ↦ send_all e chs (if ltb (length c.waiting) channel_size then got else cs)
    ]

-- Without the lock: the lines are written, and the entry is sent to the subscribers of the slice.
unfoldable pub flush_end : Logger → Option Logger
unfolding send_all
flush_end l = elim l.flight [
  | none ↦ some l
  | some f ↦
      let array : List ℕ = elim f.old_array [ none ↦ l.array | some xs ↦ xs ] in
      elim (send_all f.item.entry (take f.sub_count array) l.channels) [
        | none ↦ none
        | some cs ↦ some record l {
          channels = cs;
          flight = none;
          written = l.written ++ map (λ s. (s, line_for f.item s)) f.outputs;
        }
      ]
]

-- Turns of the goroutine.
unfoldable pub drain : ℕ → Logger → Option Logger
unfolding flush_begin flush_end
drain zero l = some l
drain (suc n) l = elim (flush_end (flush_begin l)) [ none ↦ none | some next ↦ drain n next ]

-- An output that is an io.Closer, as a file is.
abbrev pub is_file : Sink → Bool
is_file stdout = false
is_file stderr = false
is_file (to_file n) = true

-- The first Close closes the queue, waits until the goroutine has written what is left, one turn for
-- the item in flight and each in the queue, closes the files, and goes back to the standard output.
unfoldable pub close : Logger → Option Logger
unfolding drain
close l =
    if l.closed then some l else elim (drain (suc (length l.queue)) (record l { closed = true })) [
      | none ↦ none
      | some rest ↦ some record rest {
        outputs = stdout ∷ [];
        closed_outputs = rest.closed_outputs ++ keep is_file rest.outputs;
      }
    ]
