-- ===== src/Log/Runs.antt =====
-- Concrete runs of the log, and the theorems at concrete inputs.
use lynx_dns.Common.{
  ◌≤◌, ◌≡◌, ◌⊎◌, refl, arith, true, false, none, [], ◌∷◌, ◌++◌, codes, length, text_eq,
}
use lynx_dns.Common.Dict
use lynx_dns.Common.Dict.{Dict, lookup}
use lynx_dns.Log.Level.{info, color_red}
use lynx_dns.Log.Ansi.{strip_ansi, sequence, strip_ansi_painted}
use lynx_dns.Log.Rotate.{Files, Calls, write}
use lynx_dns.Log.Rotate.Bounded.{IsSound, log_text, write_within}
use lynx_dns.Log.Logger.{
  LogItem, Channel, Logger, new_logger, unsubscribe, flush_begin, flush_end, close, place_of,
}
use lynx_dns.Log.Logger.Race.{unsubscribe_in_flight}
use lynx_dns.Log.Logger.Closing.{Drained, lines_of, close-lines_of}

-- A cut sequence at the end, and an escape that no bracket follows.
stripped :
    strip_ansi (color_red ++ (codes "ads" ++ (27 ∷ 27 ∷ codes "x" ++ (27 ∷ b'[' ∷ codes "3"))))
    ≡ codes "adsx"
unfolding strip_ansi
stripped = refl

strip_ansi_painted_example :
    strip_ansi (
      codes "a"
      ++ (sequence (codes "31") b'm' ++ (codes "b" ++ (sequence (codes "0") b'm' ++ codes "c"))))
    ≡ codes "a" ++ (codes "b" ++ codes "c")
strip_ansi_painted_example =
    strip_ansi_painted (codes "a") (codes "31") (codes "b") (codes "0") (codes "c") b'm' b'm'
      (refl, tt) (refl, tt) (refl, tt) (refl, (refl, tt)) (refl, tt) refl refl

-- A file of four bytes with a maximum of five.
abbrev files : Files
files = record {
  writer = record { is_open = true; file_path = codes "log"; max_size = 5; curr_size = 4 };
  disk = (codes "log", codes "abcd") ∷ [];
}

abbrev well : Calls
well = record { renames = true; opens = true; write_error = none }

rotated : log_text (write well (codes "xy") files).0 ≡ codes "xy"
unfolding write lookup Dict.insert Dict.delete text_eq
rotated = refl

files-IsSound : IsSound files
unfolding lookup text_eq
files-IsSound = (refl, refl)

write_within_example :
    (length (log_text (write well (codes "xy") files).0) ≤ 5)
    ⊎ (log_text (write well (codes "xy") files).0 ≡ codes "xy")
write_within_example =
    write_within well (codes "xy") files (refl, refl, refl) files-IsSound (omega arith)

abbrev hello : LogItem
hello = record {
  colored_line = codes "hello";
  plain_line = codes "hello";
  entry = record { timestamp = codes "t"; level = info; message = codes "hello" };
}

-- A subscriber, and a line in the queue.
abbrev waiting : Logger
waiting = record (new_logger info) {
  array = 0 ∷ [];
  sub_count = 1;
  channels = (let c : Channel = record { waiting = []; is_closed = false } in c) ∷ [];
  queue = hello ∷ [];
}

unsubscribe_in_flight_example : flush_end (unsubscribe 0 (flush_begin waiting)) ≡ none
unfolding new_logger place_of
unsubscribe_in_flight_example =
    unsubscribe_in_flight waiting hello [] 0 0 refl refl refl refl (omega arith)

close-lines_of_example :
    Drained (waiting.written ++ lines_of waiting.outputs waiting.queue) (close waiting)
unfolding new_logger
close-lines_of_example = close-lines_of waiting refl refl (refl, tt)
