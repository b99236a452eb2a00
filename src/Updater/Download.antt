-- ===== src/Updater/Download.antt =====
-- downloadWithProgress of internal/updater/updater.go. What the network and the file system answer is
-- an argument; times are in nanoseconds.
use lynx_dns.Common.{
  ℕ, suc, ◌+◌, ◌-◌, ◌*◌, ◌/◌, Bool, true, false, ◌&&◌, ◌||◌, Option, none, some, ◌⊎◌, inl, inr,
  List, [], ◌∷◌, ◌++◌, Bytes, codes, ltb, leb, ◌==◌, if◌then◌else◌, length, ℤ, pos, negsuc,
}
use lynx_dns.Common.Dict
use lynx_dns.Common.Dict.{Dict, lookup, insert}
use lynx_dns.Geodata.Manager.{Manager, DownloadProgress, set_progress}
use lynx_dns.Rules.Ident.{decimal}
use lynx_dns.Updater.Messages.{from_source, of_total, downloads}
pub mod Body
pub mod Whole

-- A call of Read: the bytes, the time after it, and the error of writing them, if any.
pub record Chunk : Type 0 where
  pub bytes : Bytes
  pub at : ℕ
  pub write_error : Option Bytes

pub data Ending : Type 0 where
  eof : Ending
  broken : Bytes → Ending

-- The calls of Read up to the first error.
pub data Reads : Type 0 where
  more : Chunk → Reads → Reads
  last : Chunk → Ending → Reads

pub record Response : Type 0 where
  pub status_code : ℕ
  pub content_length : ℤ
  pub body : Reads

pub record Fetch : Type 0 where
  pub dir_error : Option Bytes
  pub answer : Bytes ⊎ Response
  pub create_error : Option Bytes
  pub rename_error : Option Bytes
  pub started : ℕ

-- The manager of the lists, and the files by their paths.
pub record World : Type 0 where
  pub manager : Manager
  pub disk : Dict Bytes

abbrev pub content : Bytes → Dict Bytes → Bytes
content path disk = elim (lookup path disk) [ none ↦ [] | some text ↦ text ]

-- What stays the same while a source is read.
pub record Download : Type 0 where
  pub target : Bytes
  pub url : Bytes
  pub tmp_path : Bytes
  pub source_index : ℕ
  pub source_total : ℕ
  pub size : ℤ
  pub start_time : ℕ

-- downloaded * 100 / totalSize, or -1 where the size is unknown
unfoldable pub percent_of : ℕ → ℤ → ℤ
percent_of downloaded (negsuc n) = negsuc 0
percent_of downloaded (pos size) = if ltb 0 size then pos (downloaded * 100 / size) else negsuc 0

-- The bytes a second, up to the rounding of float64.
unfoldable pub speed_of : ℕ → ℕ → ℕ
speed_of downloaded elapsed = if ltb 0 elapsed then downloaded * 1000000000 / elapsed else 0

unfoldable pub downloading : Download → ℕ → ℕ → DownloadProgress
unfolding of_total percent_of speed_of
downloading d downloaded now = record {
  target = d.target;
  status = codes "downloading";
  url = d.url;
  percent = percent_of downloaded d.size;
  downloaded = downloaded;
  size = d.size;
  speed = speed_of downloaded (now - d.start_time);
  source_index = suc d.source_index;
  source_total = d.source_total;
  message = from_source ++ of_total (suc d.source_index) d.source_total ++ downloads;
}

-- os.Remove of the temporary file. The code ignores its error, and that of closing the file before it;
-- here both succeed.
abbrev pub remove : Bytes → World → World
remove path w = record w { disk = Dict.delete path w.disk }

-- The bytes of a call of Read at the end of the temporary file; none are written if there are none.
unfoldable pub write_chunk : Bytes → Bytes → World → World
write_chunk path bytes w =
    if ltb 0 (length bytes)
    then record w { disk = insert path (content path w.disk ++ bytes) w.disk }
    else w

abbrev pub fails_to_write : Chunk → Option Bytes
fails_to_write c = if ltb 0 (length c.bytes) then c.write_error else none

-- The progress is told at most every 200 ms, and at the end.
abbrev pub is_due : ℕ → ℕ → Bool → Bool
is_due now last_update ends = leb 200000000 (now - last_update) || ends

unfoldable pub report : Download → ℕ → ℕ → ℕ → Bool → World → World
unfolding downloading set_progress
report d downloaded now last_update ends w =
    if is_due now last_update ends
    then record w { manager = set_progress d.target (downloading d downloaded now) w.manager }
    else w

-- The loop over the calls of Read, with the number of bytes and the time of the last report.
unfoldable pub read_body : Download → Reads → ℕ → ℕ → World → World × Option Bytes
unfolding write_chunk report
read_body d (last c e) downloaded told w = elim (fails_to_write c) [
  | some err ↦ (remove d.tmp_path w, some (codes "failed to write file: " ++ err))
  | none ↦
      let total = downloaded + length c.bytes in
      let after = report d total c.at told true (write_chunk d.tmp_path c.bytes w) in
      elim e [
        | eof ↦ (after, none)
        | broken err ↦ (remove d.tmp_path after, some (codes "download read error: " ++ err))
      ]
]
read_body d (more c rest) downloaded told w = elim (fails_to_write c) [
  | some err ↦ (remove d.tmp_path w, some (codes "failed to write file: " ++ err))
  | none ↦
      let total = downloaded + length c.bytes in
      let next_told = if is_due c.at told false then c.at else told in
      read_body d rest total next_told
        (report d total c.at told false (write_chunk d.tmp_path c.bytes w))
]

abbrev pub tmp_of : Bytes → Bytes
tmp_of dest = dest ++ codes ".tmp"

unfoldable pub rename : Bytes → Bytes → World → World
rename from to w = record w { disk = insert to (content from w.disk) (Dict.delete from w.disk) }

-- After the loop: the file gets its name, unless an error ended the loop.
unfoldable pub finish_download : Bytes → Option Bytes → World × Option Bytes → World × Option Bytes
unfolding rename
finish_download dest rename_error (w, some err) = (w, some err)
finish_download dest (some err) (w, none) =
    (remove (tmp_of dest) w, some (codes "failed to rename temp file: " ++ err))
finish_download dest none (w, none) = (rename (tmp_of dest) dest w, none)

-- The error of the download, if any.
unfoldable pub download_with_progress :
    Bytes → Bytes → Bytes → ℕ → ℕ → Fetch → World → World × Option Bytes
unfolding read_body finish_download decimal
download_with_progress target url dest source_index source_total fetch w = elim fetch.dir_error [
  | some err ↦ (w, some err)
  | none ↦ elim fetch.answer [
    | inl err ↦ (w, some (codes "download request failed: " ++ err))
    | inr resp ↦ elim (resp.status_code == 200) [
      | false ↦ (w, some (codes "server returned status " ++ decimal resp.status_code))
      | true ↦ elim fetch.create_error [
        | some err ↦ (w, some (codes "failed to create temp file: " ++ err))
        | none ↦
            let d : Download = record {
              target = target;
              url = url;
              tmp_path = tmp_of dest;
              source_index = source_index;
              source_total = source_total;
              size = resp.content_length;
              start_time = fetch.started;
            } in
            let opened = record w { disk = insert (tmp_of dest) [] w.disk } in
            finish_download dest fetch.rename_error (read_body d resp.body 0 fetch.started opened)
      ]
    ]
  ]
]
