-- ===== src/Log/Rotate.antt =====
-- RotatingFileWriter of internal/log/log.go. The files are those of a directory by their paths; what
-- the file system answers to a call is an argument.
use lynx_dns.Common.{
  ℕ, ◌+◌, ◌*◌, ◌≤◌, ◌≡◌, ◌⊎◌, inl, inr, refl, sym, ap, ◌∙◌, arith, Bool, true, false, ◌&&◌, Option,
  Option-cases, none, some, [], ◌∷◌, ◌++◌, Bytes, codes, ltb, if◌then◌else◌, length, length-append,
  take, Bool-cases, text_eq, text_eq_ne,
}
use lynx_dns.Common.Dict
use lynx_dns.Common.Dict.{
  Dict, lookup, insert, delete, lookup-insert, lookup-insert_self, lookup-delete,
}
use lynx_dns.Updater.Download.{content}
pub mod Bounded

-- `is_open` is whether r.file is a file that is open; it is never nil after NewRotatingFileWriter.
pub record RotatingFileWriter : Type 0 where
  pub is_open : Bool
  pub file_path : Bytes
  pub max_size : ℕ
  pub curr_size : ℕ

-- The writer and the files.
pub record Files : Type 0 where
  pub writer : RotatingFileWriter
  pub disk : Dict Bytes

-- What the calls of one Write meet: os.Rename and opening the file succeed or not, and the error of
-- the file's Write comes after some bytes, if there is one.
pub record Calls : Type 0 where
  pub renames : Bool
  pub opens : Bool
  pub write_error : Option ℕ

-- The file is made if it is missing, and its size is read.
unfoldable pub open_file : Bool → Files → Files
open_file opens f =
    let w = f.writer in
    let text = content w.file_path f.disk in
    if opens
    then record {
      writer = record w { is_open = true; curr_size = length text };
      disk = insert w.file_path text f.disk;
    }
    else f

-- A maximum that is not positive counts as 0, which stands for none.
unfoldable pub new_rotating_file_writer : Bytes → ℕ → Bool → Dict Bytes → Option Files
unfolding open_file
new_rotating_file_writer path max_size_mb opens disk =
    let f : Files = record {
      writer = record {
        is_open = false;
        file_path = path;
        max_size = max_size_mb * 1024 * 1024;
        curr_size = 0;
      };
      disk = disk;
    } in
    if opens then some (open_file true f) else none

abbrev pub backup_path : RotatingFileWriter → Bytes
backup_path w = w.file_path ++ codes ".1"

-- The file is closed, and takes the place of the backup, if it can be renamed.
unfoldable pub rotate : Calls → Files → Files
unfolding open_file
rotate calls f =
    let w = f.writer in
    let moved = insert (backup_path w) (content w.file_path f.disk) (delete w.file_path f.disk) in
    open_file calls.opens record {
      writer = record w { is_open = false };
      disk = if calls.renames then moved else f.disk;
    }

abbrev pub is_over : Bytes → RotatingFileWriter → Bool
is_over p w = ltb 0 w.max_size && ltb w.max_size (w.curr_size + length p)

abbrev pub append_bytes : Bytes → Files → Files
append_bytes p f =
    let w = f.writer in
    record f { disk = insert w.file_path (content w.file_path f.disk ++ p) f.disk }

-- After the rotation: the bytes are written, and counted unless an error comes. A file that is
-- closed refuses them.
unfoldable pub write_file : Calls → Bytes → Files → Files × Bool
write_file calls p f =
    let w = f.writer in
    let done = append_bytes p f in
    elim w.is_open [
      | false ↦ (f, false)
      | true ↦ elim calls.write_error [
        | some n ↦ (append_bytes (take n p) f, false)
        | none ↦ (record done { writer = record w { curr_size = w.curr_size + length p } }, true)
      ]
    ]

-- The files, and whether the bytes were written.
unfoldable pub write : Calls → Bytes → Files → Files × Bool
unfolding rotate write_file
write calls p f = write_file calls p (if is_over p f.writer then rotate calls f else f)

unfoldable pub close : Files → Files
close f = let w = f.writer in record f { writer = record w { is_open = false } }
