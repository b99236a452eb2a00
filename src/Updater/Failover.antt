-- ===== src/Updater/Failover.antt =====
-- updateWithFailover of internal/updater/updater.go, and the updates of the three lists.
use lynx_dns.Common.{
  ℕ, zero, suc, ◌+◌, ◌-◌, Bool, true, false, Option, none, some, ◌⊎◌, inl, inr, List, [], ◌∷◌, ◌++◌,
  Bytes, codes, text_eq, to_lower, ◌==◌, ◌||◌, if◌then◌else◌, length, ℤ, pos, negsuc,
}
use lynx_dns.Common.Dict
use lynx_dns.Common.Dict.{Dict, lookup, insert}
use lynx_dns.Geodata.Manager.{
  Manager, DownloadProgress, UpdateHistoryEntry, set_progress, add_history, geosite_path,
  geoip_path, ad_filter_path,
}
use lynx_dns.Geodata.Load.{
  File, FileInfo, LoadResult, load_ok, load_failed, load_panicked, load_geosite, load_geoip,
  load_ad_filter,
}
use lynx_dns.Rules.Ident.{decimal}
use lynx_dns.Updater.Messages.{
  loading_message, from_source, downloads, source_word, failed_word, load_failed_word, success_word,
  completed_message, all_word, sources_failed, of_total,
}
use lynx_dns.Updater.Download.{Fetch, World, download_with_progress}
pub mod Turn
pub mod Sources
pub mod Loaders
pub mod View

-- The primary source, and the backups that are neither empty nor the primary again.
unfoldable pub add_backups : Bytes → List Bytes → List Bytes
unfolding text_eq
add_backups primary [] = []
add_backups primary (b ∷ bs) =
    let rest = add_backups primary bs in
    if length b == 0 || text_eq b primary then rest else b ∷ rest

unfoldable pub build_url_list : Bytes → List Bytes → List Bytes
unfolding add_backups
build_url_list primary backups = primary ∷ add_backups primary backups

-- What one source meets: the network and the files, what reading the new file answers, and the time
-- and the duration that the history records.
pub record Attempt : Type 0 where
  pub fetch : Fetch
  pub stat_error : Option Bytes
  pub read_error : Option Bytes
  pub spare : Bytes
  pub loaded_at : ℕ
  pub timestamp : ℕ
  pub duration : ℕ

pub data UpdateResult : Type 0 where
  updated : UpdateResult
  not_updated : Bytes → UpdateResult
  crashed : UpdateResult

-- os.Stat and os.ReadFile of a path that holds the bytes, if any.
unfoldable pub read_file : Option Bytes → Attempt → File
read_file found a = record {
  stat = elim a.stat_error [
    | some err ↦ inl err
    | none ↦ elim found [
      | none ↦ inl (codes "no such file or directory")
      | some text ↦
          let info : FileInfo = record { file_size = length text; mod_time = a.loaded_at } in
          inr info
    ]
  ];
  contents = elim a.read_error [
    | some err ↦ inl err
    | none ↦ elim found [
      | none ↦ inl (codes "no such file or directory")
      | some text ↦ inr (text, a.spare)
    ]
  ];
  now = a.loaded_at;
}

abbrev pub tell : Bytes → Bytes → Bytes → ℤ → ℕ → ℕ → Bytes → World → World
tell target status url percent i total message w =
    let p : DownloadProgress = record {
      target = target;
      status = status;
      url = url;
      percent = percent;
      downloaded = 0;
      size = pos 0;
      speed = 0;
      source_index = i;
      source_total = total;
      message = message;
    } in
    record w { manager = set_progress target p w.manager }

abbrev pub entry_of : Bytes → Bytes → Bytes → Bytes → Attempt → UpdateHistoryEntry
entry_of target url status message a = record {
  target = target;
  url = url;
  status = status;
  message = message;
  timestamp = a.timestamp;
  duration_ms = pos a.duration;
}

abbrev pub record_entry : Bytes → Bytes → Bytes → Bytes → Attempt → World → World
record_entry target url status message a w = record w {
  manager = add_history (entry_of target url status message a) w.manager;
}

-- What one source comes to.
pub data Tried : Type 0 where
  worked : Tried
  failed : Bytes → Tried
  died : Tried

-- The end of the loop's body, by what loadFunc returns; `n` is i + 1.
unfoldable pub settle : Bytes → ℕ → ℕ → Bytes → Attempt → LoadResult → World → World × Tried
unfolding set_progress add_history of_total
settle target n total url a load_ok w = (
  tell target (codes "completed") url (pos 100) n total completed_message (
      record_entry target url (codes "success") (success_word ++ of_total n total ++ codes ")") a
        w),
  worked,
)
settle target n total url a (load_failed err) w =
    (record_entry target url (codes "failed") (load_failed_word ++ err) a w, failed err)
settle target n total url a load_panicked w = (w, died)

-- After the download, by its error; `load` is the function that reads the file.
unfoldable pub after_download :
    Bytes
    → Bytes
    → (File → Manager → Manager × LoadResult)
    → ℕ
    → ℕ
    → Bytes
    → Attempt
    → World × Option Bytes
    → World × Tried
unfolding settle read_file set_progress add_history of_total
after_download target dest load n total url a (w, some err) = (
  record_entry target url (codes "failed") (source_word ++ of_total n total ++ failed_word ++ err) a
      w,
  failed err,
)
after_download target dest load n total url a (w, none) =
    let loading = tell target (codes "loading") url (pos 100) n total loading_message w in
    let r = load (read_file (lookup dest loading.disk) a) loading.manager in
    settle target n total url a r.1 (record loading { manager = r.0 })

-- The body of the loop at the source `i`, counted from 0.
unfoldable pub try_source :
    Bytes
    → Bytes
    → (File → Manager → Manager × LoadResult)
    → ℕ
    → ℕ
    → Bytes
    → Attempt
    → World
    → World × Tried
unfolding set_progress of_total download_with_progress after_download
try_source target dest load total i url a w =
    let n = suc i in
    let begun =
      tell target (codes "downloading") url (pos 0) n total
        (from_source ++ of_total n total ++ downloads) w in
    after_download target dest load n total url a
      (download_with_progress target url dest i total a.fetch begun)

-- After the last source the progress is "failed"; the last error is quoted.
unfoldable pub exhausted : Bytes → ℕ → Bytes → World → World × UpdateResult
unfolding decimal set_progress
exhausted target total last_err w = (
  tell target (codes "failed") [] (pos 0) 0 0 (all_word ++ decimal total ++ sources_failed) w,
  not_updated (
      target
      ++ codes " update failed: all "
      ++ decimal total
      ++ codes " sources exhausted, last error: "
      ++ last_err),
)

-- The loop over the sources from the source `i`, with the last error.
unfoldable pub try_sources :
    Bytes
    → Bytes
    → (File → Manager → Manager × LoadResult)
    → ℕ
    → (ℕ → Attempt)
    → ℕ
    → List Bytes
    → Bytes
    → World
    → World × UpdateResult
unfolding try_source exhausted
try_sources target dest load total attempts i [] last_err w = exhausted target total last_err w
try_sources target dest load total attempts i (url ∷ urls) last_err w =
    let t = try_source target dest load total i url (attempts i) w in
    elim t.1 [
      | worked ↦ (t.0, updated)
      | died ↦ (t.0, crashed)
      | failed err ↦ try_sources target dest load total attempts (suc i) urls err t.0
    ]

-- An update with no source at all, at the time `now`.
unfoldable pub not_configured : Bytes → ℕ → World → World × UpdateResult
unfolding add_history
not_configured target now w =
    let err = target ++ codes " URL not configured" in
    let e : UpdateHistoryEntry = record {
      target = target;
      url = [];
      status = codes "failed";
      message = err;
      timestamp = now;
      duration_ms = pos 0;
    } in
    (record w { manager = add_history e w.manager }, not_updated err)

unfoldable pub update_with_failover :
    Bytes
    → List Bytes
    → Bytes
    → (File → Manager → Manager × LoadResult)
    → ℕ
    → (ℕ → Attempt)
    → World
    → World × UpdateResult
unfolding try_sources not_configured
update_with_failover target [] dest load now attempts w = not_configured target now w
update_with_failover target (url ∷ urls) dest load now attempts w =
    let run = try_sources target dest load (suc (length urls)) attempts 0 (url ∷ urls) [] w in
    if length url == 0 then not_configured target now w else run
