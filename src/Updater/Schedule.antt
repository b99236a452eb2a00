-- ===== src/Updater/Schedule.antt =====
-- internal/updater/updater.go: the configuration, the schedule, and the updates of the lists. The
-- package cron is third-party code: what it needs of it is whether it accepts an expression.
use lynx_dns.Common.{
  ℕ, Bool, true, false, not, ◌&&◌, Option, none, some, List, ◌∷◌, ◌++◌, Bytes, codes, text_eq,
  to_lower, ◌==◌, if◌then◌else◌, length,
}
use lynx_dns.Geodata.Manager.{geosite_path, geoip_path, ad_filter_path}
use lynx_dns.Geodata.Load.{load_geosite, load_geoip, load_ad_filter}
use lynx_dns.Updater.Download.{World}
use lynx_dns.Updater.Failover.{
  Attempt, UpdateResult, updated, not_updated, crashed, build_url_list, update_with_failover,
}

pub record UpdaterConfig : Type 0 where
  pub auto_update : Bool
  pub update_cron : Bytes
  pub geosite_url : Bytes
  pub geosite_backup_url : List Bytes
  pub geoip_url : Bytes
  pub geoip_backup_url : List Bytes
  pub ad_filter_url : Bytes
  pub ad_filter_backup_url : List Bytes

-- A cron.Cron: the expression of its job, if one was added, and whether it was started.
pub record Cron : Type 0 where
  pub job : Option Bytes
  pub running : Bool

pub record Updater : Type 0 where
  pub cfg : UpdaterConfig
  pub cron : Option Cron

module _ (accepts : Bytes → Bool) where
  -- cron.New and AddFunc
  unfoldable pub cron_for : UpdaterConfig → Option Cron
  cron_for cfg =
      if cfg.auto_update && not (length cfg.update_cron == 0)
      then some record {
        job = if accepts cfg.update_cron then some cfg.update_cron else none;
        running = false;
      }
      else none

  unfoldable pub new_updater : UpdaterConfig → Updater
  unfolding cron_for
  new_updater cfg = record { cfg = cfg; cron = cron_for cfg }

  -- The old schedule is stopped and dropped; the new one is started if its expression is accepted.
  unfoldable pub reconfigure : UpdaterConfig → Updater → Updater
  unfolding cron_for
  reconfigure cfg u = record {
    cfg = cfg;
    cron = elim (cron_for cfg) [
      | none ↦ none
      | some c ↦ some (if accepts cfg.update_cron then record c { running = true } else c)
    ];
  }

unfoldable pub set_running : Bool → Updater → Updater
set_running b u = record u {
  cron = elim u.cron [ none ↦ none | some c ↦ some (record c { running = b }) ];
}

unfoldable pub start : Updater → Updater
unfolding set_running
start u = set_running true u

unfoldable pub stop : Updater → Updater
unfolding set_running
stop u = set_running false u

-- What the sources of the three lists answer, and the time.
pub record Sources : Type 0 where
  pub now : ℕ
  pub geosite_attempts : ℕ → Attempt
  pub geoip_attempts : ℕ → Attempt
  pub ad_filter_attempts : ℕ → Attempt

unfoldable pub update_geosite : Updater → Sources → World → World × UpdateResult
unfolding build_url_list update_with_failover geosite_path load_geosite
update_geosite u s w =
    update_with_failover (codes "geosite")
      (build_url_list u.cfg.geosite_url u.cfg.geosite_backup_url) (geosite_path w.manager)
      load_geosite s.now s.geosite_attempts w

unfoldable pub update_geoip : Updater → Sources → World → World × UpdateResult
unfolding build_url_list update_with_failover geoip_path load_geoip
update_geoip u s w =
    update_with_failover (codes "geoip") (build_url_list u.cfg.geoip_url u.cfg.geoip_backup_url)
      (geoip_path w.manager) load_geoip s.now s.geoip_attempts w

unfoldable pub update_ad_filter : Updater → Sources → World → World × UpdateResult
unfolding build_url_list update_with_failover ad_filter_path load_ad_filter
update_ad_filter u s w =
    update_with_failover (codes "ad_filter")
      (build_url_list u.cfg.ad_filter_url u.cfg.ad_filter_backup_url) (ad_filter_path w.manager)
      load_ad_filter s.now s.ad_filter_attempts w

-- errors.Join: the texts in their order, a newline between two of them; none for no error.
unfoldable pub join_errors : UpdateResult → UpdateResult → UpdateResult
join_errors crashed r = crashed
join_errors updated r = r
join_errors (not_updated e) updated = not_updated e
join_errors (not_updated e) (not_updated f) = not_updated (e ++ (10 ∷ f))
join_errors (not_updated e) crashed = crashed

-- The second update runs unless the first ended the program.
unfoldable pub and_then :
    World × UpdateResult → (World → World × UpdateResult) → World × UpdateResult
unfolding join_errors
and_then (w, crashed) next = (w, crashed)
and_then (w, updated) next = let r = next w in (r.0, join_errors updated r.1)
and_then (w, not_updated e) next = let r = next w in (r.0, join_errors (not_updated e) r.1)

unfoldable pub update_all : Updater → Sources → World → World × UpdateResult
unfolding and_then update_geosite update_geoip update_ad_filter
update_all u s w =
    and_then (and_then (update_geosite u s w) (update_geoip u s)) (update_ad_filter u s)

unfoldable pub update_target : Bytes → Updater → Sources → World → World × UpdateResult
unfolding update_geosite update_geoip update_ad_filter update_all to_lower text_eq
update_target target u s w =
    let t = to_lower target in
    if text_eq t (codes "geosite")
    then update_geosite u s w
    else if text_eq t (codes "geoip")
    then update_geoip u s w
    else if text_eq t (codes "ad_filter")
    then update_ad_filter u s w
    else if text_eq t (codes "all")
    then update_all u s w
    else (w, not_updated (codes "unknown update target: " ++ target))
