-- ===== src/Updater.antt =====
-- internal/updater/updater.go: the sources of a list, the download with its progress, the change to
-- the next source, and the schedule.
pub mod Messages
pub mod Download
pub mod Failover
pub mod Schedule
pub mod Served
mod Runs
