-- ===== src/Log.antt =====
-- internal/log/log.go: the levels, the removal of escape sequences, the file that rotates, and the
-- logger with its queue and its subscribers.
pub mod Level
pub mod Ansi
pub mod Rotate
pub mod Logger
mod Runs
