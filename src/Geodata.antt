-- ===== src/Geodata.antt =====
-- internal/geodata/geodata.go: the geographic lists and the advertisement filter, the progress of
-- downloads and the history of updates.
pub mod Manager
pub mod Match
pub mod Text
pub mod Wire
pub mod Address
pub mod Protobuf
pub mod Load
pub mod Filter
mod Runs
