-- ===== src/Inputs.antt =====
-- What the operator gives: targets, and the list of messages of `fetch-from-list`.
pub mod Scan
pub mod Targets
pub mod Entry
pub mod Csv
pub mod ListFile
pub mod Classify
pub mod Segments
