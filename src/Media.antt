-- ===== src/Media.antt =====
-- The files of messages: their keys, the sink, the stores, and the `media` phase.
pub mod Keys
pub mod Content
pub mod Sink
pub mod Store
pub mod Phase
