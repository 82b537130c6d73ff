-- ===== src/Sync.antt =====
-- store/sync.py: the verified-complete ranges of message ids of one channel.
pub mod Ranges
