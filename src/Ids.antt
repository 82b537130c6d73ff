-- ===== src/Ids.antt =====
-- ids.py: entity ids as texts `tg:<kind>:<id>`, and what a TL reference names.
pub mod Uri
pub mod Peer
pub mod Utf16
