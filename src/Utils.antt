-- ===== src/Utils.antt =====
-- lib/utils.c: string helpers, hashes, url coding and guarded reads and writes.
pub mod Hash
pub mod Mime
pub mod Trim
pub mod Url
pub mod Guard
pub mod Decimal
