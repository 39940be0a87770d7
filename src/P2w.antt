-- ===== src/P2w.antt =====
-- The .p2w vault export format: web/src/utils/p2wFormat.ts.
pub mod Format
pub mod Writer
pub mod Reader
pub mod Fields
pub mod Padding
pub mod Build
pub mod Parse
pub mod RoundTrip
pub mod File
mod Examples
