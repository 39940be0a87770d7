-- ===== src/ImportExport.antt =====
-- Import and export of other managers' files: web/src/utils/importExport.ts.
pub mod Csv
pub mod Import
pub mod Export
pub mod Restored
pub mod Choice
pub mod Zip
mod Examples
