-- ===== src/Import.antt =====
-- src/services/import/parse.ts: spreadsheets as grids of text; and resolveMapping of
-- src/services/import/mapping.ts, and its identity index.
pub mod Csv
pub mod Written
pub mod ReadBack
pub mod Labels
pub mod Grid
pub mod Shape
pub mod Header
pub mod HeaderCells
pub mod Mapping
pub mod Resolved
pub mod Accepted
pub mod Identity
pub mod Matched
pub mod Found
mod Examples
mod MappingExamples
mod MatchExamples
