-- ===== src/Memory.antt =====
-- memory.py
pub mod Protect
pub mod Region
pub mod Bisect
pub mod Pager
pub mod Manager
pub mod Layout
pub mod Insert
pub mod Count
pub mod Contract
pub mod Commit
pub mod Ledger
pub mod Decommit
pub mod Valid
pub mod Range
pub mod Committing
pub mod Decommitting
pub mod Protecting
pub mod Align
pub mod RegionInfo
pub mod Release
pub mod Torn
pub mod Remove
pub mod Splitting
pub mod Releasing
pub mod History
pub mod Query
pub mod Spans
pub mod Querying
pub mod Gaps
pub mod Steps
pub mod Finding
pub mod Describing
pub mod Tiles
pub mod Mapping
mod Examples
mod QueryExamples
pub mod Reserving
