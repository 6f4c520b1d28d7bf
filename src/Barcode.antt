-- ===== src/Barcode.antt =====
-- The barcode reader of buddy3/buddy3.c: code tables, conversion of bar widths, detector.
pub mod Tables
pub mod Mirror
pub mod Bars
pub mod Widest
pub mod Scanner
pub mod Invariant
pub mod Detector
pub mod Stored
pub mod Readings
pub mod Chunk
pub mod Symbol
pub mod Symbols
pub mod Card
mod Tests
