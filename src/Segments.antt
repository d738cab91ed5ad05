-- ===== src/Segments.antt =====
-- core/download_providers_oop/segmented_provider.py: `SegmentedProvider`, the download of a file by
-- ranges of bytes that several connections fetch, or by one stream.
-- What the server answers is a parameter; so are the checks of its address.
pub mod Chunks
pub mod Ranges
pub mod Fetch
pub mod Pool
pub mod Resume
pub mod Simple
mod Tests
