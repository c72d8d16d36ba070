-- ===== src/Http.antt =====
-- The HTTP server's pure parts: src/server/Range.hpp and the helpers of src/server/Util.hpp and
-- src/server/Service.cpp that read and write header fields, paths and pages.
pub mod Range
pub mod Url
