-- ===== src/Csv.antt =====
-- Source/CsvLoading.hpp: reading a column of a CSV document cell by cell. rapidcsv is third-party
-- code: a document is what its accessors return. Floating point is not computed with, so `std::stod`
-- is a parameter that returns the bit pattern and the number of characters consumed.
mod Defs
unfoldable pub use Defs.*
