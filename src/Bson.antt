-- ===== src/Bson.antt =====
-- Source/BsonSerializer.cpp and `loadCsvDataToJson` in Source/CsvLoading.hpp: a document whose CSV
-- files are replaced by JSON values, written to shared memory as BSON.
pub mod Objects
pub mod Columns
pub mod Document
pub mod Allocator
pub mod Serializer
