-- ===== src/Lib.antt =====
-- Wisent stores a JSON document, with the CSV files that it names, as one flat block of shared memory:
-- an array of argument values, an array of their types, an array of expressions (a head and a range of
-- arguments) and a buffer of strings. `wisent::serializer::load` (Source/WisentSerializer.cpp) reads the
-- document twice. The first traversal counts expressions and the arguments of each layer of nesting; the
-- second, the class `JsonToWisent`, takes the SAX events of nlohmann::json and writes the block with the
-- functions of Source/WisentHelpers.h. The arguments of one expression lie side by side in the block of
-- their layer, and runs of at least five equal types are run-length encoded in the type array.
--
-- The files:
--   Prelude        numbers, lists, results of code that may fail, two's complement words
--   Helpers        Source/WisentHelpers.h. Helpers/Defs holds the functions; Access, Cells, Members, Text
--                  and Runs what they read and write; Sizes the memory that the block is given; Frame what a
--                  change of the block leaves alone
--   Json           a document, the events of `json::sax_parse`, and those of `json::parse` with a callback
--   Csv            Source/CsvLoading.hpp: `loadCsvData` with its conversions, and the test for a CSV name
--   Serializer     Source/WisentSerializer.cpp. JsonToWisent holds the class (one function per method),
--                  FirstPass the callback of the first traversal. Tree and Layers describe the format
--                  independently of the code, Stored says that a block holds a tree, Translate which tree
--                  a document stands for. TypeRuns, Open, Start and End are about single methods, Build
--                  about the calls that store a tree, Table and Strings about CSV files, Keys and Events
--                  about the handlers, Encode about a whole document, Arguments about the accessors;
--                  Counting about the first traversal and about both;
--                  Load holds `load` itself, over a segment, Load/Reallocations what `storeString`
--                  asks of the segment, and Load/Outcomes what `load` returns
--   Segment        Source/SharedMemorySegment.hpp and .cpp: Segment/Defs holds the class, Registry the map of
--                  segments, the current one, and `unload`, `free` and the beginning of `load` in
--                  Source/WisentSerializer.cpp; Mapped, Current, Lookup, Fresh and WellFormed what they do;
--                  Reachable is what any operations lead to, as a step relation
--   Bson           Source/BsonSerializer.cpp and `loadCsvDataToJson` in Source/CsvLoading.hpp. Columns holds
--                  the columns of a CSV file as JSON values, Objects what is asked of JSON objects, Document
--                  the replacement of CSV names in a document, Allocator `SharedMemoryAllocator`, and
--                  Serializer `loadAsBson`, `loadAsJson`, `unload` and `free`
--   Server         Source/WisentServer.cpp. Options holds the command line, Paths what a path says, Timings the
--                  averages, Serializers the interface to the serializers, Requests the handlers, Files the
--                  files of the command line, Exit the deletion at the end, Main all of `main`
--   Reader         Benchmarks/WisentBenchmarks.cpp: the iterator over the arguments of one type. Cells is about a
--                  list of cells, Types about the cells that the encoder writes, Columns about a block; Lookup
--                  is the lookup by key
--   Tests          a document, a CSV file and a segment, and the theorems applied to them
--
-- The state of an object is a record, a method a function from the old to the new one; what may throw,
-- fail an assertion or touch memory outside the block returns a `Result`. The block is `Root`: `words`
-- are the 64-bit words from `arguments[]` to the string buffer, which offsets in bytes address as in
-- the code, with the wrap-around of `size_t` written out. A reallocation keeps the contents, so that
-- `store_string` changes the block only; `load` then has the segment reallocated to the size of each
-- of the strings in turn, which may fail as the allocation may. What the allocation returns, an
-- address and the words that lie there, is a parameter. So are rapidcsv, as a `Document` of its
-- accessors, and `std::stod`, which yields the bits of a double. `std::stol` is modelled in base ten,
-- the only one used.
--
-- The counters of the encoder are plain numbers where each step of one comes with a word written to
-- memory, and so are the counts of the first traversal, which the theorems bound; the differences that
-- could wrap (`sub64`) are written out. The length of a run is taken modulo 2^32, as its parameter is.
-- All recursion is structural: on the document, the list of events, the rows, the columns, the
-- arguments of the command line or the number of positions; there is no fuel.
--
-- The functions of boost::interprocess are a parameter of the segments, with what their documentation
-- says as hypotheses (`Documented`); opening an object, truncating it and mapping it may throw. A
-- failed `assert` is a fault. References to segments are identities, which dangle once their entry is
-- erased.
--
-- Opening a file, with what the parser of nlohmann::json makes of its text, is a parameter of `load`
-- (`Files`), and so are the words that lie in the mapped memory. The theorems on CSV files suppose
-- that a document has a name for each of its columns and at least one column (`Shaped`).
--
-- For the BSON serializer the parser with a callback, the objects, `to_bson` and `operator<<` of
-- nlohmann::json are parameters (`Library`, `Objects`); that objects are sorted by key, and keep what
-- is set, is a hypothesis.
--
-- The server is over an interface of the serializers (`Serializers`); what the deletion at its end
-- needs of them is another (`Registry`), which the map of the segments fills. Requests come one after
-- another; which exceptions of a handler httplib catches is a parameter, and the server goes on after
-- these. How long a loading takes is a parameter, and the products of the averages are taken not to
-- overflow.
--
-- Not modelled: threads and output of the server; how a `std::basic_string` with the allocator stores
-- the text of `loadAsJson`; the benchmarks in Benchmarks/WisentBenchmarks.cpp, but for the lookup by
-- key and the iterator; the viewer and the scripts in other languages.
pub mod Prelude
pub mod Helpers
pub mod Json
pub mod Csv
pub mod Bson
pub mod Segment
pub mod Serializer
pub mod Server
pub mod Reader
mod Tests
