-- ===== src/Lib.antt =====
-- The telemetry converter: a program that reads logs of telemetry records, converts their
-- histograms by a specification, and hands them to a writer.
--
-- Parts. `Read` of common/TelemetryRecord.cpp takes the next record off a log: it looks for a
-- separator and a header, reads the path and the data, inflates the data if need be, and parses it.
-- `ConvertHistogramData` of common/HistogramConverter.cpp asks the cache for the specification of
-- the record's revision and rewrites its histograms by it. common/HistogramSpecification.cpp
-- loads such a specification from JSON. `ProcessFile` of convert.cpp does both for every record of
-- a file, asks the schema (common/TelemetrySchema.cpp) for the folder of the document and hands it to
-- the writer (common/RecordWriter.cpp). `main` does this for the files of a directory, and behind
-- each of them `WriteMessage` of common/Metric.cpp writes the metrics of the objects to a log.
--
-- Files.
-- Prelude: shared names; numbers, lists, bytes, signed integers. Outcome: results that may throw a
-- std::exception or be undefined in C++. Exec: methods that change an object and may throw.
-- Constants: common/TelemetryConstants.in.cpp. Metric: common/Metric.h and .cpp, `ConstructField`;
-- a double is a whole number or the quotient that it comes about by.
-- Json: the documents of common/Common.h; rapidjson is the parameter `Rapidjson`: its parser, its
-- numbers, and which member `operator[]` picks.
-- Stream: std::istream, with a position as the bytes left from it on.
-- Specification: `HistogramDefinition` is `new_definition`, `GetBucketIndex` is `get_bucket_index`,
-- `LoadDefinitions` is `load_definitions`, `GetDefinition` is `get_definition`.
-- Converter: `RewriteValues` is `rewrite_values`, `RewriteHistogram` is `rewrite_histogram`.
-- Converter/Document: `ConvertHistogramData` is `convert_histogram_data`; `FindHistogram` is an
-- argument.
-- Record: `FindRecord` and `ReadHeader` are `find_record` and `read_header`. Record/Inflate:
-- `Inflate` is `inflate_data`; zlib is the parameter `Zlib`. Record/Read: `ProcessRecord` and `Read`
-- are `process_record` and `read_record`.
-- Schema: `TelemetryDimension` is `new_dimension`, `LoadDimensions` is `load_dimensions`, `SafePath`
-- is `safe_path`; Schema/DimensionPath: `GetDimensionPath` is `get_dimension_path`. boost paths and
-- doubles are the parameter `Boost`.
-- Cache: the constructor of `HistogramCache` is `new_cache`; Cache/Response: the parts of an HTTP
-- response; Cache/Load: `LoadHistogram` and `FindHistogram` are `load_histogram` and
-- `find_histogram`, and Cache/Client hands the latter to the converter. The network, the temporary
-- files and MD5 are the parameter `Network`.
-- Writer: `RecordWriter` of common/RecordWriter.h. `Sink` is what `ProcessFile` needs of a writer; the
-- class is one, and one that keeps what it is given shows what it was given.
-- Convert: `ReadConfig` of convert.cpp is `read_config`; the directories are the parameter
-- `Directories`. Convert/Process: `ProcessFile` is `process_file`, with the text of a document as the
-- parameter `write_json`; Process/Log holds the reference that it is compared with.
-- Convert/Main: `RollLog` is `roll_log`, and the loop of `main` is `main_loop`, by its first rounds;
-- the file system, the clock, random numbers, signals and inotify are the parameter `Host`.
-- Convert/Main/Start: `main` from its arguments to its exit code is `main`, with the loop by its first
-- rounds; Start/Batch compares its batch mode with the reference, by Main/Logs.
-- Wire: the encoding of `Header` in common/message.pb.cc: `SerializeWithCachedSizes` is `serialize`
-- and `ByteSize` is `byte_size`; protobuf is the parameter `WireFormat`. Wire/Framing: `WriteMessage`
-- is `write_message`, over an interface to the encoding of messages, `Encoder`; a reader of the
-- frames, from the format alone, stands beside it. Wire/Encoding: `SerializeWithCachedSizes` and
-- `ByteSize` of `Field` and `Message` are `serialize_field`, `field_size`, `serialize_message` and
-- `message_size`, over the parameter `MessageFormat`, and make such an `Encoder`.
-- `GetMetrics` of a class is `get_metrics` of Record/Report, Schema/DimensionPath, Cache and
-- Convert/Process.
-- Specification/Order: a table without its order, as a quotient; Converter/Order: the conversion does
-- not see it. Specification/Hashing: `Cstring_hash` and `Cstring_equal_to`, and `LoadDefinitions` over
-- the interface `UnorderedMap` (`load_table`), which a table of buckets fills. Specification/Ownership:
-- the blocks of memory that a specification allocates, `load_owned`, and its destructor, `destroy`.
-- Convert/Main/Signals: `gStop` and `shutdown`. Convert/Main/Steps: the daemon as steps, within and
-- between which signals come, and between which files change; Steps/Due and Steps/Stopped: a signal
-- ends it. Convert/Main/Keeping: what the parts of a round keep, the loop keeps.
-- The modules named Rounds are about the rounds that loops take, and those named Faults and Blame about
-- the faults of calls, over what may be said of a fault (Outcome/Ensures).
-- Tests: runs, and each theorem at a concrete input.
--
-- State. An object is a record of its fields, and a method returns the new record. A char buffer
-- is its bytes, and every write is checked against its size, as the parser's reads are against its NUL.
-- A signal comes during a call of the system; the place between two calls does not matter, since only
-- the loop of `main` reads `gStop`. Hash tables are association lists; for the
-- table of definitions, Specification/Hashing compares the list with any hash table.
--
-- Bounds and fuel. `FindRecord` recurs on the bytes left. `Inflate` has two rounds more than the
-- largest array that `new` can give, and its buffer doubles in each round but the first. `Read` has
-- two rounds more than bytes left, and the loop of `ProcessFile` one round more than bytes in the
-- file: a record takes at least one. An int is checked against its 32-bit range where the code checks
-- it, a long becomes an int by its low 32 bits, and `avail_out` and `mInflateLength` are taken
-- modulo 2^32. The position in an array of JSON values is taken to fit an int, and a counter of the
-- metrics to stay below 2^53; the sizes of messages are taken to fit an int.
--
-- A log that has not failed takes every byte that is written to it.
--
-- Not modelled: the reflection and parsing code of common/message.pb.cc, which is generated, and its
-- encoders into an array, which do what the others do; messages to cout and cerr; destructors but that
-- of a specification; that the handlers of signals are installed; and what reads of uninitialised
-- memory give beyond one unknown byte, `junk`.
mod Prelude
pub mod Outcome
pub mod Json
pub mod Specification
pub mod Constants
pub mod Converter
pub mod Exec
pub mod Stream
pub mod Metric
pub mod Record
pub mod Schema
pub mod Cache
pub mod Writer
pub mod Convert
pub mod Wire
mod Tests
