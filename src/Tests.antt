-- ===== src/Tests.antt =====
-- Runs of the model at concrete inputs, and each theorem at an input that meets its hypotheses.
mod Instances
mod SpecificationTest
mod ConverterTest
mod RecordTest
mod SchemaTest
mod CacheTest
mod ConvertTest
mod WireTest
mod ProcessTest
mod MainTest
mod StartTest
mod BlameTest
mod StepsTest
mod TableTest
