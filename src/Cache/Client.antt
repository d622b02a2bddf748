-- ===== src/Cache/Client.antt =====
-- common/HistogramConverter.cpp with common/HistogramCache.cpp: the converter on the cache.
use mozilla_telemetry.Prelude.{◌≡◌, subst, Bool, Option, some, Bytes, c_str}
use mozilla_telemetry.Prelude.Int.{ℤ}
use mozilla_telemetry.Outcome.{Outcome, ok, throw, fault}
use mozilla_telemetry.Json.{Members, object, Rapidjson}
use mozilla_telemetry.Specification.{HistogramSpecification}
use mozilla_telemetry.Converter.Histograms.{AllResolve, Rewrites}
use mozilla_telemetry.Converter.Document.{FindHistogram, convert_histogram_data}
use mozilla_telemetry.Converter.Document.Steps.{IsReady}
use mozilla_telemetry.Converter.Document.Versions.{IsUpdate, convert-IsUpdate}
use mozilla_telemetry.Cache.{HistogramCache, Network}
use mozilla_telemetry.Cache.Load.{find_histogram}
use mozilla_telemetry.Cache.Invariant.{IsSound, IsSoundResult, find_histogram-IsSound}

module _ (J : Rapidjson) (lexical_cast : Bytes → Option ℤ) {W : Type 0} (N : Network W) where
  abbrev as_call :
      Outcome (Option HistogramSpecification) × (HistogramCache × W)
      → Outcome ((HistogramCache × W) × Option HistogramSpecification)
  as_call (ok o, hw) = ok (hw, o)
  as_call (throw what, hw) = throw what
  as_call (fault kind, hw) = fault kind

  -- `aCache.FindHistogram(revision)` as the converter calls it
  abbrev pub cached : FindHistogram (HistogramCache × W)
  cached hw key = as_call (find_histogram J lexical_cast N key hw)

  -- The converter on a sound cache that has or gets a specification for the revision of a document
  -- of version 1 with histograms whose names can be looked up: it returns the document with the
  -- histograms rewritten by that specification and its version set, and a cache that is sound.
  pub convert_cached :
      (hw hw' : HistogramCache × W) (top : Members J.Double) (revision : Bytes)
      (ms : Members J.Double) (spec : HistogramSpecification)
      → IsSound hw.0
      → IsReady J top revision ms
      → find_histogram J lexical_cast N (c_str revision) hw ≡ (ok (some spec), hw')
      → AllResolve J spec ms
      → (top' : Members J.Double) × (ms' : Members J.Double) × (r : Bool) × (convert_histogram_data
            J cached hw
            (object top)
          ≡ ok (record { cache = hw'; doc = object top'; result = r }))
        × Rewrites J spec ms ms' r
        × IsUpdate J top top' ms' r
        × IsSound hw'.0
  convert_cached hw hw' top revision ms spec sound ready found safe =
      let (good, sound') =
        subst IsSoundResult found
          (find_histogram-IsSound J lexical_cast N (c_str revision) hw.0 hw.1 sound) in
      let (top', ms', r, run, rel, update) =
        convert-IsUpdate J cached hw top revision ms hw' spec ready (rw found) good safe in
      (top', ms', r, run, rel, update, sound')
