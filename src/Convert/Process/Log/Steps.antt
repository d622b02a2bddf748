-- ===== src/Convert/Process/Log/Steps.antt =====
-- convert.cpp: one round of the loop of `ProcessFile` on a record of a log.
use mozilla_telemetry.Prelude.{
  ℕ, ◌+◌, ◌≡◌, refl, sym, ap, subst, true, false, Bool-cases, inl, inr, List, [], ◌∷◌, ◌++◌,
  append-nil, length, Bytes, c_str,
}
use mozilla_telemetry.Outcome.{ok, >>=-eq-ok}
use mozilla_telemetry.Exec.{Exec}
use mozilla_telemetry.Json.{Rapidjson, Value}
use mozilla_telemetry.Record.{TelemetryRecord}
use mozilla_telemetry.Record.Inflate.{Zlib}
use mozilla_telemetry.Record.Read.{get_path, get_document}
use mozilla_telemetry.Converter.Document.{FindHistogram, Converted, convert_histogram_data}
use mozilla_telemetry.Schema.{Boost}
use mozilla_telemetry.Schema.DimensionPath.{get_dimension_path}
use mozilla_telemetry.Writer.{collector}
use mozilla_telemetry.Convert.Process.{
  Run, count_processed, count_failed, add_out, take_uuid, line, with_converted, deliver,
  process_one,
}
use mozilla_telemetry.Convert.Process.Log.{Entry, Handled, handle, place, text_of}

pub ok_inj : {A : Type 0} {a b : A} → ok a ≡ ok b → a ≡ b
ok_inj h = cc

module _ (J : Rapidjson) (Z : Zlib) (memory junk : ℕ) (B : Boost J.Double) {C : Type 0}
    (find_histogram : FindHistogram C) (write_json : Value J.Double → Bytes) where
  open J use {Double, parse}
  open B use {FsPath}

  abbrev pub Collecting : Type 0
  Collecting = Run Double C (List (FsPath × Bytes))

  abbrev pub one : Exec Collecting (Unit {0})
  one = process_one J Z memory junk B find_histogram write_json (collector FsPath)

  -- What the records that came to `h` have changed.
  pub record Handles (r r' : Collecting) (h : Handled J B find_histogram write_json) (n : ℕ)
      : Type 0 where
    pub cache : r'.cache ≡ h.0
    pub schema : r'.schema ≡ h.1
    pub writer : r'.writer ≡ r.writer ++ h.2
    pub processed : r'.metrics.records_processed.value ≡ r.metrics.records_processed.value + n

  line-text_of :
      (reader : TelemetryRecord Double) (path : Bytes)
      → get_path reader ≡ c_str path
      → line J Z memory junk B find_histogram write_json (collector FsPath) reader
        ≡ text_of J B find_histogram write_json path (get_document reader)
  unfolding line
  line-text_of reader path e =
      ap (λ (s : Bytes). take_uuid s ++ (9 ∷ (write_json (get_document reader) ++ (10 ∷ [])))) e

  abbrev delivered : Collecting → FsPath → Collecting
  delivered r path =
      let text = line J Z memory junk B find_histogram write_json (collector FsPath) r.reader in
      count_processed (
        add_out (length text) (record r {
          schema = (get_dimension_path J B (get_document r.reader) r.schema).1;
          writer = r.writer ++ ((path, text) ∷ []);
        }))

  deliver_lem :
      (r : Collecting) (path : FsPath)
      → (get_dimension_path J B (get_document r.reader) r.schema).0 ≡ ok path
      → deliver J Z memory junk B find_histogram write_json (collector FsPath) r
        ≡ (ok tt, delivered r path)
  unfolding deliver
  deliver_lem r path found = rw (found, deliver)

  -- What a round changes of the reader is its document.
  abbrev pub KeepsReader : TelemetryRecord Double → TelemetryRecord Double → Type 0
  KeepsReader r r' = r' ≡ record r { document = r'.document }

  accepted :
      (r : Collecting) (path : Bytes) (c : Converted C Double)
      (h : Handled J B find_histogram write_json)
      → get_path r.reader ≡ c_str path
      → convert_histogram_data J find_histogram r.cache (get_document r.reader) ≡ ok c
      → c.result ≡ true
      → place J B find_histogram write_json path c r.schema ≡ ok h
      → (r' : Collecting) × (one r ≡ (ok tt, r'))
        × Handles r r' h 1
        × KeepsReader r.reader r'.reader
  unfolding process_one get_document get_path
  accepted r path c h p made fine placed =
      let r₁ = with_converted J Z memory junk B find_histogram write_json (collector FsPath) c r in
      let (folder, found, e) = >>=-eq-ok _ (get_dimension_path J B c.doc r.schema).0 placed in
      let text = line-text_of r₁.reader path p in
      (
        delivered r₁ folder,
        rw (made, fine, process_one) (deliver_lem r₁ folder found),
        record {
          cache = ap (λ (x : Handled J B find_histogram write_json). x.0) (ok_inj e);
          schema = ap (λ (x : Handled J B find_histogram write_json). x.1) (ok_inj e);
          writer =
              rw text
                (ap (λ (x : Handled J B find_histogram write_json). r.writer ++ x.2) (ok_inj e));
          processed = refl;
        },
        refl,
      )

  refused :
      (r : Collecting) (c : Converted C Double)
      → convert_histogram_data J find_histogram r.cache (get_document r.reader) ≡ ok c
      → c.result ≡ false
      → (r' : Collecting) × (one r ≡ (ok tt, r'))
        × Handles r r' (c.cache, r.schema, []) 1
        × KeepsReader r.reader r'.reader
  unfolding process_one get_document
  refused r c made bad = (
    count_processed (
        count_failed
          (with_converted J Z memory junk B find_histogram write_json (collector FsPath) c r)),
    rw (made, bad, process_one),
    record { cache = refl; schema = refl; writer = sym (append-nil r.writer); processed = refl },
    refl,
  )

  -- The body of the loop does to its state what the reference does for the record.
  pub process_one-Handles :
      (r : Collecting) (e : Entry Double) (h : Handled J B find_histogram write_json)
      → get_path r.reader ≡ c_str e.path
      → get_document r.reader ≡ e.doc
      → handle J B find_histogram write_json r.cache r.schema e ≡ ok h
      → (r' : Collecting) × (one r ≡ (ok tt, r'))
        × Handles r r' h 1
        × KeepsReader r.reader r'.reader
  process_one-Handles r e h p d handled =
      let (c, made, rest) =
        >>=-eq-ok _ (convert_histogram_data J find_histogram r.cache e.doc) handled in
      let made' : convert_histogram_data J find_histogram r.cache (get_document r.reader) ≡ ok c =
        rw d made in
      elim (Bool-cases c.result) [
        | inl fine ↦ accepted r e.path c h p made' fine (rw fine at rest)
        | inr bad ↦
            subst
              (λ k.
                (r' : Collecting) × (one r ≡ (ok tt, r'))
                × Handles r r' k 1
                × KeepsReader r.reader r'.reader)
              (ok_inj (rw bad at rest)) (refused r c made' bad)
      ]
