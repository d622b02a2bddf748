-- ===== src/Cache/Invariant.antt =====
-- common/HistogramCache.cpp: what holds of every specification in the cache.
use mozilla_telemetry.Prelude.{
  ◌≡◌, refl, inl, inr, Bool-cases, Option-cases, Option, none, some, ◌++◌, arith, Bytes, bytes_eq,
  take, codes, c_str, ◌==◌,
}
use mozilla_telemetry.Prelude.Int.{ℤ}
use mozilla_telemetry.Outcome.{Outcome, ok, throw, fault}
use mozilla_telemetry.Json.{Value, Parsed, Rapidjson, parse_error, document}
use mozilla_telemetry.Specification.{HistogramSpecification, load_definitions, new_specification}
use mozilla_telemetry.Specification.Names.{get_definition-IsWellFormed}
use mozilla_telemetry.Converter.Histograms.{AllWellFormed}
use mozilla_telemetry.Schema.{read_chars}
use mozilla_telemetry.Cache.{find_entry, HistogramCache, Answer, Network, open_file_cases}
use mozilla_telemetry.Cache.Tables.{IsGood, IsGoodTable, find_entry-IsGood, insert_entry-IsGood}
use mozilla_telemetry.Cache.Response.{Status, read_status}
use mozilla_telemetry.Cache.Load.{
  add_revision, add_digest, count_http_error, count_miss, caught, tmp_name, request_text, keep,
  receive, read_response, answer, load_histogram, find_histogram,
}

pub record IsSound (h : HistogramCache) : Type 0 where
  pub cache : IsGoodTable h.cache
  pub revisions : IsGoodTable h.revisions

-- What a call leaves: a sound cache, and a good pointer if it returns one.
abbrev pub IsSoundResult :
    {W : Type 0} → Outcome (Option HistogramSpecification) × (HistogramCache × W) → Type 0
IsSoundResult (ok o, (h, w)) = IsGood o × IsSound h
IsSoundResult (throw what, (h, w)) = IsSound h
IsSoundResult (fault kind, (h, w)) = IsSound h

module _ (J : Rapidjson) (lexical_cast : Bytes → Option ℤ) {W : Type 0} (N : Network W) where
  open N use {open_file, exchange, md5}
  open J use {Double, parse}

  load_definitions-IsGood :
      (doc : Value Double) (spec : HistogramSpecification)
      → load_definitions J lexical_cast doc ≡ ok spec
      → AllWellFormed spec
  load_definitions-IsGood doc spec h name d g =
      get_definition-IsWellFormed J lexical_cast doc spec name d h g

  doc_of :
      (json : Bytes) (spec : HistogramSpecification) (p : Parsed Double)
      → parse (c_str json) ≡ p
      → new_specification J lexical_cast json ≡ ok spec
      → (doc : Value Double) × (load_definitions J lexical_cast doc ≡ ok spec)
  unfolding new_specification
  doc_of json spec (parse_error what) e h = ground (arith, e)
  doc_of json spec (document doc) e h = (doc, ground (arith, e))

  new_specification-IsGood :
      (json : Bytes) (spec : HistogramSpecification)
      → new_specification J lexical_cast json ≡ ok spec
      → AllWellFormed spec
  unfolding new_specification
  new_specification-IsGood json spec h =
      let (doc, loaded) = doc_of json spec (parse (c_str json)) refl h in
      load_definitions-IsGood doc spec loaded

  error-IsSound : (h : HistogramCache) → IsSound h → IsSound (count_http_error h)
  error-IsSound h sound = record { cache = sound.cache; revisions = sound.revisions }

  add_revision-IsSound :
      (key : Bytes) (o : Option HistogramSpecification) (h : HistogramCache)
      → IsGood o
      → IsSound h
      → IsSound (add_revision key o h)
  add_revision-IsSound key o h good sound = record {
    cache = sound.cache;
    revisions = insert_entry-IsGood key o h.revisions good sound.revisions;
  }

  add_digest-IsSound :
      (key : Bytes) (o : Option HistogramSpecification) (h : HistogramCache)
      → IsGood o
      → IsSound h
      → IsSound (add_digest key o h)
  add_digest-IsSound key o h good sound = record {
    cache = insert_entry-IsGood key o h.cache good sound.cache;
    revisions = sound.revisions;
  }

  module _ (key : Bytes) (h : HistogramCache) (sound : IsSound h) where
    keep_cases :
        (json : Bytes) (w : W) (found : Option (Option HistogramSpecification))
        (made : Outcome HistogramSpecification)
        → find_entry (md5 json) h.cache ≡ found
        → new_specification J lexical_cast json ≡ made
        → IsSoundResult (keep J lexical_cast N key json (h, w))
    unfolding keep
    keep_cases json w (some o) made e m =
        let good = find_entry-IsGood (md5 json) h.cache o sound.cache e in
        rw (e, keep) (good, add_revision-IsSound key o h good sound)
    keep_cases json w none (ok spec) e m =
        let good = new_specification-IsGood json spec m in
        let kept = add_digest-IsSound (md5 json) (some spec) h good sound in
        rw (e, m, keep)
          (
            good,
            add_revision-IsSound key (some spec) (add_digest (md5 json) (some spec) h) good kept,
          )
    keep_cases json w none (throw what) e m = rw (e, m, keep) sound
    keep_cases json w none (fault kind) e m = rw (e, m, keep) sound

    keep-IsSound : (json : Bytes) (w : W) → IsSoundResult (keep J lexical_cast N key json (h, w))
    keep-IsSound json w =
        keep_cases json w (find_entry (md5 json) h.cache) (new_specification J lexical_cast json)
          refl refl

    receive-IsSound :
        (body : Bytes) (a : Answer) (w : W)
        → IsSoundResult (receive J lexical_cast N key body a (h, w))
    unfolding receive
    receive-IsSound body a w = elim (Option-cases a.failure) [
      | inl e ↦ rw (e, receive) (keep-IsSound (body ++ a.content) _)
      | inr (what, e) ↦ rw (e, receive) sound
    ]

  read_response-IsSound :
      (key : Bytes) (h : HistogramCache) (w : W) (status : Status) (a : Answer)
      (headers : Outcome Bytes)
      → IsSound h
      → a.headers ≡ headers
      → IsSoundResult (read_response J lexical_cast N key status a (h, w))
  unfolding read_response
  read_response-IsSound key h w status a (throw what) sound e = rw (e, read_response) sound
  read_response-IsSound key h w status a (fault kind) sound e = rw (e, read_response) sound
  read_response-IsSound key h w status a (ok more) sound e =
      elim (Bool-cases (status.status_code == 200)) [
        | inl fine ↦ rw (e, fine, read_response) (receive-IsSound key h sound _ a w)
        | inr bad ↦
            rw (e, bad, read_response)
              (tt, add_revision-IsSound key none (count_http_error h) tt (error-IsSound h sound))
      ]

  answer-IsSound :
      (key : Bytes) (h : HistogramCache) (w : W) (a : Answer) (status : Option Status)
      → IsSound h
      → read_status a.buffered ≡ status
      → IsSoundResult (answer J lexical_cast N key a (h, w))
  unfolding answer
  answer-IsSound key h w a none sound e = rw (e, answer) (tt, error-IsSound h sound)
  answer-IsSound key h w a (some s) sound e =
      elim (Bool-cases (bytes_eq (take 5 s.http_version) (codes "HTTP/"))) [
        | inl fine ↦ rw (e, fine, answer) (read_response-IsSound key h w s a a.headers sound refl)
        | inr bad ↦ rw (e, bad, answer) (tt, error-IsSound h sound)
      ]

  exchange-IsSound :
      (key : Bytes) (h : HistogramCache) (w : W) (r : Outcome Answer)
      → IsSound h
      → open_file w (tmp_name key) ≡ inr none
      → (exchange w h.histogram_server h.histogram_server_port (request_text h key)).1 ≡ r
      → IsSoundResult (load_histogram J lexical_cast N key (h, w))
  unfolding load_histogram
  exchange-IsSound key h w (ok a) sound closed e =
      rw (closed, e, load_histogram) (answer-IsSound key h _ a (read_status a.buffered) sound refl)
  exchange-IsSound key h w (throw what) sound closed e = rw (closed, e, load_histogram) sound
  exchange-IsSound key h w (fault kind) sound closed e = rw (closed, e, load_histogram) sound

  load_histogram-IsSound :
      (key : Bytes) (h : HistogramCache) (w : W)
      → IsSound h
      → IsSoundResult (load_histogram J lexical_cast N key (h, w))
  unfolding load_histogram
  load_histogram-IsSound key h w sound = elim (open_file_cases (open_file w (tmp_name key))) [
    | inl (what, threw) ↦ rw (threw, load_histogram) sound
    | inr (inl closed) ↦ exchange-IsSound key h w _ sound closed refl
    | inr (inr (text, e)) ↦ rw (e, load_histogram) (keep-IsSound key h sound (read_chars text) w)
  ]

  caught-IsSound :
      (r : Outcome (Option HistogramSpecification) × (HistogramCache × W))
      → IsSoundResult r
      → IsSoundResult (caught J lexical_cast N r)
  caught-IsSound (ok o, (h, w)) good = good
  caught-IsSound (throw what, (h, w)) sound =
      (tt, record { cache = sound.cache; revisions = sound.revisions })
  caught-IsSound (fault kind, (h, w)) sound = sound

  -- On a cache whose specifications are all of well-formed definitions, `FindHistogram` leaves such
  -- a cache, and the specification that it returns, if any, is one too. Whatever the server answers
  -- and the temporary files hold, on each branch.
  pub find_histogram-IsSound :
      (key : Bytes) (h : HistogramCache) (w : W)
      → IsSound h
      → IsSoundResult (find_histogram J lexical_cast N key (h, w))
  unfolding find_histogram
  find_histogram-IsSound key h w sound = elim (Bool-cases (bytes_eq (take 4 key) (codes "http"))) [
    | inl fine ↦ elim (Option-cases (find_entry key h.revisions)) [
      | inl e ↦
          rw (fine, e, find_histogram)
            (caught-IsSound _ (
              load_histogram-IsSound key (count_miss h) w
                (record { cache = sound.cache; revisions = sound.revisions })))
      | inr (o, e) ↦
          rw (fine, e, find_histogram)
            (
              find_entry-IsGood key h.revisions o sound.revisions e,
              record { cache = sound.cache; revisions = sound.revisions },
            )
    ]
    | inr bad ↦
        rw (bad, find_histogram) (tt, record { cache = sound.cache; revisions = sound.revisions })
  ]
