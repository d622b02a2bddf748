-- ===== src/Cache/Faults.antt =====
-- common/HistogramCache.cpp: the faults of `FindHistogram`. `F` is what may be said of a fault.
use mozilla_telemetry.Prelude.{
  [], some, Option-cases, inl, inr, ◌++◌, ◌≡◌, refl, Bool, true, false, not, ◌==◌, Option, none,
  Bytes, bytes_eq, c_str, codes, take, if◌then◌else◌,
}
use mozilla_telemetry.Prelude.Int.{ℤ}
use mozilla_telemetry.Outcome.{Outcome, ok, throw, fault, Fault, failed_assertion}
use mozilla_telemetry.Json.{Rapidjson, Value, document, is_object}
use mozilla_telemetry.Specification.{HistogramSpecification, new_specification}
use mozilla_telemetry.Outcome.Ensures.{Ensures, Any}
use mozilla_telemetry.Specification.Faults.{new_specification-Ensures}
use mozilla_telemetry.Cache.{HistogramCache, Answer, Network, open_file_cases, find_entry}
use mozilla_telemetry.Cache.Response.{skip_headers, Status, read_status}
use mozilla_telemetry.Cache.Load.{
  tmp_name, request_text, keep, receive, read_response, answer, load_histogram, find_histogram,
  caught, count_miss,
}
use mozilla_telemetry.Cache.Client.{cached}
use mozilla_telemetry.Schema.{read_chars}
use mozilla_telemetry.Cache.Tables.{IsGood}
use mozilla_telemetry.Cache.Invariant.{IsSound, IsSoundResult, find_histogram-IsSound}

-- The text of the specification that a call of `FindHistogram` for `key`, on the cache and in the world
-- `hw`, is supplied with: what the temporary file of the key holds in this world; or, where there is
-- none, the body of the server's answer to the request for the key, behind its status line and headers.
pub data Supplied {W : Type 0} (N : Network W) (hw : HistogramCache × W) (key : Bytes)
    : Bytes → Type 0 where
  from_file :
      {text : Bytes}
      → N.open_file hw.1 (tmp_name key) ≡ inr (some text)
      → Supplied N hw key (read_chars text)
  from_server :
      {more : Bytes} {a : Answer} {status : Status}
      → N.open_file hw.1 (tmp_name key) ≡ inr none
      → (N.exchange hw.1 hw.0.histogram_server hw.0.histogram_server_port (request_text hw.0 key)).1
        ≡ ok a
      → read_status a.buffered ≡ some status
      → a.headers ≡ ok more
      → Supplied N hw key (
          (if status.eof then status.rest ++ more else skip_headers [] (status.rest ++ more))
          ++ a.content)

module _ (F : Fault → Type 0) (J : Rapidjson) (lexical_cast : Bytes → Option ℤ) {W : Type 0}
    (N : Network W) (start : HistogramCache × W) (key : Bytes)
    (blame : (json : Bytes) (doc : Value J.Double)
      → Supplied N start key json
      → J.parse (c_str json) ≡ document doc
      → is_object doc ≡ false
      → F failed_assertion)
    (answers : (w : W) (host port request : Bytes)
      → Ensures F (λ a. Ensures F Any a.headers) (N.exchange w host port request).1) where
  abbrev Call : Type 0
  Call = Outcome (Option HistogramSpecification) × (HistogramCache × W)

  kept_cases :
      (json : Bytes) (h : HistogramCache) (w : W) (o : Outcome HistogramSpecification)
      → new_specification J lexical_cast json ≡ o
      → Ensures F Any o
      → find_entry (N.md5 json) h.cache ≡ none
      → Ensures F Any (keep J lexical_cast N key json (h, w)).0
  unfolding keep
  kept_cases json h w (ok spec) e ends miss = rw (miss, e, keep) tt
  kept_cases json h w (throw what) e ends miss = rw (miss, e, keep) tt
  kept_cases json h w (fault kind) e ends miss = rw (miss, e, keep) ends

  keep-Ensures :
      (json : Bytes) (h : HistogramCache) (w : W)
      → Supplied N start key json
      → Ensures F Any (keep J lexical_cast N key json (h, w)).0
  unfolding keep
  keep-Ensures json h w given = elim (Option-cases (find_entry (N.md5 json) h.cache)) [
    | inl miss ↦
        kept_cases json h w (new_specification J lexical_cast json) refl
          (new_specification-Ensures F J lexical_cast json (λ doc. blame json doc given)) miss
    | inr (s, found) ↦ rw (found, keep) tt
  ]

  receive-Ensures :
      (body : Bytes) (a : Answer) (h : HistogramCache) (w : W)
      → Supplied N start key (body ++ a.content)
      → Ensures F Any (receive J lexical_cast N key body a (h, w)).0
  unfolding receive
  receive-Ensures body a h w given = elim (Option-cases a.failure) [
    | inl fine ↦ rw (fine, receive) (keep-Ensures (body ++ a.content) h _ given)
    | inr (what, failed) ↦ rw (failed, receive) tt
  ]

  either-Ensures :
      (b : Bool) (x y : Call)
      → Ensures F Any x.0
      → Ensures F Any y.0
      → Ensures F Any (if b then x else y).0
  either-Ensures true x y h k = h
  either-Ensures false x y h k = k

  abbrev body_of : Status → Bytes → Bytes
  body_of status more =
      if status.eof then status.rest ++ more else skip_headers [] (status.rest ++ more)

  response_cases :
      (status : Status) (a : Answer) (h : HistogramCache) (w : W) (o : Outcome Bytes)
      → ((more : Bytes)
          → a.headers ≡ ok more
          → Supplied N start key (body_of status more ++ a.content))
      → a.headers ≡ o
      → Ensures F Any o
      → Ensures F Any (read_response J lexical_cast N key status a (h, w)).0
  unfolding read_response
  response_cases status a h w (ok more) given e ends =
      rw (e, read_response)
        (either-Ensures (not (status.status_code == 200)) _ _ tt
          (receive-Ensures (body_of status more) a h w (given more e)))
  response_cases status a h w (throw what) given e ends = rw (e, read_response) tt
  response_cases status a h w (fault kind) given e ends = rw (e, read_response) ends

  answer-Ensures :
      (a : Answer) (h : HistogramCache) (w : W)
      → ((status : Status) (more : Bytes)
          → read_status a.buffered ≡ some status
          → a.headers ≡ ok more
          → Supplied N start key (body_of status more ++ a.content))
      → Ensures F Any a.headers
      → Ensures F Any (answer J lexical_cast N key a (h, w)).0
  unfolding answer
  answer-Ensures a h w given ends = elim (Option-cases (read_status a.buffered)) [
    | inl unread ↦ rw (unread, answer) tt
    | inr (status, read) ↦
        rw (read, answer)
          (either-Ensures (not (bytes_eq (take 5 status.http_version) (codes "HTTP/"))) _ _ tt
            (response_cases status a h w a.headers (λ more. given status more read) refl ends))
  ]

  sent_cases :
      (o : Outcome Answer)
      → N.open_file start.1 (tmp_name key) ≡ inr none
      → (N.exchange start.1 start.0.histogram_server start.0.histogram_server_port
          (request_text start.0 key)).1
        ≡ o
      → Ensures F (λ a. Ensures F Any a.headers) o
      → Ensures F Any (load_histogram J lexical_cast N key (count_miss start.0, start.1)).0
  unfolding load_histogram request_text
  sent_cases (ok a) missing e ends =
      rw (missing, e, load_histogram)
        (answer-Ensures a (count_miss start.0) _ (λ status more. from_server missing e) ends)
  sent_cases (throw what) missing e ends = rw (missing, e, load_histogram) tt
  sent_cases (fault kind) missing e ends = rw (missing, e, load_histogram) ends

  load_histogram-Ensures :
      Ensures F Any (load_histogram J lexical_cast N key (count_miss start.0, start.1)).0
  unfolding load_histogram
  load_histogram-Ensures = elim (open_file_cases (N.open_file start.1 (tmp_name key))) [
    | inl (what, threw) ↦ rw (threw, load_histogram) tt
    | inr (inl missing) ↦ sent_cases _ missing refl (
        answers start.1 start.0.histogram_server start.0.histogram_server_port
          (request_text start.0 key))
    | inr (inr (text, opened)) ↦
        rw (opened, load_histogram)
          (keep-Ensures (read_chars text) (count_miss start.0) start.1 (from_file opened))
  ]

  caught-Ensures : (o : Call) → Ensures F Any o.0 → Ensures F Any (caught J lexical_cast N o).0
  caught-Ensures (ok s, hw) ends = tt
  caught-Ensures (throw what, (h, w)) ends = tt
  caught-Ensures (fault kind, hw) ends = ends

  find_histogram-Ensures : Ensures F Any (find_histogram J lexical_cast N key start).0
  unfolding find_histogram
  find_histogram-Ensures =
      either-Ensures (not (bytes_eq (take 4 key) (codes "http"))) _ _ tt
        (elim (Option-cases (find_entry key start.0.revisions)) [
          | inl miss ↦ rw (miss) (caught-Ensures _ load_histogram-Ensures)
          | inr (s, there) ↦ rw (there) tt
        ])

  any_cases :
      (o : Call)
      → find_histogram J lexical_cast N key start ≡ o
      → Ensures F Any o.0
      → Ensures F Any (cached J lexical_cast N start key)
  any_cases (ok s, hw') e ends = rw (e) tt
  any_cases (throw what, hw') e ends = rw (e) tt
  any_cases (fault kind, hw') e ends = rw (e) ends

  -- `FindHistogram` as the converter calls it, on any cache
  pub cached-Any : Ensures F Any (cached J lexical_cast N start key)
  cached-Any = any_cases _ refl find_histogram-Ensures

  -- What the converter gets: a good specification, and a cache that is sound
  abbrev pub IsGoodCall : (HistogramCache × W) × Option HistogramSpecification → Type 0
  IsGoodCall f = IsSound f.0.0 × IsGood f.1

  cached_cases :
      (o : Call)
      → find_histogram J lexical_cast N key start ≡ o
      → Ensures F Any o.0
      → IsSoundResult o
      → Ensures F IsGoodCall (cached J lexical_cast N start key)
  cached_cases (ok s, hw') e ends good = rw (e) (good.1, good.0)
  cached_cases (throw what, hw') e ends good = rw (e) tt
  cached_cases (fault kind, hw') e ends good = rw (e) ends

  -- `FindHistogram` as the converter calls it, on a sound cache: it has no fault but those that `F`
  -- allows, and returns a good specification with a sound cache.
  pub cached-Ensures : IsSound start.0 → Ensures F IsGoodCall (cached J lexical_cast N start key)
  cached-Ensures sound =
      cached_cases _ refl find_histogram-Ensures
        (find_histogram-IsSound J lexical_cast N key start.0 start.1 sound)
