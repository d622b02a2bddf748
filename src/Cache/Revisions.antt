-- ===== src/Cache/Revisions.antt =====
-- common/HistogramCache.cpp: which revisions `FindHistogram` asks the server for again.
use mozilla_telemetry.Prelude.{
  suc, ◌≡◌, subst, refl, inl, inr, true, false, Bool-cases, Option-cases, Option, none, some, ◌++◌,
  arith, Bytes, bytes_eq, bytes_eq_refl, take, codes, ◌==◌,
}
use mozilla_telemetry.Prelude.Int.{ℤ}
use mozilla_telemetry.Outcome.{Outcome, ok, throw, fault}
use mozilla_telemetry.Json.{Rapidjson}
use mozilla_telemetry.Specification.{HistogramSpecification, new_specification}
use mozilla_telemetry.Schema.{read_chars}
use mozilla_telemetry.Cache.{
  Table, find_entry, insert_entry, HistogramCache, Answer, Network, open_file_cases,
}
use mozilla_telemetry.Cache.Response.{Status, read_status}
use mozilla_telemetry.Cache.Load.{
  add_revision, count_http_error, count_miss, count_hit, caught, tmp_name, request_text, keep,
  receive, read_response, answer, load_histogram, find_histogram,
}

pub find_entry-insert_entry :
    (k : Bytes) (o : Option HistogramSpecification) (es : Table)
    → find_entry k es ≡ none
    → find_entry k (insert_entry k o es) ≡ some o
unfolding find_entry insert_entry
find_entry-insert_entry k o es h = ground (arith, h, bytes_eq_refl k)

-- A specification that is returned is in the table of revisions.
abbrev pub Remembers :
    {W : Type 0} → Bytes → Outcome (Option HistogramSpecification) × (HistogramCache × W) → Type 0
Remembers key (ok none, (h, w)) = Unit
Remembers key (ok (some spec), (h, w)) = find_entry key h.revisions ≡ some (some spec)
Remembers key (throw what, (h, w)) = Unit
Remembers key (fault kind, (h, w)) = Unit

module _ (J : Rapidjson) (lexical_cast : Bytes → Option ℤ) {W : Type 0} (N : Network W)
    (key : Bytes) where
  open N use {open_file, exchange, md5}

  module _ (h : HistogramCache) (new : find_entry key h.revisions ≡ none) where
    keep_cases :
        (json : Bytes) (w : W) (found : Option (Option HistogramSpecification))
        (made : Outcome HistogramSpecification)
        → find_entry (md5 json) h.cache ≡ found
        → new_specification J lexical_cast json ≡ made
        → Remembers key (keep J lexical_cast N key json (h, w))
    unfolding keep
    keep_cases json w (some none) made e m = rw (e, keep) tt
    keep_cases json w (some (some s)) made e m =
        rw (e, keep) (find_entry-insert_entry key (some s) h.revisions new)
    keep_cases json w none (ok spec) e m =
        rw (e, m, keep) (find_entry-insert_entry key (some spec) h.revisions new)
    keep_cases json w none (throw what) e m = rw (e, m, keep) tt
    keep_cases json w none (fault kind) e m = rw (e, m, keep) tt

    keep-Remembers : (json : Bytes) (w : W) → Remembers key (keep J lexical_cast N key json (h, w))
    keep-Remembers json w =
        keep_cases json w (find_entry (md5 json) h.cache) (new_specification J lexical_cast json)
          refl refl

    receive-Remembers :
        (body : Bytes) (a : Answer) (w : W)
        → Remembers key (receive J lexical_cast N key body a (h, w))
    unfolding receive
    receive-Remembers body a w = elim (Option-cases a.failure) [
      | inl e ↦ rw (e, receive) (keep-Remembers (body ++ a.content) _)
      | inr (what, e) ↦ rw (e, receive) tt
    ]

    read_response-Remembers :
        (w : W) (status : Status) (a : Answer) (headers : Outcome Bytes)
        → a.headers ≡ headers
        → Remembers key (read_response J lexical_cast N key status a (h, w))
    unfolding read_response
    read_response-Remembers w status a (throw what) e = rw (e, read_response) tt
    read_response-Remembers w status a (fault kind) e = rw (e, read_response) tt
    read_response-Remembers w status a (ok more) e = elim (Bool-cases (status.status_code == 200)) [
      | inl fine ↦ rw (e, fine, read_response) (receive-Remembers _ a w)
      | inr bad ↦ rw (e, bad, read_response) tt
    ]

    answer-Remembers :
        (w : W) (a : Answer) (status : Option Status)
        → read_status a.buffered ≡ status
        → Remembers key (answer J lexical_cast N key a (h, w))
    unfolding answer
    answer-Remembers w a none e = rw (e, answer) tt
    answer-Remembers w a (some s) e =
        elim (Bool-cases (bytes_eq (take 5 s.http_version) (codes "HTTP/"))) [
          | inl fine ↦ rw (e, fine, answer) (read_response-Remembers w s a a.headers refl)
          | inr bad ↦ rw (e, bad, answer) tt
        ]

    exchange-Remembers :
        (w : W) (r : Outcome Answer)
        → open_file w (tmp_name key) ≡ inr none
        → (exchange w h.histogram_server h.histogram_server_port (request_text h key)).1 ≡ r
        → Remembers key (load_histogram J lexical_cast N key (h, w))
    unfolding load_histogram
    exchange-Remembers w (ok a) closed e =
        rw (closed, e, load_histogram) (answer-Remembers _ a (read_status a.buffered) refl)
    exchange-Remembers w (throw what) closed e = rw (closed, e, load_histogram) tt
    exchange-Remembers w (fault kind) closed e = rw (closed, e, load_histogram) tt

    load_histogram-Remembers : (w : W) → Remembers key (load_histogram J lexical_cast N key (h, w))
    unfolding load_histogram
    load_histogram-Remembers w = elim (open_file_cases (open_file w (tmp_name key))) [
      | inl (what, threw) ↦ rw (threw, load_histogram) tt
      | inr (inl closed) ↦ exchange-Remembers w _ closed refl
      | inr (inr (text, e)) ↦ rw (e, load_histogram) (keep-Remembers (read_chars text) w)
    ]

  caught-Remembers :
      (r : Outcome (Option HistogramSpecification) × (HistogramCache × W))
      → Remembers key r
      → Remembers key (caught J lexical_cast N r)
  caught-Remembers (ok o, (h, w)) good = good
  caught-Remembers (throw what, (h, w)) good = tt
  caught-Remembers (fault kind, (h, w)) good = tt

  known-Remembers :
      (h : HistogramCache) (w : W) (o : Option HistogramSpecification)
      → find_entry key h.revisions ≡ some o
      → Remembers key (ok o, (count_hit h, w))
  known-Remembers h w none e = tt
  known-Remembers h w (some s) e = e

  find_histogram-Remembers :
      (h : HistogramCache) (w : W) → Remembers key (find_histogram J lexical_cast N key (h, w))
  unfolding find_histogram
  find_histogram-Remembers h w = elim (Bool-cases (bytes_eq (take 4 key) (codes "http"))) [
    | inl fine ↦ elim (Option-cases (find_entry key h.revisions)) [
      | inl e ↦
          rw (fine, e, find_histogram)
            (caught-Remembers _ (load_histogram-Remembers (count_miss h) e w))
      | inr (o, e) ↦ rw (fine, e, find_histogram) (known-Remembers h w o e)
    ]
    | inr bad ↦ rw (bad, find_histogram) tt
  ]

  -- A revision that is in the table is found there: nothing of the world is asked or changed.
  pub find_histogram_known :
      (h : HistogramCache) (w : W) (o : Option HistogramSpecification)
      → bytes_eq (take 4 key) (codes "http") ≡ true
      → find_entry key h.revisions ≡ some o
      → find_histogram J lexical_cast N key (h, w) ≡ (ok o, (count_hit h, w))
  unfolding find_histogram
  find_histogram_known h w o fine e = rw (fine, e, find_histogram)

  only_http :
      (h h' : HistogramCache) (w w' : W) (spec : HistogramSpecification)
      → find_histogram J lexical_cast N key (h, w) ≡ (ok (some spec), (h', w'))
      → bytes_eq (take 4 key) (codes "http") ≡ true
  unfolding find_histogram
  only_http h h' w w' spec found = elim (Bool-cases (bytes_eq (take 4 key) (codes "http"))) [
    | inl fine ↦ fine
    | inr bad ↦ cc ((rw (bad, find_histogram) at found))
  ]

  -- A specification that `FindHistogram` has returned for a revision is returned again for it by the
  -- cache that it left, in any world, with one more cache hit and without the server or a file.
  pub find_histogram-find_histogram :
      (h h' : HistogramCache) (w w' w'' : W) (spec : HistogramSpecification)
      → find_histogram J lexical_cast N key (h, w) ≡ (ok (some spec), (h', w'))
      → find_histogram J lexical_cast N key (h', w'') ≡ (ok (some spec), (count_hit h', w''))
  find_histogram-find_histogram h h' w w' w'' spec found =
      find_histogram_known h' w'' (some spec) (only_http h h' w w' spec found)
        (subst (Remembers key) found (find_histogram-Remembers h w))

  -- A revision that the server has refused with a status code other than 200 is not asked for again:
  -- the first call returns null with an HTTP error, and the next one, in any world, is a cache hit
  -- that returns null.
  pub find_histogram_refused :
      (h : HistogramCache) (w w' : W) (a : Answer) (status : Status) (more : Bytes)
      → bytes_eq (take 4 key) (codes "http") ≡ true
      → find_entry key h.revisions ≡ none
      → open_file w (tmp_name key) ≡ inr none
      → (exchange w h.histogram_server h.histogram_server_port (request_text h key)).1 ≡ ok a
      → read_status a.buffered ≡ some status
      → bytes_eq (take 5 status.http_version) (codes "HTTP/") ≡ true
      → a.headers ≡ ok more
      → (status.status_code == 200) ≡ false
      → (h' : HistogramCache) × (w'' : W) × (find_histogram J lexical_cast N key (h, w)
          ≡ (ok none, (h', w'')))
        × (h'.metrics.http_errors.value ≡ suc h.metrics.http_errors.value)
        × (find_histogram J lexical_cast N key (h', w') ≡ (ok none, (count_hit h', w')))
  unfolding find_histogram load_histogram answer read_response request_text
  find_histogram_refused h w w' a status more fine new closed sent read version headers refused =
      let h' = add_revision key none (count_http_error (count_miss h)) in
      (
        h',
        (exchange w h.histogram_server h.histogram_server_port (request_text h key)).0,
        rw (
          fine, new, closed, sent, read, version, headers, refused, find_histogram, load_histogram,
          answer, read_response,
        ),
        omega arith,
        find_histogram_known h' w' none fine (find_entry-insert_entry key none h.revisions new),
      )
