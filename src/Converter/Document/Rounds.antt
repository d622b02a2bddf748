-- ===== src/Converter/Document/Rounds.antt =====
-- common/HistogramConverter.cpp: the conversion of a document has no loop that could run out of its
-- rounds, whatever else it does.
use mozilla_telemetry.Prelude.{
  ℕ, ◌+◌, false, Option-cases, Option, none, some, inl, inr, List, [], ◌∷◌, arith, Bytes, c_str,
  codes,
}
use mozilla_telemetry.Prelude.Int.{ℤ, pos, negsuc, eqb_ℤ, is_int32}
use mozilla_telemetry.Constants.{extra_buckets}
use mozilla_telemetry.Outcome.{Outcome, ok, ◌>>=◌}
use mozilla_telemetry.Outcome.Rounds.{Ends, ok-Ends, throw-Ends, >>=-Ends, if-Ends}
use mozilla_telemetry.Json.{Value, int, string, object, Members, end, member, Rapidjson, lookup}
use mozilla_telemetry.Specification.{
  HistogramDefinition, HistogramSpecification, get_bucket_count, get_definition,
}
use mozilla_telemetry.Converter.{
  new_vector, write_at, rewrite_value, rewrite_loop, loop_of, rewrite_values, resolve, fill_summary,
  rewrite_object, rewrite_entry, rewrite_members, rewrite_histogram,
}
use mozilla_telemetry.Converter.Document.{
  FindHistogram, Converted, convert_version_1, switch_version, convert_histogram_data,
  update_document, unless_object, unless_string, unless_int,
}

new_vector-Ends : (z : ℤ) → Ends (new_vector z)
unfolding new_vector
new_vector-Ends (pos n) = ok-Ends
new_vector-Ends (negsuc n) = throw-Ends

write_at-Ends : {A : Type 0} (xs : List A) (i : ℤ) (x : A) → Ends (write_at xs i x)
unfolding write_at
write_at-Ends xs (pos i) x = ground arith
write_at-Ends xs (negsuc i) x = λ e. cc e

module _ {D : Type 0} where
  rewrite_value-Ends :
      (d : HistogramDefinition) (n : Bytes) (v : Value D) (xs : List ℤ)
      → Ends (rewrite_value d n v xs)
  unfolding rewrite_value
  rewrite_value-Ends d n (int i) xs =
      if-Ends _
        (if-Ends _ ok-Ends (>>=-Ends (write_at xs _ i) _ (write_at-Ends xs _ i) (λ ys. ok-Ends)))
        ok-Ends
  rewrite_value-Ends d n v xs = ok-Ends

  rewrite_loop-Ends :
      (d : HistogramDefinition) (ms : Members D) (xs : List ℤ) → Ends (rewrite_loop d ms xs)
  unfolding rewrite_loop
  rewrite_loop-Ends d end xs = ok-Ends
  rewrite_loop-Ends d (member n v ms) xs =
      >>=-Ends (rewrite_value d n v xs) _ (rewrite_value-Ends d n v xs)
        (elim [ none ↦ ok-Ends | some ys ↦ rewrite_loop-Ends d ms ys ])

resolve-Ends : (spec : HistogramSpecification) (n : Bytes) → Ends (resolve spec n)
unfolding resolve
resolve-Ends spec n = elim (Option-cases (get_definition spec (c_str n))) [
  | inl none_left ↦ rw (none_left, resolve) (ground arith)
  | inr (hd, there) ↦ rw (there, resolve) ok-Ends
]

module _ {D A : Type 0} where
  unless_object-Ends :
      (v : Value D) (o : Outcome A) (rest : Members D → Outcome A)
      → Ends o
      → ((ms : Members D) → Ends (rest ms))
      → Ends (unless_object v o rest)
  unless_object-Ends (object ms) o rest h k = k ms
  unless_object-Ends v o rest h k = h

  unless_string-Ends :
      (v : Value D) (o : Outcome A) (rest : Bytes → Outcome A)
      → Ends o
      → ((s : Bytes) → Ends (rest s))
      → Ends (unless_string v o rest)
  unless_string-Ends (string s) o rest h k = k s
  unless_string-Ends v o rest h k = h

  unless_int-Ends :
      (v : Value D) (o : Outcome A) (rest : ℤ → Outcome A)
      → Ends o
      → ((z : ℤ) → Ends (rest z))
      → Ends (unless_int v o rest)
  unless_int-Ends (int z) o rest h k = if-Ends (is_int32 z) (k z) h
  unless_int-Ends v o rest h k = h

module _ (J : Rapidjson) where
  open J use {Double}

  loop_of-Ends : (d : HistogramDefinition) (v : Value Double) (xs : List ℤ) → Ends (loop_of d v xs)
  loop_of-Ends d (object ms) xs = rewrite_loop-Ends d ms xs
  loop_of-Ends d v xs = ok-Ends

  fill_summary-Ends :
      (ms : Members Double) (ks : List Bytes) (x : ℕ) (summary : List Double)
      → Ends (fill_summary J ms ks x summary)
  unfolding fill_summary
  fill_summary-Ends ms [] x summary = ok-Ends
  fill_summary-Ends ms (k ∷ ks) x summary =
      >>=-Ends (write_at summary (pos x) _) _ (write_at-Ends summary (pos x) _)
        (λ summary'. fill_summary-Ends ms ks (x + 1) summary')

  rewrite_object-Ends :
      (n : Bytes) (hd : HistogramDefinition) (ms : Members Double) (summary : List Double)
      → Ends (rewrite_object J n hd ms summary)
  unfolding rewrite_object rewrite_values
  rewrite_object-Ends n hd ms summary =
      >>=-Ends (new_vector (get_bucket_count hd)) _ (new_vector-Ends (get_bucket_count hd)) λ zeros.
        >>=-Ends (rewrite_values J hd (object ms) zeros) _ (loop_of-Ends hd _ zeros) (elim [
          | none ↦ ok-Ends
          | some counts ↦
              >>=-Ends (fill_summary J ms extra_buckets 0 summary) _
                (fill_summary-Ends ms extra_buckets 0 summary) (λ summary'. ok-Ends)
        ])

  rewrite_entry-Ends :
      (spec : HistogramSpecification) (n : Bytes) (v : Value Double) (summary : List Double)
      → Ends (rewrite_entry J spec n v summary)
  unfolding rewrite_entry
  rewrite_entry-Ends spec n (object ms) summary =
      >>=-Ends (resolve spec n) _ (resolve-Ends spec n)
        (elim [ none ↦ ok-Ends | some found ↦ rewrite_object-Ends found.0 found.1 ms summary ])
  rewrite_entry-Ends spec n v summary = ok-Ends

  rewrite_members-Ends :
      (spec : HistogramSpecification) (ms : Members Double) (summary : List Double)
      → Ends (rewrite_members J spec ms summary)
  unfolding rewrite_members
  rewrite_members-Ends spec end summary = ok-Ends
  rewrite_members-Ends spec (member n v ms) summary =
      >>=-Ends (rewrite_entry J spec n v summary) _ (rewrite_entry-Ends spec n v summary) λ e.
        if-Ends e.result
          (>>=-Ends (rewrite_members J spec ms e.summary) _ (rewrite_members-Ends spec ms e.summary)
            (λ r. ok-Ends))
          ok-Ends

  rewrite_histogram-Ends :
      (spec : HistogramSpecification) (ms : Members Double) → Ends (rewrite_histogram J spec ms)
  unfolding rewrite_histogram
  rewrite_histogram-Ends spec ms = rewrite_members-Ends spec ms _

  module _ {C : Type 0} (find_histogram : FindHistogram C)
      (finds : (cache : C) (key : Bytes) → Ends (find_histogram cache key)) where
    found-Ends :
        (top ms : Members Double) (later : C) (found : Option HistogramSpecification)
        → Ends {A = Converted C Double} (elim found [
          | none ↦ ok (record { cache = later; doc = object top; result = false })
          | some spec ↦ rewrite_histogram J spec ms >>= λ r.
              ok (record {
                cache = later;
                doc = object (update_document J top r.0 r.1);
                result = r.1;
              })
        ])
    found-Ends top ms later none = ok-Ends
    found-Ends top ms later (some spec) =
        >>=-Ends (rewrite_histogram J spec ms) _ (rewrite_histogram-Ends spec ms) (λ r. ok-Ends)

    convert_version_1-Ends :
        (cache : C) (top : Members Double) (revision : Bytes) (ms : Members Double)
        → Ends (convert_version_1 J find_histogram cache top revision ms)
    unfolding convert_version_1
    convert_version_1-Ends cache top revision ms =
        >>=-Ends (find_histogram cache (c_str revision)) _ (finds cache (c_str revision))
          (λ found. found-Ends top ms found.0 found.1)

    -- Where `FindHistogram` ends, the conversion of a document does.
    pub convert_histogram_data-Ends :
        (cache : C) (doc : Value Double) → Ends (convert_histogram_data J find_histogram cache doc)
    unfolding convert_histogram_data switch_version
    convert_histogram_data-Ends cache (object top) =
        unless_object-Ends (lookup J top (codes "info")) _ _ ok-Ends λ info.
          unless_string-Ends (lookup J info (codes "revision")) _ _ ok-Ends λ revision.
            unless_object-Ends (lookup J top (codes "histograms")) _ _ ok-Ends λ ms.
              unless_int-Ends (lookup J top (codes "ver")) _ _ ok-Ends λ ver.
                if-Ends (eqb_ℤ ver (pos 1))
                  (if-Ends (eqb_ℤ ver (pos 1)) (convert_version_1-Ends cache top revision ms)
                    (if-Ends (eqb_ℤ ver (pos 2)) ok-Ends ok-Ends))
                  ok-Ends
    convert_histogram_data-Ends cache v = λ e. cc e
