-- ===== src/Convert/Main/Drained.antt =====
-- convert.cpp: the loop of `main` with the converter on its cache takes every file that waits.
use mozilla_telemetry.Prelude.{
  ℕ, ◌+◌, ◌^◌, ◌<◌, ◌≡◌, refl, ◌⊎◌, inl, inr, Bool, true, false, Option, Bytes,
}
use mozilla_telemetry.Prelude.Int.{ℤ}
use mozilla_telemetry.Outcome.{Outcome, ok}
use mozilla_telemetry.Outcome.Ensures.{Ensures, Any}
use mozilla_telemetry.Json.{Rapidjson, Value}
use mozilla_telemetry.Record.Inflate.{Zlib}
use mozilla_telemetry.Schema.{Boost}
use mozilla_telemetry.Cache.{Network}
use mozilla_telemetry.Cache.Client.{cached}
use mozilla_telemetry.Writer.{Sink}
use mozilla_telemetry.Wire.{WireFormat}
use mozilla_telemetry.Wire.Framing.{Encoder}
use mozilla_telemetry.Convert.Process.Keeping.{IsRunning}
use mozilla_telemetry.Convert.Process.Blame.{IsBlamed, IsQuiet, SoundCache}
use mozilla_telemetry.Convert.Main.{Host, Main, main_loop}
use mozilla_telemetry.Convert.Main.Faults.{IsQuietHost, main_loop-Fair}
use mozilla_telemetry.Convert.Main.Drains.{
  IsOrderly, pending, Drained, drained, broken, main_loop-drains,
}

module _ (J : Rapidjson) (Z : Zlib) (memory junk : ℕ) (B : Boost J.Double)
    (lexical_cast : Bytes → Option ℤ) {N : Type 0} (network : Network N)
    (write_json : Value J.Double → Bytes) (K : Sink B.FsPath) (small : memory + 1 < 2 ^ 32)
    (quiet : IsQuiet network) (F : WireFormat) (E : Encoder) {W : Type 0} (host : Host W)
    (input log_file : Bytes) (calm : IsQuietHost host) (orderly : IsOrderly host input) where
  abbrev The : Type 0
  The = Main J Z memory junk B (cached J lexical_cast network) write_json K F E host

  abbrev loop : ℕ → The → Outcome Bool × The
  loop =
      main_loop J Z memory junk B (cached J lexical_cast network) write_json K F E host input
        log_file

  abbrev waiting : The → ℕ
  waiting d =
      pending J Z memory junk B (cached J lexical_cast network) write_json K F E host input log_file
        orderly d.world

  end_cases :
      (o : Outcome Bool × The)
      → Drained J Z memory junk B
          (cached J lexical_cast network)
          write_json
          K
          F
          E
          host
          input
          log_file
          orderly
          o
      → Ensures (λ kind. IsBlamed J network o.1.run.cache o.1.run.reader.document) Any o.0
      → ((o.0 ≡ ok true) × (waiting o.1 ≡ 0))
        ⊎ IsBlamed J network o.1.run.cache o.1.run.reader.document
  end_cases _ (drained h) fair = inl (refl, h)
  end_cases _ broken fair = inr fair

  -- From sound objects, with a directory of n regular files that nobody else changes and that can be
  -- listed and moved to the temporary directory, and without a signal, n rounds of the loop of `main`
  -- leave none of them there, whether their conversion succeeds, fails or throws, and the loop goes on;
  -- or the document of the record that the reader is at, as the parser made it, is no object or has a
  -- histogram with a name shorter than "STARTUP_", or the specification of the revision of this document
  -- is no object: what the temporary file of the revision holds or, without one, the server answers to
  -- the request for it, from the cache and the network that the rounds leave. The largest array is within 32 bits, and the network and the system only
  -- return or throw.
  pub main_loop-drains_or :
      (n : ℕ) (d : The)
      → ((w : W) → host.is_stopped w ≡ false)
      → waiting d ≡ n
      → IsRunning memory SoundCache d.run
      → (((loop n d).0 ≡ ok true) × (waiting (loop n d).1 ≡ 0))
        ⊎ IsBlamed J network (loop n d).1.run.cache (loop n d).1.run.reader.document
  main_loop-drains_or n d going h sound =
      end_cases (loop n d)
        (main_loop-drains J Z memory junk B (cached J lexical_cast network) write_json K F E host
          input log_file orderly n d going h)
        (main_loop-Fair J Z memory junk B lexical_cast network write_json K small quiet F E host
          calm input log_file n d sound).0
