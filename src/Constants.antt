-- ===== src/Constants.antt =====
-- common/TelemetryConstants.in.cpp: the constants that the other files share.
use mozilla_telemetry.Prelude.{ℕ, ◌*◌, List, [], ◌∷◌, Bytes, codes}

abbrev pub max_telemetry_path : ℕ
max_telemetry_path = 10 * 1024

abbrev pub max_telemetry_data : ℕ
max_telemetry_data = 200 * 1024

abbrev pub record_separator : ℕ
record_separator = 0x1e

abbrev pub unit_separator : ℕ
unit_separator = 0x1f

abbrev pub extra_buckets_size : ℕ
extra_buckets_size = 5

-- The names before the `nullptr` that ends the array.
abbrev pub extra_buckets : List Bytes
extra_buckets =
    codes "sum"
    ∷ codes "log_sum"
    ∷ codes "log_sum_squares"
    ∷ codes "sum_squares_lo"
    ∷ codes "sum_squares_hi"
    ∷ []
