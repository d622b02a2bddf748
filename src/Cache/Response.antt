-- ===== src/Cache/Response.antt =====
-- common/HistogramCache.cpp: what `LoadHistogram` reads of an HTTP response. `none` is a stream
-- that has failed.
use mozilla_telemetry.Prelude.{
  ℕ, ◌+◌, ◌*◌, ◌-◌, ◌%◌, ◌^◌, Bool, true, false, ◌&&◌, Option, none, some, [], ◌∷◌, ◌++◌, Bytes,
  bytes_eq, leb, ltb, ◌==◌, if◌then◌else◌,
}
use mozilla_telemetry.Schema.{is_space}

-- `ws`
unfoldable pub skip_spaces : Bytes → Bytes
skip_spaces [] = []
skip_spaces (c ∷ cs) = if is_space c then skip_spaces cs else c ∷ cs

-- The characters up to white space, and the rest
unfoldable pub take_token : Bytes → Bytes × Bytes
take_token [] = ([], [])
take_token (c ∷ cs) =
    let rest = take_token cs in if is_space c then ([], c ∷ cs) else (c ∷ rest.0, rest.1)

-- `response_stream >> http_version`
unfoldable pub read_token : Bytes → Option (Bytes × Bytes)
unfolding skip_spaces take_token
read_token s = elim (take_token (skip_spaces s)).0 [
  | [] ↦ none
  | c ∷ cs ↦ some (take_token (skip_spaces s))
]

-- The value of the digits in front, whether there is one, and the rest
unfoldable pub take_digits : ℕ → Bool → Bytes → ℕ × Bool × Bytes
take_digits n any [] = (n, any, [])
take_digits n any (c ∷ cs) =
    let rest = take_digits (n * 10 + (c - b'0')) true cs in
    if leb b'0' c && leb c b'9' then rest else (n, any, c ∷ cs)

-- No digits or a value over 32 bits is a failure; a minus negates modulo 2^32.
abbrev to_unsigned : Bool → ℕ × Bool × Bytes → Option (ℕ × Bytes)
to_unsigned negative (n, any, rest) =
    if any && ltb n (2 ^ 32)
    then some (if negative then ((2 ^ 32 - n) % 2 ^ 32, rest) else (n, rest))
    else none

abbrev signed : Bytes → Option (ℕ × Bytes)
signed [] = none
signed (c ∷ cs) =
    if c == b'-'
    then to_unsigned true (take_digits 0 false cs)
    else if c == b'+'
    then to_unsigned false (take_digits 0 false cs)
    else to_unsigned false (take_digits 0 false (c ∷ cs))

-- `response_stream >> status_code`
unfoldable pub read_unsigned : Bytes → Option (ℕ × Bytes)
unfolding skip_spaces take_digits
read_unsigned s = signed (skip_spaces s)

-- The rest behind the next newline, and whether the end came before one
unfoldable pub drop_line : Bytes → Bytes × Bool
drop_line [] = ([], true)
drop_line (c ∷ cs) = if c == 10 then (cs, false) else drop_line cs

pub record Status : Type 0 where
  pub http_version : Bytes
  pub status_code : ℕ
  pub rest : Bytes
  pub eof : Bool

-- `getline` fails where the stream is at its end.
abbrev finish : Bytes → ℕ × Bytes → Option Status
finish version (code, []) = none
finish version (code, c ∷ cs) = some (record {
  http_version = version;
  status_code = code;
  rest = (drop_line (c ∷ cs)).0;
  eof = (drop_line (c ∷ cs)).1;
})

-- The status line
unfoldable pub read_status : Bytes → Option Status
unfolding read_token read_unsigned drop_line
read_status s = elim (read_token s) [
  | none ↦ none
  | some t ↦ elim (read_unsigned t.1) [ none ↦ none | some u ↦ finish t.0 u ]
]

-- `while (getline(response_stream, header) && header != "\r");` with `header` read so far
unfoldable pub skip_headers : Bytes → Bytes → Bytes
skip_headers header [] = []
skip_headers header (c ∷ cs) =
    let next = skip_headers [] cs in
    let on = skip_headers (header ++ (c ∷ [])) cs in
    if c == 10 then (if bytes_eq header (13 ∷ []) then cs else next) else on
