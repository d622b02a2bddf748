-- ===== src/Wire/Framing.antt =====
-- common/Metric.cpp: `WriteMessage`, and a reader of the frames that it writes. How a message is
-- encoded comes by the interface `Encoder`, which Wire/Encoding fills.
use mozilla_telemetry.Prelude.{
  ℕ, zero, suc, ◌%◌, ◌^◌, ◌<◌, ◌≤◌, ◌≡◌, refl, sym, ap, ◌∙◌, Bool, true, not, Option, none, some,
  List, [], ◌∷◌, ◌++◌, append_assoc, append-nil, map, arith, length, take, drop, take-append,
  drop-append, All, Bytes, ◌==◌, if◌then◌else◌,
}
use mozilla_telemetry.Constants.{record_separator, unit_separator}
use mozilla_telemetry.Metric.{Message}
use mozilla_telemetry.Wire.{
  WireFormat, Header, new_header, set_message_length, serialize, byte_size, length-serialize,
}

-- `ByteSize` and `SerializeToOstream` of a message
pub record Encoder : Type 0 where
  pub encode : Message → Bytes
  pub message_size : Message → ℕ
  pub length-encode : (m : Message) → length (encode m) ≡ message_size m

-- An output stream over a file: whether it is open and has not failed, and what was written to it.
pub record Output : Type 0 where
  pub is_open : Bool
  pub is_good : Bool
  pub written : Bytes

five_puts :
    (w h e : Bytes) (n : ℕ)
    → ((((w ++ (record_separator ∷ [])) ++ (n ∷ [])) ++ h) ++ (unit_separator ∷ [])) ++ e
      ≡ w ++ (record_separator ∷ (n ∷ (h ++ (unit_separator ∷ e))))
five_puts w h e n =
    append_assoc (((w ++ (record_separator ∷ [])) ++ (n ∷ [])) ++ h) (unit_separator ∷ []) e
    ∙ append_assoc ((w ++ (record_separator ∷ [])) ++ (n ∷ [])) h (unit_separator ∷ e)
    ∙ append_assoc (w ++ (record_separator ∷ [])) (n ∷ []) (h ++ (unit_separator ∷ e))
    ∙ append_assoc w (record_separator ∷ []) (n ∷ (h ++ (unit_separator ∷ e)))

module _ (F : WireFormat) (E : Encoder) where
  open E use {encode, message_size}

  -- The header of a message
  abbrev pub header_of_message : Message → Header
  header_of_message m = set_message_length (message_size m) new_header

  abbrev put : Bytes → Output → Output
  put bs os = record os { written = os.written ++ bs }

  -- `WriteMessage`; the size of the header is written as a `char`.
  unfoldable pub write_message : Output → Message → Output
  write_message os m =
      if not os.is_good
      then os
      else let h = header_of_message m in
        put (encode m) (
          put (unit_separator ∷ []) (
            put (serialize F h)
              (put ((byte_size F h % 256) ∷ []) (put (record_separator ∷ []) os))))

  -- A message with its frame
  abbrev pub framed : Message → Bytes
  framed m =
      let h = header_of_message m in
      record_separator ∷ (byte_size F h ∷ (serialize F h ++ (unit_separator ∷ encode m)))

  header_small : (m : Message) → byte_size F (header_of_message m) < 256
  unfolding byte_size set_message_length
  header_small m = omega (arith, F.uint32_size-le (message_size m))

  -- On a stream that has not failed, `WriteMessage` appends the message with its frame.
  pub write_message-framed :
      (os : Output) (m : Message)
      → os.is_good ≡ true
      → write_message os m ≡ record os { written = os.written ++ framed m }
  unfolding write_message
  write_message-framed os m good =
      let h = header_of_message m in
      let small : byte_size F h % 256 ≡ byte_size F h = omega (arith, header_small m) in
      let with_bytes : Bytes → Output =
        λ w. record { is_open = os.is_open; is_good = true; written = w } in
      rw (good, write_message)
        (ap with_bytes (
          five_puts os.written (serialize F h) (encode m) (byte_size F h % 256)
          ∙ ap
              (λ (n : ℕ).
                os.written
                ++ (record_separator ∷ (n ∷ (serialize F h ++ (unit_separator ∷ encode m)))))
              small))

  -- What is written before the last message stays in front of it.
  unfoldable pub write_all : Output → List Message → Output
  write_all os [] = os
  write_all os (m ∷ ms) = write_all (write_message os m) ms

  -- The frames of messages
  abbrev pub frames_of : List Message → Bytes
  frames_of [] = []
  frames_of (m ∷ ms) = framed m ++ frames_of ms

  pub write_all-frames_of :
      (os : Output) (ms : List Message)
      → os.is_good ≡ true
      → write_all os ms ≡ record os { written = os.written ++ frames_of ms }
  unfolding write_all
  write_all-frames_of os [] good =
      ap (λ (w : Bytes). record os { written = w }) (sym (append-nil os.written))
  write_all-frames_of os (m ∷ ms) good =
      let os' = record os { written = os.written ++ framed m } in
      ap (λ (o : Output). write_all o ms) (write_message-framed os m good)
      ∙ write_all-frames_of os' ms good
      ∙ ap (λ (w : Bytes). record os { written = w })
          (append_assoc os.written (framed m) (frames_of ms))

-- A reader of the frames, from the format alone: a separator, the size of the header, the header,
-- a separator, and as many bytes as the header says. `decode` reads a header.
module _ (decode : Bytes → Option ℕ) where
  read_body : Option ℕ → Bytes → Option (Bytes × Bytes)
  read_body none bs = none
  read_body (some n) [] = none
  read_body (some n) (c ∷ bs) = if c == unit_separator then some (take n bs, drop n bs) else none

  read_frame_header : Bytes → Option (Bytes × Bytes)
  read_frame_header [] = none
  read_frame_header (size ∷ bs) = read_body (decode (take size bs)) (drop size bs)

  unfoldable pub read_frame : Bytes → Option (Bytes × Bytes)
  unfolding read_frame_header read_body
  read_frame [] = none
  read_frame (c ∷ bs) = if c == record_separator then read_frame_header bs else none

  -- Every frame, up to the end
  unfoldable pub read_frames : ℕ → Bytes → Option (List Bytes)
  unfolding read_frame read_frame_header read_body
  read_frames fuel [] = some []
  read_frames zero (c ∷ cs) = none
  read_frames (suc fuel) (c ∷ cs) = elim (read_frame (c ∷ cs)) [
    | none ↦ none
    | some f ↦ elim (read_frames fuel f.1) [ none ↦ none | some fs ↦ some (f.0 ∷ fs) ]
  ]

module _ (F : WireFormat) (E : Encoder) (decode : Bytes → Option ℕ)
    (decodes : (n : ℕ) → n < 2 ^ 32 → decode (F.write_uint32 1 n) ≡ some n) where
  open E use {encode, message_size}

  decode-header :
      (m : Message)
      → message_size m < 2 ^ 32
      → decode (serialize F (header_of_message F E m)) ≡ some (length (encode m))
  unfolding serialize set_message_length
  decode-header m fits =
      ap decode (append-nil (F.write_uint32 1 (message_size m)))
      ∙ decodes (message_size m) fits
      ∙ ap some (sym (E.length-encode m))

  read_frame-framed :
      (m : Message) (rest : Bytes)
      → message_size m < 2 ^ 32
      → read_frame decode (framed F E m ++ rest) ≡ some (encode m, rest)
  unfolding read_frame read_frame_header read_body
  read_frame-framed m rest fits =
      let h = header_of_message F E m in
      let head = serialize F h in
      let size = byte_size F h in
      let body = unit_separator ∷ (encode m ++ rest) in
      let sized : length head ≡ size = length-serialize F h in
      let taken : take size (head ++ body) ≡ head =
        ap (λ (n : ℕ). take n (head ++ body)) (sym sized) ∙ take-append head body in
      let dropped : drop size (head ++ body) ≡ body =
        ap (λ (n : ℕ). drop n (head ++ body)) (sym sized) ∙ drop-append head body in
      ap (λ (b : Bytes). read_frame_header decode (size ∷ b))
        (append_assoc head (unit_separator ∷ encode m) rest)
      ∙ ap (λ (b : Bytes). read_body decode (decode b) (drop size (head ++ body))) taken
      ∙ ap (read_body decode (decode head)) dropped
      ∙ ap (λ (n : Option ℕ). read_body decode n body) (decode-header m fits)
      ∙ ap (λ (b : Bytes). some (b, drop (length (encode m)) (encode m ++ rest)))
          (take-append (encode m) rest)
      ∙ ap (λ (b : Bytes). some (encode m, b)) (drop-append (encode m) rest)

  read_frames-frames_of :
      (ms : List Message) (fuel : ℕ)
      → All (λ m. message_size m < 2 ^ 32) ms
      → length ms ≤ fuel
      → read_frames decode fuel (frames_of F E ms) ≡ some (map encode ms)
  unfolding read_frames
  read_frames-frames_of [] fuel small h = refl
  read_frames-frames_of (m ∷ ms) zero small h = absurd (omega (arith, h))
  read_frames-frames_of (m ∷ ms) (suc fuel) small h = rw (
    read_frame-framed m (frames_of F E ms) small.0,
    read_frames-frames_of ms fuel small.1 (omega (arith, h)),
    read_frames,
  )

  -- What `WriteMessage` has written for messages of less than 4 GiB, to a new stream that has not
  -- failed, is read back by the reader as the encodings of these messages, in order, where the reader
  -- can decode the length in a header and has a round for each message.
  pub read_frames-write_all :
      (ms : List Message) (fuel : ℕ) (opened : Bool)
      → All (λ m. message_size m < 2 ^ 32) ms
      → length ms ≤ fuel
      → read_frames decode fuel
          (write_all F E (record { is_open = opened; is_good = true; written = [] }) ms).written
        ≡ some (map encode ms)
  read_frames-write_all ms fuel opened small h =
      ap (λ (o : Output). read_frames decode fuel o.written)
        (write_all-frames_of F E (record { is_open = opened; is_good = true; written = [] }) ms
          refl)
      ∙ read_frames-frames_of ms fuel small h
