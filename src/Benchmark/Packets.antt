-- ===== src/Benchmark/Packets.antt =====
-- `encode_with_soundkit`, `decode_with_soundkit`, `encode_with_libopus_rust` and
-- `decode_with_libopus_rust` of src/bin/opus_benchmark.rs: a track as a stream of packets, each
-- behind its length. The two Opus libraries are parameters.
pub mod Framing
pub mod Frames
pub mod Total
use media_api.Base.{
  ℕ, zero, suc, ◌≡◌, ◌+◌, ◌*◌, ◌-◌, ◌/◌, ◌%◌, ◌^◌, ◌≤◌, List, [], ◌∷◌, ◌++◌, Bytes, codes, Result,
  ok, err, take, drop, length, replicate, is_empty, ltb, ◌==◌, if◌then◌else◌,
}
use media_api.Base.Integers.{ℤ, pos}

abbrev pub max_frame_samples : ℕ
max_frame_samples = 5760

-- The samples of a channel in 20 ms, at whole kilohertz.
abbrev pub frame_size : ℕ → ℕ
frame_size sample_rate = sample_rate / 1000 * 20

-- What the benchmark uses of an Opus library.
pub record Opus : Type 1 where
  pub Encoder : Type 0
  pub Decoder : Type 0
  -- the packet, which fits the buffer of 1500 bytes
  pub encode : Encoder → List ℤ → Result (Bytes × Encoder) Bytes
  pub encode-fits :
      (e e' : Encoder) (frame : List ℤ) (packet : Bytes)
      → encode e frame ≡ ok (packet, e')
      → length packet ≤ 1500
  -- the samples for each channel, and the buffer with them
  pub decode : Decoder → Bytes → List ℤ → Result (ℕ × List ℤ × Decoder) Bytes

pub data Failure : Type 0 where
  failed : Bytes → Failure
  truncated : Failure
  -- a slice out of range, or chunks of no samples
  panicked : Failure
  -- a loop of the model used up its fuel
  out_of_fuel : Failure

abbrev pub to_le_bytes : ℕ → Bytes
to_le_bytes n = (n % 256) ∷ (n / 2 ^ 8 % 256) ∷ (n / 2 ^ 16 % 256) ∷ (n / 2 ^ 24 % 256) ∷ []

abbrev pub from_le_bytes : ℕ → ℕ → ℕ → ℕ → ℕ
from_le_bytes a b c d = a + b * 2 ^ 8 + c * 2 ^ 16 + d * 2 ^ 24

module _ (o : Opus) where
  -- `pcm.chunks(n)`, for a positive `n`
  unfoldable pub chunks : ℕ → ℕ → List ℤ → List (List ℤ)
  chunks zero n pcm = []
  chunks (suc f) n pcm =
      let rest = chunks f n (drop n pcm) in if is_empty pcm then [] else take n pcm ∷ rest

  -- `frame.fill(0)` and the copy of a chunk to its start
  abbrev pub padded : ℕ → List ℤ → List ℤ
  padded frame_samples chunk = chunk ++ replicate (frame_samples - length chunk) (pos 0)

  -- One round of the loop; the first argument is the rest of the loop, and `message` adds what the
  -- caller puts before an error.
  pub on_encoded :
      (Bytes → Bytes)
      → (o.Encoder → Bytes → Result Bytes Failure)
      → Bytes
      → Result (Bytes × o.Encoder) Bytes
      → Result Bytes Failure
  on_encoded message next packets (err x) = err (failed (message x))
  on_encoded message next packets (ok (encoded, e)) =
      if is_empty encoded
      then next e packets
      else next e ((packets ++ to_le_bytes (length encoded)) ++ encoded)

  unfoldable pub encode_chunks :
      (Bytes → Bytes) → ℕ → List (List ℤ) → o.Encoder → Bytes → Result Bytes Failure
  unfolding on_encoded
  encode_chunks message frame_samples [] e packets = ok packets
  encode_chunks message frame_samples (chunk ∷ rest) e packets =
      on_encoded message (encode_chunks message frame_samples rest) packets
        (o.encode e (padded frame_samples chunk))

  -- An encoder that is set up, and the products of a 64-bit target that do not saturate.
  unfoldable pub encode_with : (Bytes → Bytes) → o.Encoder → ℕ → ℕ → List ℤ → Result Bytes Failure
  unfolding encode_chunks chunks
  encode_with message e channels size pcm =
      let frame_samples = size * channels in
      if frame_samples == 0
      then err panicked
      else encode_chunks message frame_samples (chunks (suc (length pcm)) frame_samples pcm) e []

  abbrev pub encode_with_soundkit : o.Encoder → ℕ → ℕ → List ℤ → Result Bytes Failure
  encode_with_soundkit = encode_with (λ e. e)

  abbrev pub encode_with_libopus_rust : o.Encoder → ℕ → ℕ → List ℤ → Result Bytes Failure
  encode_with_libopus_rust = encode_with (λ e. codes "libopus-rs encode: " ++ e)

  -- A decoded packet: its samples are copied from the start of the buffer.
  pub on_decoded :
      (Bytes → Bytes)
      → ℕ
      → (o.Decoder → List ℤ → List ℤ → Result (List ℤ) Failure)
      → List ℤ
      → Result (ℕ × List ℤ × o.Decoder) Bytes
      → Result (List ℤ) Failure
  on_decoded message channels next decoded (err x) = err (failed (message x))
  on_decoded message channels next decoded (ok (samples_per_channel, scratch, d)) =
      let sample_count = samples_per_channel * channels in
      if ltb (length scratch) sample_count
      then err panicked
      else next d scratch (decoded ++ take sample_count scratch)

  -- The part of a round behind a packet's length; `again` is the rest of the loop.
  pub on_length :
      (Bytes → Bytes)
      → ℕ
      → (Bytes → o.Decoder → List ℤ → List ℤ → Result (List ℤ) Failure)
      → ℕ
      → Bytes
      → o.Decoder
      → List ℤ
      → List ℤ
      → Result (List ℤ) Failure
  unfolding on_decoded
  on_length message channels again packet_len rest d scratch decoded =
      if packet_len == 0
      then again rest d scratch decoded
      else if ltb (length rest) packet_len
      then err truncated
      else on_decoded message channels (again (drop packet_len rest)) decoded
          (o.decode d (take packet_len rest) scratch)

  -- The loop over the bytes from the cursor on, which stops before an incomplete length.
  unfoldable pub decode_packets :
      (Bytes → Bytes) → ℕ → ℕ → Bytes → o.Decoder → List ℤ → List ℤ → Result (List ℤ) Failure
  unfolding on_length
  decode_packets message channels zero packets d scratch decoded = err out_of_fuel
  decode_packets message channels (suc f) (a ∷ b ∷ c ∷ e ∷ rest) d scratch decoded =
      on_length message channels (decode_packets message channels f) (from_le_bytes a b c e) rest d
        scratch decoded
  decode_packets message channels (suc f) packets d scratch decoded = ok decoded

  unfoldable pub decode_with : (Bytes → Bytes) → o.Decoder → ℕ → Bytes → Result (List ℤ) Failure
  unfolding decode_packets
  decode_with message d channels packets =
      decode_packets message channels (suc (length packets)) packets d
        (replicate (max_frame_samples * channels) (pos 0)) []

  abbrev pub decode_with_soundkit : o.Decoder → ℕ → Bytes → Result (List ℤ) Failure
  decode_with_soundkit = decode_with (λ e. e)

  abbrev pub decode_with_libopus_rust : o.Decoder → ℕ → Bytes → Result (List ℤ) Failure
  decode_with_libopus_rust = decode_with (λ e. codes "libopus-rs decode: " ++ e)
