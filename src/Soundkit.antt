-- ===== src/Soundkit.antt =====
-- What src/ uses of the audio crates, none of which it holds: `DecodeOptions` of soundkit-decoder,
-- the accessors of soundkit's `AudioData` and the handle of a decode pipeline. A handle stands
-- for the pipeline with all that decides its answers, its own thread included.
use media_api.Base.{ℕ, Bool, Option, ◌<◌, ◌≤◌, Bytes, Result}

-- `DecodeOptions`, whose fields the source reads and writes.
pub record DecodeOptions : Type 0 where
  pub output_sample_rate : Option ℕ
  pub output_bits_per_sample : Option ℕ
  pub output_channels : Option ℕ

pub record AudioOps : Type 1 where
  pub Audio : Type 0
  pub bytes : Audio → Bytes
  pub sampling_rate : Audio → ℕ
  pub channel_count : Audio → ℕ
  pub bits_per_sample : Audio → ℕ
  -- `audio_format()` is `EncodingFlag::PCMFloat`
  pub is_float : Audio → Bool
  -- `detect_audio` of access-unit
  pub AudioType : Type 0
  pub detect_audio : Bytes → AudioType

-- The answer to a non-blocking receive: a result, nothing yet, or no more results.
pub data Poll (A D : Type 0) : Type 0 where
  item : Result A Bytes → D → Poll A D
  pending : D → Poll A D
  closed : D → Poll A D

-- The answer to a blocking receive.
pub data Receive (A D : Type 0) : Type 0 where
  received : Result A Bytes → D → Receive A D
  finished : D → Receive A D

-- The answer to a send.
pub data Send (D : Type 0) : Type 0 where
  sent : D → Send D
  refused : Bytes → D → Send D

-- A receive that brings a result leaves fewer to come, and none brings more.
abbrev pub PollFalls : {A D : Type 0} → (D → ℕ) → ℕ → Poll A D → Type 0
PollFalls size n (item r d) = size d < n
PollFalls size n (pending d) = size d ≤ n
PollFalls size n (closed d) = size d ≤ n

abbrev pub ReceiveFalls : {A D : Type 0} → (D → ℕ) → ℕ → Receive A D → Type 0
ReceiveFalls size n (received r d) = size d < n
ReceiveFalls size n (finished d) = size d ≤ n

-- `DecodePipelineHandle`; `try_recv` finds a result or none for now, and `recv` none at all.
pub record Pipeline (a : AudioOps) : Type 1 where
  pub Handle : Type 0
  pub spawn_with_options : DecodeOptions → Handle
  pub send : Handle → Bytes → Send Handle
  pub try_recv : Handle → Receive a.Audio Handle
  pub recv : Handle → Receive a.Audio Handle

-- `DecoderPool::acquire` and the methods of `PooledDecoder`, as the three protocol handlers use
-- them. The first argument of `acquire` counts the calls before it. `backlog` is a number of
-- results, by which the model bounds its loops over a decoder's output (`Bounded` says when that is
-- enough). Calls that wait forever are left out.
pub record Decoders (a : AudioOps) : Type 1 where
  pub Decoder : Type 0
  pub acquire : ℕ → DecodeOptions → Result Decoder Bytes
  pub send : Decoder → Bytes → Send Decoder
  pub try_recv : Decoder → Poll a.Audio Decoder
  pub recv : Decoder → Receive a.Audio Decoder
  pub backlog : Decoder → ℕ

-- Decoders that have at most `backlog` results to give until they are sent more input. A decoder of
-- soundkit that answers a finite input with finitely many results is of this kind.
pub record Bounded {a : AudioOps} (p : Decoders a) : Type 0 where
  pub try_recv-backlog : (d : p.Decoder) → PollFalls p.backlog (p.backlog d) (p.try_recv d)
  pub recv-backlog : (d : p.Decoder) → ReceiveFalls p.backlog (p.backlog d) (p.recv d)
