-- ===== src/Fixtures.antt =====
-- Concrete audio and decoders that play a script, at which the theorems about the handlers are run.
use media_api.Base.{
  ℕ, zero, suc, Bool, false, Option, none, some, List, [], ◌∷◌, Bytes, codes, length, Result, ok,
  err, arith,
}
use media_api.Soundkit.{
  DecodeOptions, AudioOps, Poll, item, pending, closed, Receive, received, finished, sent, Decoders,
  PollFalls, ReceiveFalls, Bounded,
}

pub record Clip : Type 0 where
  pub bytes : Bytes
  pub sampling_rate : ℕ
  pub channel_count : ℕ
  pub bits_per_sample : ℕ
  pub is_float : Bool

abbrev pub clips : AudioOps
clips = record {
  Audio = Clip;
  bytes = λ c. c.bytes;
  sampling_rate = λ c. c.sampling_rate;
  channel_count = λ c. c.channel_count;
  bits_per_sample = λ c. c.bits_per_sample;
  is_float = λ c. c.is_float;
  AudioType = ℕ;
  detect_audio = length;
}

-- The answers to the polls still to come; `none` is a poll that finds nothing.
abbrev pub Script : Type 0
Script = List (Option (Result Clip Bytes))

abbrev pub play : Script → Poll Clip Script
play [] = closed []
play (none ∷ s) = pending s
play (some r ∷ s) = item r s

abbrev pub wait : Script → Receive Clip Script
wait [] = finished []
wait (none ∷ s) = wait s
wait (some r ∷ s) = received r s

pub play-length : (s : Script) → PollFalls length (length s) (play s)
play-length [] = omega arith
play-length (none ∷ s) = omega arith
play-length (some r ∷ s) = omega arith

pub wait-length : (s : Script) → ReceiveFalls length (length s) (wait s)
wait-length [] = omega arith
wait-length (none ∷ s) = weaken (wait s) (wait-length s)
  where
    weaken :
        (r : Receive Clip Script)
        → ReceiveFalls length (length s) r
        → ReceiveFalls length (suc (length s)) r
    weaken (received x d) h = omega arith
    weaken (finished d) h = omega arith
wait-length (some r ∷ s) = omega arith

abbrev pub nth_script : List Script → ℕ → Result Script Bytes
nth_script [] n = err (codes "Decoder pool shutdown")
nth_script (s ∷ ss) zero = ok s
nth_script (s ∷ ss) (suc n) = nth_script ss n

-- Decoders that play the given scripts in turn, and take every chunk.
abbrev pub scripted : List Script → Decoders clips
scripted ss = record {
  Decoder = Script;
  acquire = λ n _. nth_script ss n;
  send = λ s _. sent s;
  try_recv = play;
  recv = wait;
  backlog = length;
}

pub scripted-Bounded : (ss : List Script) → Bounded (scripted ss)
scripted-Bounded ss = record { try_recv-backlog = play-length; recv-backlog = wait-length }

abbrev pub mono_clip : Clip
mono_clip = record {
  bytes = 1 ∷ 2 ∷ [];
  sampling_rate = 16000;
  channel_count = 1;
  bits_per_sample = 16;
  is_float = false;
}

abbrev pub plain_options : DecodeOptions
plain_options = record {
  output_sample_rate = some 16000;
  output_bits_per_sample = some 16;
  output_channels = none;
}
