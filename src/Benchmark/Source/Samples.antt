-- ===== src/Benchmark/Source/Samples.antt =====
-- The samples of a source track, against the results that its pipeline gives.
use media_api.Base.{
  ℕ, zero, suc, ◌<◌, ◌≡◌, refl, ap, sym, ◌∙◌, Option, List, [], ◌∷◌, ◌++◌, append_assoc, append-nil,
  Bytes, Result, ok, err, if◌then◌else◌, ◌==◌, Bool-cases, inl, inr, length, arith, unwrap_or,
}
use media_api.Base.Integers.{ℤ}
use media_api.Soundkit.{AudioOps, Pipeline, sent}
use media_api.Pool.Worker.{Decoded}
use media_api.Pool.Worker.Completion.{Gives, at_end, gives}
use media_api.Benchmark.Source.{
  TrackError, unsupported_bit_depth, decode_error, on_result, recv_loop, on_output, on_eof, on_sent,
  decode_source_track, track_options,
}

module _ (a : AudioOps) (k : Pipeline a) where
  abbrev pub before : Bytes → Result Bytes TrackError → Result Bytes TrackError
  before output (ok rest) = ok (output ++ rest)
  before output (err e) = err e

  -- The bytes of all results, if each is audio of 16 bits, or the first that is not.
  abbrev samples_of : List (Decoded k) → Result Bytes TrackError
  samples_of [] = ok []
  samples_of (err e ∷ rs) = err (decode_error e)
  samples_of (ok audio ∷ rs) =
      if a.bits_per_sample audio == 16
      then before (a.bytes audio) (samples_of rs)
      else err (unsupported_bit_depth (a.bits_per_sample audio))

  before-append :
      (x y : Bytes) (r : Result Bytes TrackError) → before (x ++ y) r ≡ before x (before y r)
  before-append x y (ok z) = ap ok (append_assoc x y z)
  before-append x y (err e) = refl

  before_nil : (r : Result Bytes TrackError) → before [] r ≡ r
  before_nil (ok z) = refl
  before_nil (err e) = refl

  module _ (s16le_to_i16 : Bytes → List ℤ) where
    recv_loop-samples :
        (f : ℕ) (h : k.Handle) (rs : List (Decoded k)) (output : Bytes)
        → length rs < f
        → Gives k h rs
        → recv_loop a k s16le_to_i16 f h output ≡ before output (samples_of rs)
    unfolding recv_loop on_result
    recv_loop-samples zero h rs output lt g = absurd (omega arith)
    recv_loop-samples (suc f) h _ output lt (at_end e) = rw e (ap ok (sym (append-nil output)))
    recv_loop-samples (suc f) h _ output lt (gives {h' = h'} {r = err x} {rs = rs} e g) = rw e refl
    recv_loop-samples (suc f) h _ output lt (gives {h' = h'} {r = ok audio} {rs = rs} e g) =
        rw e (elim (Bool-cases (a.bits_per_sample audio == 16)) [
          | inl q ↦ rw q (
              recv_loop-samples f h' rs (output ++ a.bytes audio) (omega arith) g
              ∙ before-append output (a.bytes audio) (samples_of rs))
          | inr q ↦ rw q refl
        ])

-- If the pipeline takes the file and the end of the input, and then gives some results and ends, a
-- source track is decoded in as many rounds as there are results, and one more: its samples are read
-- from the bytes of all results in order, if each is audio of 16 bits and some bytes come out. A result
-- that is not makes it fail with the first such one.
pub decode_source_track-samples_of :
    (a : AudioOps) (k : Pipeline a) (s16le_to_i16 : Bytes → List ℤ) (f : ℕ) (path : Bytes)
    (file_name : Option Bytes) (bytes : Bytes) (sample_rate channels : ℕ) (h h' : k.Handle)
    (rs : List (Decoded k))
    → k.send (k.spawn_with_options (track_options sample_rate channels)) bytes ≡ sent h
    → k.send h [] ≡ sent h'
    → Gives k h' rs
    → length rs < f
    → decode_source_track a k s16le_to_i16 f path file_name (ok bytes) sample_rate channels
      ≡ on_output a k s16le_to_i16 (unwrap_or file_name path) (samples_of a k rs)
unfolding decode_source_track on_sent on_eof
decode_source_track-samples_of a k s16 f path file_name bytes sample_rate channels h h' rs takes
      ends g lt =
    rw takes (
      rw ends (
        ap (on_output a k s16 (unwrap_or file_name path))
          (recv_loop-samples a k s16 f h' rs [] lt g ∙ before_nil a k (samples_of a k rs))))
