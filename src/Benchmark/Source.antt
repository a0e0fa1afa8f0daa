-- ===== src/Benchmark/Source.antt =====
-- `discover_mp3_tracks` and `decode_source_track` of src/bin/opus_benchmark.rs. The directory, the files
-- and the decode pipeline are parameters.
pub mod Samples
use media_api.Base.{
  ℕ, zero, suc, Bool, true, false, ◌&&◌, Option, none, some, List, [], ◌∷◌, ◌++◌, Bytes, codes,
  Result, ok, err, if◌then◌else◌, is_empty, text_eq, ◌==◌, unwrap_or,
}
use media_api.Base.Integers.{ℤ}
use media_api.Config.{to_lowercase}
use media_api.Soundkit.{
  DecodeOptions, AudioOps, Receive, received, finished, Send, sent, refused, Pipeline,
}

-- An entry of the directory, by what is asked of its path.
pub record DirEntry : Type 0 where
  pub path : Bytes
  pub extension : Option Bytes
  pub is_file : Bool

pub record SourceTrack : Type 0 where
  pub name : Bytes
  pub pcm : List ℤ

-- `path().extension().is_some_and(…) && path().is_file()`
abbrev is_mp3 : Option Bytes → Bool
is_mp3 none = false
is_mp3 (some ext) = text_eq (to_lowercase ext) (codes "mp3")

unfoldable pub keep : DirEntry → Bool
unfolding to_lowercase
keep entry = is_mp3 entry.extension && entry.is_file

-- Entries that cannot be read are left out, as is a directory that cannot be.
kept_paths : List (Result DirEntry Bytes) → List Bytes
unfolding keep
kept_paths [] = []
kept_paths (err e ∷ entries) = kept_paths entries
kept_paths (ok entry ∷ entries) =
    let rest = kept_paths entries in if keep entry then entry.path ∷ rest else rest

-- `sort`, by the order of paths.
insert : (Bytes → Bytes → Bool) → Bytes → List Bytes → List Bytes
insert path_le x [] = x ∷ []
insert path_le x (y ∷ ys) =
    let rest = insert path_le x ys in if path_le x y then x ∷ y ∷ ys else y ∷ rest

sort : (Bytes → Bytes → Bool) → List Bytes → List Bytes
unfolding insert
sort path_le [] = []
sort path_le (x ∷ xs) = insert path_le x (sort path_le xs)

unfoldable pub discover_mp3_tracks :
    (Bytes → Bytes → Bool) → Result (List (Result DirEntry Bytes)) Bytes → List Bytes
unfolding kept_paths sort
discover_mp3_tracks path_le (err e) = []
discover_mp3_tracks path_le (ok entries) = sort path_le (kept_paths entries)

pub data TrackError : Type 0 where
  read_failed : Bytes → TrackError
  send_failed : Bytes → TrackError
  eof_send_failed : Bytes → TrackError
  unsupported_bit_depth : ℕ → TrackError
  decode_error : Bytes → TrackError
  no_audio : TrackError
  -- a loop of the model used up its fuel
  out_of_fuel : TrackError

-- The options of every source track.
abbrev pub track_options : ℕ → ℕ → DecodeOptions
track_options sample_rate channels = record {
  output_sample_rate = some sample_rate;
  output_bits_per_sample = some 16;
  output_channels = some channels;
}

-- `s16le_to_i16` is of soundkit.
module _ (a : AudioOps) (k : Pipeline a) (s16le_to_i16 : Bytes → List ℤ) where
  -- One round of the loop; `again` is the rest of it.
  pub on_result :
      (k.Handle → Bytes → Result Bytes TrackError)
      → Bytes
      → Receive a.Audio k.Handle
      → Result Bytes TrackError
  on_result again output (received (ok audio_data) h) =
      if a.bits_per_sample audio_data == 16
      then again h (output ++ a.bytes audio_data)
      else err (unsupported_bit_depth (a.bits_per_sample audio_data))
  on_result again output (received (err error) h) = err (decode_error error)
  on_result again output (finished h) = ok output

  unfoldable pub recv_loop : ℕ → k.Handle → Bytes → Result Bytes TrackError
  unfolding on_result
  recv_loop zero h output = err out_of_fuel
  recv_loop (suc f) h output = on_result (recv_loop f) output (k.recv h)

  pub on_output : Bytes → Result Bytes TrackError → Result SourceTrack TrackError
  on_output name (err e) = err e
  on_output name (ok output) =
      if is_empty output
      then err no_audio
      else ok (record { name = name; pcm = s16le_to_i16 output })

  pub on_eof : ℕ → Bytes → Send k.Handle → Result SourceTrack TrackError
  unfolding on_output recv_loop
  on_eof f name (refused e h) = err (eof_send_failed e)
  on_eof f name (sent h) = on_output name (recv_loop f h [])

  pub on_sent : ℕ → Bytes → Send k.Handle → Result SourceTrack TrackError
  unfolding on_eof
  on_sent f name (refused e h) = err (send_failed e)
  on_sent f name (sent h) = on_eof f name (k.send h [])

  -- The track of a file, of which the path, the name and the contents are given.
  unfoldable pub decode_source_track :
      ℕ → Bytes → Option Bytes → Result Bytes Bytes → ℕ → ℕ → Result SourceTrack TrackError
  unfolding on_sent
  decode_source_track f path file_name (err e) sample_rate channels = err (read_failed e)
  decode_source_track f path file_name (ok bytes) sample_rate channels =
      on_sent f (unwrap_or file_name path)
        (k.send (k.spawn_with_options (track_options sample_rate channels)) bytes)
