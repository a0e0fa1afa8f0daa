-- ===== src/Router/Tests.antt =====
-- The HTTP theorems at concrete requests.
use media_api.Base.{
  ℕ, ◌≡◌, ◌≢◌, ◌<◌, ◌⊎◌, refl, Bool, true, false, none, some, List, [], ◌∷◌, Bytes, codes, ok, err,
  length, arith, ltb,
}
use media_api.Effects.{fail}
use media_api.Soundkit.{pending}
use media_api.Fixtures.{clips, Script, play, scripted, scripted-Bounded, mono_clip, plain_options}
use media_api.Config.{MediaApiConfig, from_env}
use media_api.Decode.{parse_decode_options}
use media_api.Stats.{new}
use media_api.Pool.Metrics.{audio_ms}
use media_api.Grpc
use media_api.Grpc.Options.{OptionsMessage}
use media_api.Router.{
  not_found, out_of_fuel, is_body_streaming, route_body_stream, Routed, route_tables, merge_options,
}
use media_api.Router.Stream.{
  Written, response_head, data_chunk, end_of_stream, Conn, write, decode_body, no_calls,
}
use media_api.Router.Stream.Output.{Wrote, Complete, decode_body_output}
use media_api.Router.Stream.Input.{input_of, Accepts, Feeds, decode_body-input_of}
use media_api.Router.Stream.Total.{Attentive, decode_body_ends}
use media_api.Router.Safety.{http_options_safe, grpc_options_panic}

route_tables_example :
    (((is_body_streaming (codes "/stats") ≡ true)
        × (codes "/stats" ≡ codes "/decode")
        × (route_body_stream {A = ℕ} (codes "/stats") (ok 5) ≡ ok 5))
      ⊎ ((is_body_streaming (codes "/stats") ≡ false)
          × (codes "/stats" ≢ codes "/decode")
          × (route_body_stream {A = ℕ} (codes "/stats") (ok 5) ≡ err not_found)))
    × Routed 7 (new 2) (codes "/stats")
route_tables_example = route_tables 7 (new 2) (codes "/stats") (ok 5)

-- No variable is set.
abbrev defaults : MediaApiConfig
defaults = from_env (λ _. none)

-- A writer that takes 9 writes.
abbrev takes_nine : List Written → Written → Bool
takes_nine written w = ltb (length written) 9

abbrev two_clips : Script
two_clips = none ∷ some (ok mono_clip) ∷ some (err []) ∷ some (ok mono_clip) ∷ []

abbrev client_chunks : List Bytes
client_chunks = (5 ∷ []) ∷ [] ∷ (6 ∷ []) ∷ []

abbrev TwoChunks : Conn clips (scripted (two_clips ∷ [])) takes_nine → Type 0
TwoChunks c =
    c.written
    ≡ end_of_stream ∷ data_chunk (1 ∷ 2 ∷ []) ∷ data_chunk (1 ∷ 2 ∷ []) ∷ response_head ∷ []

TwoChunks-run :
    Wrote _ _ _
      (λ _. TwoChunks)
      (decode_body clips _ takes_nine 9 defaults none client_chunks (no_calls clips _ takes_nine))
unfolding decode_body write
TwoChunks-run = refl

decode_body_output_example :
    Wrote clips
      (scripted (two_clips ∷ []))
      takes_nine
      (λ _. Complete clips (scripted (two_clips ∷ [])) takes_nine)
      (decode_body clips
        (scripted (two_clips ∷ []))
        takes_nine
        9
        defaults
        none
        client_chunks
        (no_calls clips (scripted (two_clips ∷ [])) takes_nine))
decode_body_output_example =
    decode_body_output clips (scripted (two_clips ∷ [])) takes_nine 9 defaults none client_chunks

-- A poll of a script that finds nothing leaves fewer.
play-pending : (s s' : Script) → play s ≡ pending s' → length s' < length s
play-pending [] s' e = absurd cc
play-pending (none ∷ s) s' e = ground (arith, e)
play-pending (some r ∷ s) s' e = absurd cc

script-Attentive : Attentive (scripted (two_clips ∷ []))
script-Attentive = record {
  IsEnding = λ s. Unit {0};
  silence = length;
  sent_end = λ s s' e. tt;
  refused_end = λ s s' x e. tt;
  keeps_on = λ s s' r over e. tt;
  falls = λ s s' over e. (tt, play-pending s s' e);
}

decode_body_ends_example :
    (fuel : ℕ) × ((c : Conn clips (scripted (two_clips ∷ [])) takes_nine)
      → decode_body clips
          (scripted (two_clips ∷ []))
          takes_nine
          fuel
          defaults
          none
          client_chunks
          (no_calls clips (scripted (two_clips ∷ [])) takes_nine)
        ≢ fail out_of_fuel c)
decode_body_ends_example =
    decode_body_ends clips (scripted (two_clips ∷ [])) takes_nine defaults none client_chunks
      (scripted-Bounded (two_clips ∷ [])) script-Attentive

abbrev eight_bits : MediaApiConfig
eight_bits = record defaults { default_output_bits = some 8 }

http_options_safe_example :
    audio_ms (merge_options eight_bits (parse_decode_options (some (codes "bits=4")))) 640 16000 1
    ≢ none
http_options_safe_example =
    http_options_safe eight_bits (some (codes "bits=4")) 640 16000 1 (omega arith)

abbrev bits_260 : OptionsMessage
bits_260 = record { output_sample_rate = 0; output_bits_per_sample = 260; output_channels = 0 }

grpc_options_panic_example :
    audio_ms (Grpc.Options.merge_options plain_options bits_260) 640 16000 1 ≡ none
grpc_options_panic_example =
    grpc_options_panic plain_options bits_260 640 16000 1 (omega arith) (omega arith) (omega arith)
      (omega arith)

scripted-Accepts : Accepts clips (scripted (two_clips ∷ [])) takes_nine
scripted-Accepts d chunk = (d, refl)

decode_body-input_of_example :
    Feeds clips (scripted (two_clips ∷ [])) takes_nine (input_of client_chunks) [] (
      decode_body clips
        (scripted (two_clips ∷ []))
        takes_nine
        9
        defaults
        none
        client_chunks
        (no_calls clips (scripted (two_clips ∷ [])) takes_nine))
decode_body-input_of_example =
    decode_body-input_of clips (scripted (two_clips ∷ [])) takes_nine 9 defaults none client_chunks
      scripted-Accepts
