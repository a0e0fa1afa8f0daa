-- ===== src/Grpc/Tests.antt =====
-- The gRPC theorems at concrete streams.
use media_api.Base.{◌≡◌, ◌≢◌, refl, Bool, true, none, some, List, [], ◌∷◌, ok}
use media_api.Effects.{ret, fail}
use media_api.Fixtures.{clips, Script, scripted, scripted-Bounded, mono_clip, plain_options}
use media_api.Grpc.Options.{OptionsMessage, DecodeRequest}
use media_api.Grpc.Stream.{
  Response, pcm_data, stream_end, cancelled, out_of_fuel, Task, fed, new_task, decode,
  send_response, drain_decoder_sync,
}
use media_api.Grpc.Stream.Owed.{Sent, Settled}
use media_api.Grpc.Stream.Responses.{decode-responses}
use media_api.Grpc.Stream.Payloads.{Feeds, payloads, idle}
use media_api.Grpc.Stream.Forward.{decode-payloads}
use media_api.Grpc.Stream.Total.{
  decode-Ends, Silent, none_left, nothing, drain_decoder_sync_gives_up,
}

abbrev rate_only : OptionsMessage
rate_only = record { output_sample_rate = 8000; output_bits_per_sample = 0; output_channels = 2 }

abbrev first_message : DecodeRequest
first_message = record { payload = 5 ∷ []; options = some rate_only; new_segment = true }

abbrev next_segment : DecodeRequest
next_segment = record { payload = []; options = none; new_segment = true }

abbrev one_clip : Script
one_clip = none ∷ some (ok mono_clip) ∷ []

abbrev always : List Response → Bool
always rs = true

abbrev OneResponse : Task clips (scripted (one_clip ∷ [] ∷ [])) always → Type 0
OneResponse t = t.responses ≡ pcm_data (1 ∷ 2 ∷ []) ∷ []

two_segments :
    Sent _ _ _
      (λ _. OneResponse)
      (decode clips _ always plain_options stream_end (first_message ∷ next_segment ∷ []))
unfolding decode send_response
two_segments = refl

decode-responses_example :
    Sent clips
      (scripted (one_clip ∷ [] ∷ []))
      always
      (λ _. Settled clips (scripted (one_clip ∷ [] ∷ [])) always)
      (decode clips
        (scripted (one_clip ∷ [] ∷ []))
        always
        plain_options
        stream_end
        (first_message ∷ next_segment ∷ []))
decode-responses_example =
    decode-responses clips (scripted (one_clip ∷ [] ∷ [])) always plain_options stream_end
      (first_message ∷ next_segment ∷ [])

payloads_test : payloads (first_message ∷ next_segment ∷ []) ≡ (5 ∷ []) ∷ []
payloads_test = refl

decode-payloads_example :
    Feeds clips (scripted (one_clip ∷ [] ∷ [])) always ((5 ∷ []) ∷ []) [] idle (
      decode clips
        (scripted (one_clip ∷ [] ∷ []))
        always
        plain_options
        stream_end
        (first_message ∷ next_segment ∷ []))
decode-payloads_example =
    decode-payloads clips (scripted (one_clip ∷ [] ∷ [])) always plain_options stream_end
      (first_message ∷ next_segment ∷ [])

decode-Ends_example :
    decode clips (scripted (one_clip ∷ [])) always plain_options cancelled (first_message ∷ [])
    ≢ fail out_of_fuel (new_task clips (scripted (one_clip ∷ [])) always)
decode-Ends_example =
    decode-Ends clips (scripted (one_clip ∷ [])) always plain_options cancelled (first_message ∷ [])
      (new_task clips (scripted (one_clip ∷ [])) always) (scripted-Bounded (one_clip ∷ []))

-- Eleven polls find nothing, and the audio comes with the twelfth.
abbrev slow : Script
slow =
    none
    ∷ none
    ∷ none
    ∷ none
    ∷ none
    ∷ none
    ∷ none
    ∷ none
    ∷ none
    ∷ none
    ∷ none
    ∷ some (ok mono_clip)
    ∷ []

slow-Silent : Silent (scripted []) 11 slow
slow-Silent = nothing refl (
    nothing refl (
      nothing refl (
        nothing refl (
          nothing refl (
            nothing refl (
              nothing refl
                (nothing refl (nothing refl (nothing refl (nothing refl none_left))))))))))

drain_decoder_sync_gives_up_example :
    drain_decoder_sync clips (scripted []) always slow (new_task clips (scripted []) always)
    ≡ ret [] (record { responses = []; calls = fed [] ∷ []; acquisitions = 0 })
drain_decoder_sync_gives_up_example =
    drain_decoder_sync_gives_up clips (scripted []) always slow
      (new_task clips (scripted []) always) slow-Silent
