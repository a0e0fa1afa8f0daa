-- ===== src/Tcp/Tests.antt =====
-- The TCP theorems at concrete connections.
use media_api.Base.{
  ℕ, ◌<◌, ◌≡◌, ◌≢◌, ◌⊎◌, ◌≤◌, refl, true, none, some, List, [], ◌∷◌, ◌++◌, ok, err, length, arith,
}
use media_api.Effects.{fail}
use media_api.Fixtures.{clips, scripted, scripted-Bounded, mono_clip, plain_options}
use media_api.Tcp.Meta.{
  float, Meta, encode_meta, decode_meta, decode_meta-encode_meta, decode_meta_sound, normal_meta,
}
use media_api.Tcp.Session.{
  send_audio, eof, read_error, out_of_fuel, Conn, no_calls, write_frame, handle_decode_stream,
}
use media_api.Tcp.Fixtures.{numbered, client_frames, client, peers}
use media_api.Tcp.Server.{
  Connection, TcpDecodeServer, Event, accepted, accept_error, shutdown, start, new, accept_loop,
  arrivals,
}
use media_api.Tcp.Server.Connections.{EachProper, start-EachProper}
use media_api.Tcp.Session.Writes.{Wrote}
use media_api.Tcp.Session.Frames.{Written, handle_decode_stream_frames}
use media_api.Tcp.Session.Input.{input_from, Accepts, Feeds}
use media_api.Tcp.Session.Forward.{handle_decode_stream-input_from}
use media_api.Tcp.Session.Total.{handle_decode_stream-Ends}

abbrev stereo_meta : Meta
stereo_meta = record { sample_rate = 48000; channels = 2; bits = 32; encoding = float }

decode_meta-encode_meta_example :
    decode_meta (encode_meta 48000 2 32 float ++ 9 ∷ []) ≡ some stereo_meta
decode_meta-encode_meta_example = decode_meta-encode_meta stereo_meta (9 ∷ []) (omega arith)

decode_meta_sound_example :
    ((length {A = ℕ} (1 ∷ []) < 7) × (decode_meta (1 ∷ []) ≡ none))
    ⊎ ((m : Meta) × (decode_meta (1 ∷ []) ≡ some m)
        × (7 ≤ length {A = ℕ} (1 ∷ []))
        × (encode_meta m.sample_rate m.channels m.bits m.encoding ≡ normal_meta (1 ∷ [])))
decode_meta_sound_example = decode_meta_sound (1 ∷ []) (omega arith)

abbrev TwoSessions :
    Conn clips
      (scripted ((none ∷ some (ok mono_clip) ∷ some (err []) ∷ some (ok mono_clip) ∷ []) ∷ [] ∷ []))
      numbered
    → Type 0
TwoSessions c =
    c.written
    ≡ (3, [])
      ∷ (3, [])
      ∷ (2, 1 ∷ 2 ∷ [])
      ∷ (2, 1 ∷ 2 ∷ [])
      ∷ (4, 0 ∷ 0 ∷ 62 ∷ 128 ∷ 1 ∷ 16 ∷ 0 ∷ [])
      ∷ []

TwoSessions-run :
    Wrote _ _ _
      (λ _. TwoSessions)
      (handle_decode_stream clips _ numbered plain_options eof client_frames)
unfolding handle_decode_stream send_audio write_frame encode_meta
TwoSessions-run = refl

handle_decode_stream_frames_example :
    Wrote clips
      (scripted ((none ∷ some (ok mono_clip) ∷ []) ∷ [] ∷ []))
      numbered
      (λ _. Written clips (scripted ((none ∷ some (ok mono_clip) ∷ []) ∷ [] ∷ [])) numbered)
      (handle_decode_stream clips
        (scripted ((none ∷ some (ok mono_clip) ∷ []) ∷ [] ∷ []))
        numbered
        plain_options
        eof
        client_frames)
handle_decode_stream_frames_example =
    handle_decode_stream_frames clips (scripted ((none ∷ some (ok mono_clip) ∷ []) ∷ [] ∷ []))
      numbered plain_options eof client_frames

handle_decode_stream-Ends_example :
    handle_decode_stream clips (scripted ([] ∷ [])) numbered plain_options read_error client_frames
    ≢ fail out_of_fuel (no_calls clips (scripted ([] ∷ [])) numbered)
handle_decode_stream-Ends_example =
    handle_decode_stream-Ends clips (scripted ([] ∷ [])) numbered plain_options read_error
      client_frames (no_calls clips (scripted ([] ∷ [])) numbered) (scripted-Bounded ([] ∷ []))

input_test :
    input_from clips (scripted []) numbered true client_frames ≡ (5 ∷ []) ∷ (6 ∷ []) ∷ [] ∷ [] ∷ []
input_test = refl

scripted-Accepts : Accepts clips (scripted ([] ∷ [] ∷ [])) numbered
scripted-Accepts d chunk = (d, refl)

handle_decode_stream-input_from_example :
    Feeds clips
      (scripted ([] ∷ [] ∷ []))
      numbered
      (input_from clips (scripted ([] ∷ [] ∷ [])) numbered true client_frames)
      (λ _. [])
      (handle_decode_stream clips
        (scripted ([] ∷ [] ∷ []))
        numbered
        plain_options
        eof
        client_frames)
handle_decode_stream-input_from_example =
    handle_decode_stream-input_from clips (scripted ([] ∷ [] ∷ [])) numbered plain_options eof
      client_frames scripted-Accepts

-- A server with a key, and the clients that come: one that sends nothing, and fails its handshake,
-- one with a session, and one that is too late.
abbrev tls_server : TcpDecodeServer clips numbered peers
tls_server = new clips numbered peers (λ _. scripted ([] ∷ [] ∷ [])) plain_options (some (1 ∷ []))

abbrev arrivals_in_turn : List (Event clips numbered peers)
arrivals_in_turn =
    accepted (client [])
    ∷ accept_error []
    ∷ accepted (client client_frames)
    ∷ shutdown
    ∷ accepted (client [])
    ∷ []

abbrev connections : List (Connection clips numbered peers)
connections = (accept_loop clips numbered peers tls_server 0 arrivals_in_turn).0

start-EachProper_example :
    EachProper clips numbered peers tls_server.tls_acceptor tls_server 0
      (arrivals clips numbered peers arrivals_in_turn)
      connections
unfolding start accept_loop
start-EachProper_example =
    start-EachProper clips numbered peers tls_server arrivals_in_turn connections true refl
