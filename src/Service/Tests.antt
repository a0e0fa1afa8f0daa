-- ===== src/Service/Tests.antt =====
-- The servers that `main` starts from one command line.
use media_api.Base.{
  ℕ, ◌<◌, ◌≡◌, ◌↔◌, ◌⊎◌, inl, inr, refl, Bool, true, false, none, some, List, [], ◌∷◌, Bytes, codes,
  Result, ok, err, All, unwrap_or,
}
use media_api.Pool.Metrics.{audio_ms}
use media_api.Grpc.Options.{DecodeRequest}
use media_api.Grpc.State.{GrpcDecodeService}
use media_api.Grpc.Stream.{stream_end}
use media_api.Service.Defaults.{
  no_options, Clients, AllAsk, main_asks_defaults, main_metrics_panic_iff,
}
use media_api.Soundkit.{Decoders}
use media_api.Config.{ServerConfig}
use media_api.Pool.Jobs.{Pool}
use media_api.Router.State.{MediaRouter}
use media_api.Fixtures.{clips, scripted}
use media_api.Tcp.Fixtures.{numbered, client_frames, client, peers}
use media_api.Tcp.Server.{
  TcpDecodeServer, Connection, Event, accepted, shutdown, start, accept_loop,
}
use media_api.Service.{Command, main, tcp_server, grpc_service, decode_options}
use media_api.Service.Tls.{InClear, BehindTls, main_tls}

-- Both servers, a default of four bits per sample, and certificates that are wanted but missing.
abbrev arguments : Command
arguments = record {
  port = 9443;
  tls_cert_base64 = [];
  tls_key_base64 = [];
  raw_tcp_port = 9000;
  enable_raw_tcp = true;
  raw_tcp_tls = true;
  grpc_port = 50051;
  enable_grpc = true;
  default_output_sample_rate = none;
  default_output_bits = some 4;
  default_output_channels = some 1;
}

abbrev lent : Pool → ℕ → Decoders clips
lent pool number = scripted ([] ∷ [] ∷ [])

abbrev read_key : Bytes → Bytes → Bool → Bool → Result Bytes Bytes
read_key [] key b c = err (codes "no certificate")
read_key (x ∷ cert) key b c = ok key

abbrev http_runs : ServerConfig → MediaRouter → Result (Unit {0}) Bytes
http_runs config router = ok tt

abbrev server : TcpDecodeServer clips numbered peers
server = tcp_server clips numbered peers lent read_key http_runs 4 arguments

abbrev grpc_server : GrpcDecodeService
grpc_server = grpc_service clips numbered peers lent read_key http_runs 4 arguments

-- A message without options, and one with zeros that opens a segment.
abbrev plain_messages : List DecodeRequest
plain_messages =
    record { payload = 5 ∷ []; options = none; new_segment = false }
    ∷ record { payload = 6 ∷ []; options = some no_options; new_segment = true }
    ∷ []

abbrev plain_clients : Clients clips numbered
plain_clients = record {
  http_decoders = scripted ([] ∷ []);
  writes = λ written w. true;
  fuel = 5;
  body = (5 ∷ []) ∷ [];
  grpc_decoders = scripted ([] ∷ [] ∷ []);
  client_takes = λ sent_before. true;
  last = stream_end;
  messages = plain_messages;
  number = 1;
  traffic = client client_frames;
}

main_asks_defaults_example :
    AllAsk clips numbered peers
      (λ o. o ≡ decode_options arguments)
      (main clips numbered peers lent read_key http_runs 4 arguments).router
      server
      grpc_server
      plain_clients
unfolding main
main_asks_defaults_example =
    main_asks_defaults clips numbered peers lent read_key http_runs 4 arguments 9000 50051 server
      grpc_server plain_clients refl refl (inl refl, (inr refl, tt))

main_metrics_panic_iff_example :
    AllAsk clips numbered peers
      (λ o. (audio_ms o 640 16000 1 ≡ none) ↔ ((0 < 16000) × (0 < 1) × (unwrap_or (some 4) 16 < 8)))
      (main clips numbered peers lent read_key http_runs 4 arguments).router
      server
      grpc_server
      plain_clients
unfolding main
main_metrics_panic_iff_example =
    main_metrics_panic_iff clips numbered peers lent read_key http_runs 4 arguments 9000 50051
      server grpc_server plain_clients 640 16000 1 refl refl (inl refl, (inr refl, tt))

abbrev two_clients : List (Event clips numbered peers)
two_clients = accepted (client client_frames) ∷ accepted (client []) ∷ shutdown ∷ []

abbrev connections : List (Connection clips numbered peers)
connections = (accept_loop clips numbered peers server 0 two_clients).0

server_runs : start clips numbered peers server (ok tt) two_clients ≡ ok (connections, true)
unfolding start accept_loop
server_runs = refl

main_tls_example :
    (((arguments.raw_tcp_tls ≡ true) × ((t : Bytes) × (read_key [] [] false false ≡ ok t)))
      × All (BehindTls clips numbered peers) connections)
    ⊎ (((arguments.raw_tcp_tls ≡ false) ⊎ ((e : Bytes) × (read_key [] [] false false ≡ err e)))
        × All (InClear clips numbered peers) connections)
unfolding main
main_tls_example =
    main_tls clips numbered peers lent read_key http_runs 4 arguments 9000 server two_clients
      connections true refl server_runs
