-- ===== src/Service.antt =====
-- src/main.rs: the command line's values, and the servers that `main` sets up from them. The parser of
-- the arguments, the certificates' reader, the HTTP server and the clients are parameters.
pub mod Defaults
pub mod Tls
mod Tests
use media_api.Base.{
  ℕ, ◌*◌, ◌≡◌, Bool, true, false, Option, none, some, Bytes, Result, ok, err, if◌then◌else◌,
}
use media_api.Soundkit.{DecodeOptions, AudioOps, Decoders}
use media_api.Config.{ServerConfig, MediaApiConfig}
use media_api.Pool.Jobs
use media_api.Pool.Jobs.{Pool}
use media_api.Router
use media_api.Router.State.{MediaRouter}
use media_api.Grpc
use media_api.Grpc.State.{GrpcDecodeService}
use media_api.Tcp.Session.{Framing}
use media_api.Tcp.Server
use media_api.Tcp.Server.{Network}

pub record Command : Type 0 where
  pub port : ℕ
  pub tls_cert_base64 : Bytes
  pub tls_key_base64 : Bytes
  pub raw_tcp_port : ℕ
  pub enable_raw_tcp : Bool
  pub raw_tcp_tls : Bool
  pub grpc_port : ℕ
  pub enable_grpc : Bool
  pub default_output_sample_rate : Option ℕ
  pub default_output_bits : Option ℕ
  pub default_output_channels : Option ℕ

unfoldable pub main_config : Command → MediaApiConfig
main_config args = record {
  server = record {
    port = args.port;
    cert_pem_base64 = args.tls_cert_base64;
    privkey_pem_base64 = args.tls_key_base64;
    enable_h2 = true;
    enable_h3 = true;
    enable_webtransport = false;
    enable_websocket = false;
    enable_raw_tcp = args.enable_raw_tcp;
    raw_tcp_port = args.raw_tcp_port;
    raw_tcp_tls = args.raw_tcp_tls;
  };
  default_output_sample_rate = args.default_output_sample_rate;
  default_output_bits = args.default_output_bits;
  default_output_channels = args.default_output_channels;
}

-- The options that the TCP and the gRPC server start with.
unfoldable pub decode_options : Command → DecodeOptions
decode_options args = record {
  output_sample_rate = args.default_output_sample_rate;
  output_bits_per_sample = args.default_output_bits;
  output_channels = args.default_output_channels;
}

-- `pool` gives the decoders that the connections of a server get of its pool, by their number;
-- `start_http` is `Http2Server::start`, with what comes of it.
module _ (a : AudioOps) (net : Framing) (n : Network net) (pool : Pool → ℕ → Decoders a)
    (tls_acceptor_from_base64 : Bytes → Bytes → Bool → Bool → Result n.TlsAcceptor Bytes)
    (start_http : ServerConfig → MediaRouter → Result (Unit {0}) Bytes) where
  -- An acceptor that cannot be created is logged, and left out.
  abbrev on_acceptor : Result n.TlsAcceptor Bytes → Option n.TlsAcceptor
  on_acceptor (ok acceptor) = some acceptor
  on_acceptor (err e) = none

  unfoldable pub tls_acceptor : Command → Option n.TlsAcceptor
  tls_acceptor args =
      if args.raw_tcp_tls
      then on_acceptor
          (tls_acceptor_from_base64 args.tls_cert_base64 args.tls_key_base64 false false)
      else none

  unfoldable pub tcp_server : ℕ → Command → Server.TcpDecodeServer a net n
  unfolding decode_options tls_acceptor
  tcp_server cpus args =
      Server.new a net n (pool (Jobs.new (cpus * 2))) (decode_options args) (tls_acceptor args)

  unfoldable pub grpc_service : ℕ → Command → GrpcDecodeService
  unfolding decode_options
  grpc_service cpus args = Grpc.State.new (Jobs.new (cpus * 2)) (decode_options args)

  -- What `main` has started, with the ports, and what it returns.
  pub record Started : Type 1 where
    pub router : MediaRouter
    pub tcp : Option (ℕ × Server.TcpDecodeServer a net n)
    pub grpc : Option (ℕ × GrpcDecodeService)
    pub outcome : Result (Unit {0}) Bytes

  unfoldable pub main : ℕ → Command → Started
  unfolding main_config tcp_server grpc_service
  main cpus args =
      let config = main_config args in
      let router = Router.State.new cpus config in
      record {
        router = router;
        tcp = if args.enable_raw_tcp then some (args.raw_tcp_port, tcp_server cpus args) else none;
        grpc = if args.enable_grpc then some (args.grpc_port, grpc_service cpus args) else none;
        outcome = start_http config.server router;
      }
