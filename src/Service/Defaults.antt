-- ===== src/Service/Defaults.antt =====
-- The options with which requests that name none ask for their decoders, at the servers that `main`
-- starts.
use media_api.Base.{
  ℕ, ◌<◌, ◌≡◌, ◌↔◌, ◌⊎◌, inl, inr, refl, ap, sym, subst, Bool, none, some, List, [], ◌∷◌, ◌∙◌,
  Bytes, Result, unwrap_or, arith, if◌then◌else◌, All,
}
use mathlib.Core.Option.{some-injective}
use media_api.Soundkit.{DecodeOptions, AudioOps, Decoders}
use media_api.Config.{ServerConfig}
use media_api.Decode.{parse_decode_options}
use media_api.Pool.Jobs.{Pool}
use media_api.Pool.Metrics.{audio_ms, audio_ms_panic_iff}
use media_api.Router
use media_api.Router.State.{MediaRouter}
use media_api.Router.Stream.{Written, decode_body, no_calls}
use media_api.Router.Stream.Asked as HttpAsked
use media_api.Grpc
use media_api.Grpc.Options.{OptionsMessage, DecodeRequest}
use media_api.Grpc.State.{GrpcDecodeService}
use media_api.Grpc.Stream.{Response, Ending, decode}
use media_api.Grpc.Stream.Asked as GrpcAsked
use media_api.Grpc.Stream.Asked.Messages.{decode-Asked}
use media_api.Tcp.Session.{Framing}
use media_api.Tcp.Session.Asked as TcpAsked
use media_api.Tcp.Server.{Network, Traffic, framing_of, TcpDecodeServer, serve}
use media_api.Service.{Command, main_config, decode_options, tcp_server, grpc_service, main}

abbrev pub no_options : OptionsMessage
no_options = record { output_sample_rate = 0; output_bits_per_sample = 0; output_channels = 0 }

-- A gRPC message without options, or with zeros.
abbrev pub NamesNone : DecodeRequest → Type 0
NamesNone msg = (msg.options ≡ none) ⊎ (msg.options ≡ some no_options)

-- What is started under a flag is what it was set up to be.
pub started_under {ℓ} :
    {A : Type ℓ} (b : Bool) (x y : A) → (if b then some x else none) ≡ some y → x ≡ y
started_under b x y e = ground arith

-- A client of each server: what it sends, the decoders that it gets and which writes get through.
pub record Clients (a : AudioOps) (net : Framing) : Type 1 where
  pub http_decoders : Decoders a
  pub writes : List Written → Written → Bool
  pub fuel : ℕ
  pub body : List Bytes
  pub grpc_decoders : Decoders a
  pub client_takes : List Response → Bool
  pub last : Ending
  pub messages : List DecodeRequest
  pub number : ℕ
  pub traffic : Traffic net

module _ (a : AudioOps) (net : Framing) (n : Network net) where
  -- Serving the three clients, the HTTP one without a query, asks for decoders with options of this
  -- kind only.
  abbrev pub AllAsk :
      (DecodeOptions → Type 0)
      → MediaRouter
      → TcpDecodeServer a net n
      → GrpcDecodeService
      → Clients a net
      → Type 0
  AllAsk Q router s g c =
      HttpAsked.Asked a c.http_decoders c.writes Q (
        decode_body a c.http_decoders c.writes c.fuel router.config none c.body
          (no_calls a c.http_decoders c.writes))
      × TcpAsked.Asked a (s.decoder_pool c.number) (framing_of a net n c.traffic) Q
          (serve a net n s.options (s.decoder_pool c.number) c.traffic)
      × GrpcAsked.Asked a c.grpc_decoders c.client_takes Q
          (decode a c.grpc_decoders c.client_takes g.default_options c.last c.messages)

  named_none :
      (Q : DecodeOptions → Type 0) (p : Decoders a) (takes : List Response → Bool)
      (default : DecodeOptions) (msgs : List DecodeRequest)
      → Q default
      → All NamesNone msgs
      → All (GrpcAsked.NamesOnly a p takes Q default) msgs
  unfolding Grpc.Options.merge_options
  named_none Q p takes default [] q _ = tt
  named_none Q p takes default (msg ∷ msgs) q (inl e, all) =
      ((λ o e'. absurd cc), named_none Q p takes default msgs q all)
  named_none Q p takes default (msg ∷ msgs) q (inr e, all) = (
    (λ o e'.
        subst (λ o. Q (Grpc.Options.merge_options default o)) (some-injective _ _ (sym e ∙ e')) q),
    named_none Q p takes default msgs q all,
  )

module _ (a : AudioOps) (net : Framing) (n : Network net) (pool : Pool → ℕ → Decoders a)
    (tls_acceptor_from_base64 : Bytes → Bytes → Bool → Bool → Result n.TlsAcceptor Bytes)
    (start_http : ServerConfig → MediaRouter → Result (Unit {0}) Bytes) (cpus : ℕ)
    (args : Command) where
  main-AllAsk :
      (Q : DecodeOptions → Type 0) {port port' : ℕ} (s : TcpDecodeServer a net n)
      (g : GrpcDecodeService) (c : Clients a net)
      → Q (decode_options args)
      → (main a net n pool tls_acceptor_from_base64 start_http cpus args).tcp ≡ some (port, s)
      → (main a net n pool tls_acceptor_from_base64 start_http cpus args).grpc ≡ some (port', g)
      → All NamesNone c.messages
      → AllAsk a net n Q
          (main a net n pool tls_acceptor_from_base64 start_http cpus args).router
          s
          g
          c
  unfolding main main_config decode_options tcp_server grpc_service Router.merge_options
      parse_decode_options Router.State.new
  main-AllAsk Q s g c q tcp grpc none_named =
      let same_tcp = ap (λ z. (z.1).options) (started_under args.enable_raw_tcp _ _ tcp) in
      let same_grpc = ap (λ z. (z.1).default_options) (started_under args.enable_grpc _ _ grpc) in
      let q_grpc = subst Q same_grpc q in
      (
        HttpAsked.decode_body-Asked a c.http_decoders c.writes Q c.fuel _ none c.body q,
        TcpAsked.handle_decode_stream-Asked a (s.decoder_pool c.number)
            (framing_of a net n c.traffic) Q s.options (c.traffic).ending (c.traffic).frames
            (subst Q same_tcp q),
        decode-Asked a c.grpc_decoders c.client_takes Q g.default_options c.last c.messages q_grpc (
            named_none a net n Q c.grpc_decoders c.client_takes g.default_options c.messages q_grpc
              none_named),
      )

-- Whatever the arguments with which `main` starts its servers, a client that names no options (over
-- HTTP without a query, over TCP, and over gRPC with messages without options or with zeros) makes each
-- server ask its pool for decoders with the three defaults of the command line, and no others, however
-- the client is served.
pub main_asks_defaults :
    (a : AudioOps) (net : Framing) (n : Network net) (pool : Pool → ℕ → Decoders a)
    (tls_acceptor_from_base64 : Bytes → Bytes → Bool → Bool → Result n.TlsAcceptor Bytes)
    (start_http : ServerConfig → MediaRouter → Result (Unit {0}) Bytes) (cpus : ℕ) (args : Command)
    (port port' : ℕ) (s : TcpDecodeServer a net n) (g : GrpcDecodeService) (c : Clients a net)
    → (main a net n pool tls_acceptor_from_base64 start_http cpus args).tcp ≡ some (port, s)
    → (main a net n pool tls_acceptor_from_base64 start_http cpus args).grpc ≡ some (port', g)
    → All NamesNone c.messages
    → AllAsk a net n
        (λ o. o ≡ decode_options args)
        (main a net n pool tls_acceptor_from_base64 start_http cpus args).router
        s
        g
        c
main_asks_defaults a net n pool acceptor http cpus args port port' s g c =
    main-AllAsk a net n pool acceptor http cpus args (λ o. o ≡ decode_options args) s g c refl

-- With such clients, every decoder that a server asks its pool for has options with which the metrics
-- panic after its audio exactly if the command line sets a default bit depth below eight, which it
-- accepts.
pub main_metrics_panic_iff :
    (a : AudioOps) (net : Framing) (n : Network net) (pool : Pool → ℕ → Decoders a)
    (tls_acceptor_from_base64 : Bytes → Bytes → Bool → Bool → Result n.TlsAcceptor Bytes)
    (start_http : ServerConfig → MediaRouter → Result (Unit {0}) Bytes) (cpus : ℕ) (args : Command)
    (port port' : ℕ) (s : TcpDecodeServer a net n) (g : GrpcDecodeService) (c : Clients a net)
    (output_bytes rate channels : ℕ)
    → (main a net n pool tls_acceptor_from_base64 start_http cpus args).tcp ≡ some (port, s)
    → (main a net n pool tls_acceptor_from_base64 start_http cpus args).grpc ≡ some (port', g)
    → All NamesNone c.messages
    → AllAsk a net n
        (λ o.
          (audio_ms o output_bytes rate channels ≡ none)
          ↔ ((0 < rate) × (0 < channels) × (unwrap_or args.default_output_bits 16 < 8)))
        (main a net n pool tls_acceptor_from_base64 start_http cpus args).router
        s
        g
        c
unfolding decode_options
main_metrics_panic_iff a net n pool acceptor http cpus args port port' s g c output_bytes rate
      channels =
    main-AllAsk a net n pool acceptor http cpus args _ s g c
      (audio_ms_panic_iff _ output_bytes rate channels)
