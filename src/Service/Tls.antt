-- ===== src/Service/Tls.antt =====
-- When the TCP server that `main` starts serves its clients in the clear.
use media_api.Base.{
  ℕ, suc, ◌≡◌, ◌⊎◌, inl, inr, refl, sym, subst, Bool, true, false, none, some, List, Bytes, Result,
  ok, err, All, if◌then◌else◌,
}
use media_api.Soundkit.{AudioOps, Decoders}
use media_api.Config.{ServerConfig}
use media_api.Pool.Jobs.{Pool}
use media_api.Router.State.{MediaRouter}
use media_api.Tcp.Session.{Framing}
use media_api.Tcp.Server.{
  Network, TcpDecodeServer, Connection, served_plain, served_tls, handshake_failed, Event, start,
  arrivals,
}
use media_api.Tcp.Server.Connections.{Proper, EachProper, no_client, client, start-EachProper}
use media_api.Service.Defaults.{started_under}
use media_api.Service.{Command, tls_acceptor, tcp_server, main}

module _ (a : AudioOps) (net : Framing) (n : Network net) where
  abbrev pub InClear : Connection a net n → Type 0
  InClear (served_plain p t r) = Unit
  InClear (served_tls p t r) = ⊥
  InClear (handshake_failed e) = ⊥

  abbrev pub BehindTls : Connection a net n → Type 0
  BehindTls (served_plain p t r) = ⊥
  BehindTls (served_tls p t r) = Unit
  BehindTls (handshake_failed e) = Unit

  All-InClear :
      (s : TcpDecodeServer a net n) (number : ℕ) (streams : List n.Stream)
      (conns : List (Connection a net n))
      → EachProper a net n none s number streams conns
      → All InClear conns
  All-InClear s number _ _ no_client = tt
  All-InClear s number _ _ (client {streams = streams} {conns = conns} (e, _) h) =
      (subst InClear (sym e) tt, All-InClear s (suc number) streams conns h)

  Proper-BehindTls :
      (acceptor : n.TlsAcceptor) (s : TcpDecodeServer a net n) (number : ℕ) (stream : n.Stream)
      (conn : Connection a net n)
      → Proper a net n (some acceptor) s number stream conn
      → BehindTls conn
  Proper-BehindTls acceptor s number stream conn (inl (t, _, e, _)) = subst BehindTls (sym e) tt
  Proper-BehindTls acceptor s number stream conn (inr (x, _, e)) = subst BehindTls (sym e) tt

  All-BehindTls :
      (acceptor : n.TlsAcceptor) (s : TcpDecodeServer a net n) (number : ℕ)
      (streams : List n.Stream) (conns : List (Connection a net n))
      → EachProper a net n (some acceptor) s number streams conns
      → All BehindTls conns
  All-BehindTls acceptor s number _ _ no_client = tt
  All-BehindTls acceptor s number _ _
        (client {stream = stream} {conn = conn} {streams = streams} {conns = conns} h hs) =
      (
        Proper-BehindTls acceptor s number stream conn h,
        All-BehindTls acceptor s (suc number) streams conns hs,
      )

  -- What `raw_tcp_tls` and the attempt to create an acceptor come to.
  tls-cases :
      (b : Bool) (r : Result n.TlsAcceptor Bytes) (s : TcpDecodeServer a net n)
      (streams : List n.Stream) (conns : List (Connection a net n))
      → EachProper a net n
          (if b then elim r [ ok t ↦ some t | err e ↦ none ] else none)
          s
          0
          streams
          conns
      → (((b ≡ true) × ((t : n.TlsAcceptor) × (r ≡ ok t))) × All BehindTls conns)
        ⊎ (((b ≡ false) ⊎ ((e : Bytes) × (r ≡ err e))) × All InClear conns)
  tls-cases true (ok t) s streams conns h =
      inl ((refl, (t, refl)), All-BehindTls t s 0 streams conns h)
  tls-cases true (err e) s streams conns h = inr (inr (e, refl), All-InClear s 0 streams conns h)
  tls-cases false r s streams conns h = inr (inl refl, All-InClear s 0 streams conns h)

-- The TCP server that `main` starts serves its clients all in one way. It is behind TLS if
-- `raw_tcp_tls` is set and an acceptor can be created from the certificates, and no client is then
-- served in the clear. It is in the clear if the flag is not set, or if it is set and the creation fails.
pub main_tls :
    (a : AudioOps) (net : Framing) (n : Network net) (pool : Pool → ℕ → Decoders a)
    (tls_acceptor_from_base64 : Bytes → Bytes → Bool → Bool → Result n.TlsAcceptor Bytes)
    (start_http : ServerConfig → MediaRouter → Result (Unit {0}) Bytes) (cpus : ℕ) (args : Command)
    (port : ℕ) (s : TcpDecodeServer a net n) (events : List (Event a net n))
    (conns : List (Connection a net n)) (stopped : Bool)
    → (main a net n pool tls_acceptor_from_base64 start_http cpus args).tcp ≡ some (port, s)
    → start a net n s (ok tt) events ≡ ok (conns, stopped)
    → let created = tls_acceptor_from_base64 args.tls_cert_base64 args.tls_key_base64 false false in
      (((args.raw_tcp_tls ≡ true) × ((t : n.TlsAcceptor) × (created ≡ ok t)))
        × All (BehindTls a net n) conns)
      ⊎ (((args.raw_tcp_tls ≡ false) ⊎ ((e : Bytes) × (created ≡ err e)))
          × All (InClear a net n) conns)
unfolding main tcp_server tls_acceptor
main_tls a net n pool acceptor http cpus args port s events conns stopped started served =
    let proper = start-EachProper a net n s events conns stopped served in
    tls-cases a net n args.raw_tcp_tls
      (acceptor args.tls_cert_base64 args.tls_key_base64 false false) s (arrivals a net n events)
      conns
      (subst (λ q. EachProper a net n (q.1).tls_acceptor s 0 (arrivals a net n events) conns)
        (sym (started_under args.enable_raw_tcp _ _ started)) proper)
