-- ===== src/Tcp/Server/Connections.antt =====
-- The connections of the TCP server: one for each client that arrives, and how each is served.
use media_api.Base.{
  ℕ, suc, ◌≡◌, ◌⊎◌, inl, inr, refl, subst, Option, none, some, List, [], ◌∷◌, Bytes, Result, ok,
  err, Bool,
}
use media_api.Soundkit.{AudioOps}
use media_api.Effects.{Run}
use media_api.Tcp.Session.{Framing, Fault, Conn, handle_decode_stream}
use media_api.Tcp.Session.Writes.{Wrote}
use media_api.Tcp.Session.Frames.{Written, handle_decode_stream_frames}
use media_api.Tcp.Server.{
  Network, Traffic, framing_of, TcpDecodeServer, Connection, served_plain, served_tls,
  handshake_failed, on_handshake, handle_connection_with, Event, accepted, accept_error, shutdown,
  accept_loop, start, arrivals,
}

module _ (a : AudioOps) (net : Framing) (n : Network net) where
  -- The handler's run over a client's traffic, with the server's options and the decoders that the
  -- connection of this number gets.
  abbrev pub run_over :
      (s : TcpDecodeServer a net n) (number : ℕ) (t : Traffic net)
      → Run (Conn a (s.decoder_pool number) (framing_of a net n t)) Fault (Unit {0})
  run_over s number t =
      handle_decode_stream a (s.decoder_pool number) (framing_of a net n t) s.options t.ending
        t.frames

  -- The frames written are those that the decoders' answers call for, less the last ones if the
  -- handler fails.
  abbrev Answered : TcpDecodeServer a net n → ℕ → Traffic net → Type 0
  Answered s number t =
      Wrote a (s.decoder_pool number) (framing_of a net n t)
        (λ _. Written a (s.decoder_pool number) (framing_of a net n t)) (run_over s number t)

  -- How a server with this acceptor, or none, serves a client's stream.
  abbrev pub Proper :
      Option n.TlsAcceptor → TcpDecodeServer a net n → ℕ → n.Stream → Connection a net n → Type 1
  Proper none s number stream conn =
      (conn
        ≡ served_plain (s.decoder_pool number) (n.plain stream)
            (run_over s number (n.plain stream)))
      × Answered s number (n.plain stream)
  Proper (some acceptor) s number stream conn =
      ((t : n.TlsStream) × (n.accept acceptor stream ≡ ok t)
        × (conn ≡ served_tls (s.decoder_pool number) (n.tls t) (run_over s number (n.tls t)))
        × Answered s number (n.tls t))
      ⊎ ((e : Bytes) × (n.accept acceptor stream ≡ err e) × (conn ≡ handshake_failed e))

  -- One connection for each stream, in order and with their numbers.
  pub data EachProper (o : Option n.TlsAcceptor) (s : TcpDecodeServer a net n)
      : ℕ → List n.Stream → List (Connection a net n) → Type 1 where
    no_client : {number : ℕ} → EachProper o s number [] []
    client :
        {number : ℕ} {stream : n.Stream} {conn : Connection a net n} {streams : List n.Stream}
        {conns : List (Connection a net n)}
        → Proper o s number stream conn
        → EachProper o s (suc number) streams conns
        → EachProper o s number (stream ∷ streams) (conn ∷ conns)

  run_over-Answered :
      (s : TcpDecodeServer a net n) (number : ℕ) (t : Traffic net) → Answered s number t
  run_over-Answered s number t =
      handle_decode_stream_frames a (s.decoder_pool number) (framing_of a net n t) s.options
        t.ending t.frames

  handle_connection_with-Proper :
      (o : Option n.TlsAcceptor) (s : TcpDecodeServer a net n) (number : ℕ) (stream : n.Stream)
      → Proper o s number stream (handle_connection_with a net n o s number stream)
  unfolding handle_connection_with on_handshake
  handle_connection_with-Proper none s number stream =
      (refl, run_over-Answered s number (n.plain stream))
  handle_connection_with-Proper (some acceptor) s number stream = go (n.accept acceptor stream) refl
    where
      go :
          (r : Result n.TlsStream Bytes)
          → n.accept acceptor stream ≡ r
          → ((t : n.TlsStream) × (n.accept acceptor stream ≡ ok t)
              × (on_handshake a net n s number r
                  ≡ served_tls (s.decoder_pool number) (n.tls t) (run_over s number (n.tls t)))
              × Answered s number (n.tls t))
            ⊎ ((e : Bytes) × (n.accept acceptor stream ≡ err e)
                × (on_handshake a net n s number r ≡ handshake_failed e))
      go (ok t) e = inl (t, e, refl, run_over-Answered s number (n.tls t))
      go (err x) e = inr (x, e, refl)

  accept_loop-EachProper :
      (s : TcpDecodeServer a net n) (number : ℕ) (events : List (Event a net n))
      → EachProper s.tls_acceptor s number
          (arrivals a net n events)
          (accept_loop a net n s number events).0
  unfolding accept_loop
  accept_loop-EachProper s number [] = no_client
  accept_loop-EachProper s number (accepted stream ∷ events) =
      client (handle_connection_with-Proper s.tls_acceptor s number stream)
        (accept_loop-EachProper s (suc number) events)
  accept_loop-EachProper s number (accept_error e ∷ events) = accept_loop-EachProper s number events
  accept_loop-EachProper s number (shutdown ∷ events) = no_client

-- Once the server has bound its port, it has one connection for each client that arrives before the
-- shutdown, in the order of their arrival, whatever errors the listener reports in between. Without an
-- acceptor a connection is the handler's run, with the server's options, over the frames that this
-- client sends in the clear; with one it is that over the client's TLS stream, or failed with the
-- error of this client's handshake. What a client is sent are the frames that its decoders' answers
-- call for, less the last ones if the handler fails.
pub start-EachProper :
    (a : AudioOps) (net : Framing) (n : Network net) (s : TcpDecodeServer a net n)
    (events : List (Event a net n)) (conns : List (Connection a net n)) (stopped : Bool)
    → start a net n s (ok tt) events ≡ ok (conns, stopped)
    → EachProper a net n s.tls_acceptor s 0 (arrivals a net n events) conns
unfolding start
start-EachProper a net n s events conns stopped e =
    let same : accept_loop a net n s 0 events ≡ (conns, stopped) = cc in
    subst (λ r. EachProper a net n s.tls_acceptor s 0 (arrivals a net n events) r.0) same
      (accept_loop-EachProper a net n s 0 events)
