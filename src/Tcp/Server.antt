-- ===== src/Tcp/Server.antt =====
-- `TcpDecodeServer` of src/tcp_handler.rs: `new`, the accept loop of `start`, and `handle_connection`.
-- Streams, TLS and the listener are parameters; a stream stands for all that its peer does.
pub mod Connections
use media_api.Base.{ℕ, suc, Bool, Option, none, some, List, [], ◌∷◌, Bytes, Result, ok, err}
use media_api.Soundkit.{DecodeOptions, AudioOps, Decoders}
use media_api.Effects.{Run}
use media_api.Tcp.Session.{Framing, Ending, Fault, Conn, handle_decode_stream}

-- The frames that a stream brings, how they end, and which frames written to it get through.
pub record Traffic (net : Framing) : Type 0 where
  pub frames : List (net.Tag × Bytes)
  pub ending : Ending
  pub accepts : List (net.Tag × Bytes) → net.Tag × Bytes → Bool

-- What the server uses of tokio's streams and of tokio-rustls.
pub record Network (net : Framing) : Type 1 where
  pub Stream : Type 0
  pub TlsStream : Type 0
  pub TlsAcceptor : Type 0
  pub accept : TlsAcceptor → Stream → Result TlsStream Bytes
  pub plain : Stream → Traffic net
  pub tls : TlsStream → Traffic net

module _ (a : AudioOps) (net : Framing) (n : Network net) where
  abbrev pub framing_of : Traffic net → Framing
  framing_of t = record net { accepts = t.accepts }

  -- The pool is given as the decoders that each connection gets of it, by the connection's number.
  pub record TcpDecodeServer : Type 1 where
    pub decoder_pool : ℕ → Decoders a
    pub options : DecodeOptions
    pub tls_acceptor : Option n.TlsAcceptor

  abbrev pub new : (ℕ → Decoders a) → DecodeOptions → Option n.TlsAcceptor → TcpDecodeServer
  new decoder_pool options tls_acceptor = record {
    decoder_pool = decoder_pool;
    options = options;
    tls_acceptor = tls_acceptor;
  }

  -- How a connection goes: it is served in the clear or behind TLS, or its handshake fails.
  pub data Connection : Type 1 where
    served_plain :
        (p : Decoders a) (t : Traffic net)
        → Run (Conn a p (framing_of t)) Fault (Unit {0})
        → Connection
    served_tls :
        (p : Decoders a) (t : Traffic net)
        → Run (Conn a p (framing_of t)) Fault (Unit {0})
        → Connection
    handshake_failed : Bytes → Connection

  -- `self.handle_decode_stream` over one stream.
  abbrev pub serve :
      DecodeOptions
      → (p : Decoders a) (t : Traffic net) → Run (Conn a p (framing_of t)) Fault (Unit {0})
  serve options p t = handle_decode_stream a p (framing_of t) options t.ending t.frames

  pub on_handshake : TcpDecodeServer → ℕ → Result n.TlsStream Bytes → Connection
  on_handshake s number (ok stream) =
      let t = n.tls stream in let p = s.decoder_pool number in served_tls p t (serve s.options p t)
  on_handshake s number (err e) = handshake_failed e

  unfoldable pub handle_connection_with :
      Option n.TlsAcceptor → TcpDecodeServer → ℕ → n.Stream → Connection
  unfolding on_handshake
  handle_connection_with (some acceptor) s number stream =
      on_handshake s number (n.accept acceptor stream)
  handle_connection_with none s number stream =
      let t = n.plain stream in
      let p = s.decoder_pool number in served_plain p t (serve s.options p t)

  abbrev handle_connection : TcpDecodeServer → ℕ → n.Stream → Connection
  handle_connection s = handle_connection_with s.tls_acceptor s

  -- What the accept loop wakes up to.
  pub data Event : Type 0 where
    accepted : n.Stream → Event
    accept_error : Bytes → Event
    shutdown : Event

  -- The loop from its next connection's number on: the connections that it spawns, and whether it ended.
  unfoldable pub accept_loop : TcpDecodeServer → ℕ → List Event → List Connection × Bool
  accept_loop s number [] = ([], Bool.false)
  accept_loop s number (accepted stream ∷ events) =
      let r = accept_loop s (suc number) events in (handle_connection s number stream ∷ r.0, r.1)
  accept_loop s number (accept_error e ∷ events) = accept_loop s number events
  accept_loop s number (shutdown ∷ events) = ([], Bool.true)

  -- `start`: the bind may fail.
  unfoldable pub start :
      TcpDecodeServer → Result (Unit {0}) Bytes → List Event → Result (List Connection × Bool) Bytes
  unfolding accept_loop
  start s (err e) events = err e
  start s (ok _) events = ok (accept_loop s 0 events)

  -- The streams that arrive before the shutdown.
  abbrev pub arrivals : List Event → List n.Stream
  arrivals [] = []
  arrivals (accepted stream ∷ events) = stream ∷ arrivals events
  arrivals (accept_error e ∷ events) = arrivals events
  arrivals (shutdown ∷ events) = []

  abbrev pub numbered : ℕ → List n.Stream → List (ℕ × n.Stream)
  numbered number [] = []
  numbered number (stream ∷ streams) = (number, stream) ∷ numbered (suc number) streams
