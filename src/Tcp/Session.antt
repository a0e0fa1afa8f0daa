-- ===== src/Tcp/Session.antt =====
-- `TcpDecodeServer::handle_decode_stream` of src/tcp_handler.rs: the sessions of one connection,
-- as a function of the frames that the client sends. Each loop of the source is a function.
pub mod Writes
pub mod Frames
pub mod Input
pub mod Rounds
pub mod Forward
pub mod Total
pub mod Asked
use media_api.Base.{
  ℕ, zero, suc, ◌≡◌, refl, Bool, true, false, Option, none, some, List, [], ◌∷◌, Bytes, length,
  Result, ok, err, is_empty, if◌then◌else◌,
}
use media_api.Soundkit.{
  DecodeOptions, AudioOps, Poll, item, pending, closed, Receive, received, finished, Send, sent,
  refused, Decoders,
}
use media_api.Effects.{Run, ret, fail, ◌>>=◌, ◌>>◌}
use media_api.Tcp.Meta.{signed, float, PcmEncoding, encode_meta}

-- What the handler uses of tcp-changes: the tags and their comparison, and whether a frame that
-- is written after others gets through.
pub record Framing : Type 1 where
  pub Tag : Type 0
  pub dcod : Tag
  pub pcms : Tag
  pub done : Tag
  pub meta : Tag
  pub tag_matches : Tag → Tag → Bool
  pub accepts : List (Tag × Bytes) → Tag × Bytes → Bool

-- How the client's frames end: a closed connection, or a read error.
pub data Ending : Type 0 where
  eof read_error : Ending

pub data Fault : Type 0 where
  read_failed write_failed no_decoder : Fault
  -- a loop of the model used up its fuel
  out_of_fuel : Fault

module _ (a : AudioOps) (p : Decoders a) (net : Framing) where
  open p use {Decoder}

  -- A call of the decoder's methods, as a history keeps it.
  pub data Call : Type 0 where
    acquired : DecodeOptions → Call
    fed : Bytes → Call
    got : a.Audio → Call
    ended : Call
    dropped : Call

  -- The connection: the frames written and the decoder calls, newest first.
  pub record Conn : Type 0 where
    pub written : List (net.Tag × Bytes)
    pub calls : List Call
    pub sessions : ℕ

  -- The local variables of a session.
  pub record Session : Type 0 where
    pub decoder : Decoder
    pub first_meta_sent : Bool
    pub session_done : Bool

  abbrev pub M {ℓ} : Type ℓ → Type ℓ
  M A = Conn → Run Conn Fault A

  abbrev pub note : Call → M (Unit {0})
  note x c = ret tt (record c { calls = x ∷ c.calls })

  -- What an answer of the decoder adds to the history.
  abbrev pub heard : Poll a.Audio Decoder → List Call → List Call
  heard (item (ok audio) d) cs = got audio ∷ cs
  heard (item (err e) d) cs = cs
  heard (pending d) cs = cs
  heard (closed d) cs = cs

  abbrev pub heard_last : Receive a.Audio Decoder → List Call → List Call
  heard_last (received (ok audio) d) cs = got audio ∷ cs
  heard_last (received (err e) d) cs = cs
  heard_last (finished d) cs = ended ∷ cs

  -- `decoder.try_recv` and `decoder.recv`: the history has the answer, whatever becomes of it.
  abbrev pub try_recv : Decoder → M (Poll a.Audio Decoder)
  try_recv d c = let r = p.try_recv d in ret r (record c { calls = heard r c.calls })

  abbrev pub recv : Decoder → M (Receive a.Audio Decoder)
  recv d c = let r = p.recv d in ret r (record c { calls = heard_last r c.calls })

  unfoldable pub write_frame : net.Tag → Bytes → M (Unit {0})
  write_frame tag payload c =
      if net.accepts c.written (tag, payload)
      then ret tt (record c { written = (tag, payload) ∷ c.written })
      else fail write_failed c

  abbrev pub encoding_for : a.Audio → PcmEncoding
  encoding_for audio = if a.is_float audio then float else signed

  abbrev pub meta_of : a.Audio → Bytes
  meta_of audio =
      encode_meta (a.sampling_rate audio) (a.channel_count audio) (a.bits_per_sample audio)
        (encoding_for audio)

  pub send_meta : Bool → a.Audio → M (Unit {0})
  send_meta true audio c = ret tt c
  send_meta false audio c = write_frame net.meta (meta_of audio) c

  -- The arm for decoded audio, the same in both loops.
  unfoldable pub send_audio : a.Audio → Session → M Session
  unfolding send_meta
  send_audio audio s = do
    send_meta s.first_meta_sent audio
    write_frame net.pcms (a.bytes audio)
    ret (record s { first_meta_sent = true })

  -- One round of the loop before each read; the first argument is the rest of the loop.
  pub on_poll : (Session → M Session) → Session → Poll a.Audio Decoder → M Session
  on_poll again s (item (ok audio) d) = do
    s' ← send_audio audio (record s { decoder = d })
    again s'
  on_poll again s (item (err e) d) = again (record s { decoder = d })
  on_poll again s (pending d) = ret (record s { decoder = d })
  on_poll again s (closed d) = ret (record s { decoder = d })

  -- That loop: all output that is ready.
  pub drain : ℕ → Session → M Session
  unfolding on_poll
  drain zero s = fail out_of_fuel
  drain (suc f) s = do r ← try_recv s.decoder; on_poll (drain f) s r

  -- One round of the loop after the session's last frame.
  pub on_receive : (Session → M Session) → Session → Receive a.Audio Decoder → M Session
  on_receive again s (received (ok audio) d) = do
    s' ← send_audio audio (record s { decoder = d })
    again s'
  on_receive again s (received (err e) d) = again (record s { decoder = d })
  on_receive again s (finished d) = ret (record s { decoder = d })

  pub flush : ℕ → Session → M Session
  unfolding on_receive
  flush zero s = fail out_of_fuel
  flush (suc f) s = do r ← recv s.decoder; on_receive (flush f) s r

  -- What a send leaves; a refused one ends the session.
  pub on_send : Bool → Session → Send Decoder → Session
  on_send done s (sent d) = record s { decoder = d; session_done = done }
  on_send done s (refused e d) = record s { decoder = d; session_done = true }

  -- `decoder.send` of a chunk, which ends the session if it is refused.
  pub send_chunk : Bytes → Session → M Session
  unfolding on_send
  send_chunk chunk s = do note (fed chunk); ret (on_send s.session_done s (p.send s.decoder chunk))

  -- `let _ = decoder.send(Bytes::new())`, and the end of the session.
  pub send_eof : Session → M Session
  unfolding on_send
  send_eof s = do note (fed []); ret (on_send true s (p.send s.decoder []))

  -- The payload of a DCOD frame: an empty one signals the end of the input.
  pub on_dcod : Bytes → Session → M Session
  unfolding send_chunk send_eof
  on_dcod chunk s = if is_empty chunk then send_eof s else send_chunk chunk s

  pub on_frame : net.Tag × Bytes → Session → M Session
  unfolding on_dcod
  on_frame (tag, payload) s =
      if net.tag_matches tag net.dcod
      then on_dcod payload s
      else if net.tag_matches tag net.done
      then send_eof s
      else ret s

  -- `read_frame` when no frame is left.
  pub on_ending : Ending → Session → M Session
  unfolding send_eof
  on_ending eof s = send_eof s
  on_ending read_error s = fail read_failed

  -- `while !session_done`, with the frames that the loop leaves unread.
  pub session_loop :
      Ending → List (net.Tag × Bytes) → Session → M (Session × List (net.Tag × Bytes))
  unfolding drain on_frame on_ending
  session_loop last [] s =
      if s.session_done
      then ret (s, [])
      else do s' ← drain (suc (p.backlog s.decoder)) s; s'' ← on_ending last s'; ret (s'', [])
  session_loop last (frame ∷ frames) s =
      let more = session_loop last frames in
      if s.session_done
      then ret (s, frame ∷ frames)
      else do s' ← drain (suc (p.backlog s.decoder)) s; s'' ← on_frame frame s'; more s''

  pub on_acquire : DecodeOptions → Result Decoder Bytes → M Session
  on_acquire options (ok d) c =
      ret (record { decoder = d; first_meta_sent = false; session_done = false })
        (record c { calls = acquired options ∷ c.calls; sessions = suc c.sessions })
  on_acquire options (err e) c = fail no_decoder c

  -- `decoder_pool.acquire`, whose error ends the connection.
  pub acquire : DecodeOptions → M Session
  unfolding on_acquire
  acquire options c = on_acquire options (p.acquire c.sessions options) c

  -- One session behind its first frame: acquire, feed, flush, DONE, and the decoder's drop.
  pub run_session :
      DecodeOptions → Ending → Bytes → List (net.Tag × Bytes) → M (List (net.Tag × Bytes))
  unfolding acquire session_loop flush
  run_session options last first frames = do
    s ← acquire options
    s' ← on_dcod first s
    r ← session_loop last frames s'
    s'' ← flush (suc (p.backlog (r.0).decoder)) r.0
    write_frame net.done []
    note dropped
    ret r.1

  -- The outer loop; its fuel falls with each session or skipped frame.
  pub sessions_loop : ℕ → DecodeOptions → Ending → List (net.Tag × Bytes) → M (Unit {0})
  unfolding run_session
  sessions_loop zero options last frames = fail out_of_fuel
  sessions_loop (suc f) options eof [] = ret tt
  sessions_loop (suc f) options read_error [] = fail read_failed
  sessions_loop (suc f) options last ((tag, payload) ∷ frames) =
      let next = sessions_loop f options last in
      if net.tag_matches tag net.dcod
      then (do rest ← run_session options last payload frames; next rest)
      else next frames

  abbrev pub no_calls : Conn
  no_calls = record { written = []; calls = []; sessions = 0 }

  unfoldable pub handle_decode_stream :
      DecodeOptions → Ending → List (net.Tag × Bytes) → Run Conn Fault (Unit {0})
  unfolding sessions_loop
  handle_decode_stream options last frames =
      sessions_loop (suc (length frames)) options last frames no_calls
