-- ===== src/Tcp/Session/Frames.antt =====
-- The frames that a connection writes, against the audio that its decoders give.
use media_api.Base.{
  here, more, Extends-of_eq, ℕ, zero, suc, ◌≡◌, refl, List, [], ◌∷◌, Bytes, length, Result, ok, err,
}
use media_api.Soundkit.{DecodeOptions, AudioOps, Decoders}
use media_api.Tcp.Session.{
  Framing, Ending, eof, read_error, Conn, Session, session_loop, on_acquire, acquire, run_session,
  sessions_loop, handle_decode_stream, no_calls,
}
use media_api.Effects.{Ensures-bind, if-Ensures}
use media_api.Tcp.Session.Writes.{
  frames_for, Behind, Wrote, SessionSync, write_frame-then, drain-sync, Flushed, flush-sync,
  on_dcod-sync, on_frame-sync, on_ending-sync,
}

module _ (a : AudioOps) (p : Decoders a) (net : Framing) where
  abbrev LoopSync : Session a p net × List (net.Tag × Bytes) → Conn a p net → Type 0
  LoopSync r c = SessionSync a p net r.0 c

  session_loop-sync :
      (last : Ending) (frames : List (net.Tag × Bytes)) (s : Session a p net) (c : Conn a p net)
      → SessionSync a p net s c
      → Wrote a p net LoopSync (session_loop a p net last frames s c)
  unfolding session_loop
  session_loop-sync last [] s c h = if-Ensures (Behind a p net) LoopSync s.session_done _ _ c h (
      Ensures-bind (Behind a p net) (SessionSync a p net) LoopSync _ _
        (drain-sync a p net (suc (p.backlog s.decoder)) s c h)
        λ s' c' h'.
          Ensures-bind (Behind a p net) (SessionSync a p net) LoopSync _ _
            (on_ending-sync a p net last s' c' h') λ _ _ k. k)
  session_loop-sync last (frame ∷ frames) s c h =
      if-Ensures (Behind a p net) LoopSync s.session_done _ _ c h (
        Ensures-bind (Behind a p net) (SessionSync a p net) LoopSync _ _
          (drain-sync a p net (suc (p.backlog s.decoder)) s c h)
          λ s' c' h'.
            Ensures-bind (Behind a p net) (SessionSync a p net) LoopSync _ _
              (on_frame-sync a p net frame s' c' h') (session_loop-sync last frames))

  -- Between sessions all that is called for is written.
  abbrev pub Written : Conn a p net → Type 0
  Written c = frames_for a p net c.calls ≡ c.written

  acquire-sync :
      (options : DecodeOptions) (c : Conn a p net)
      → Written c
      → Wrote a p net (SessionSync a p net) (acquire a p net options c)
  unfolding acquire
  acquire-sync options c e = go (p.acquire c.sessions options)
    where
      go :
          (r : Result p.Decoder Bytes)
          → Wrote a p net (SessionSync a p net) (on_acquire a p net options r c)
      go (ok d) = (e, refl)
      go (err t) = Extends-of_eq _ _ e

  run_session-sync :
      (options : DecodeOptions) (last : Ending) (first : Bytes) (frames : List (net.Tag × Bytes))
      (c : Conn a p net)
      → Written c
      → Wrote a p net (λ _. Written) (run_session a p net options last first frames c)
  unfolding run_session
  run_session-sync options last first frames c e =
      Ensures-bind (Behind a p net) (SessionSync a p net) (λ _. Written) _ _
        (acquire-sync options c e)
        λ s c1 h1.
          Ensures-bind (Behind a p net) (SessionSync a p net) (λ _. Written) _ _
            (on_dcod-sync a p net first s c1 h1)
            λ s' c2 h2.
              Ensures-bind (Behind a p net) LoopSync (λ _. Written) _ _
                (session_loop-sync last frames s' c2 h2)
                λ r c3 h3.
                  Ensures-bind (Behind a p net) (Flushed a p net) (λ _. Written) _ _
                    (flush-sync a p net (suc (p.backlog (r.0).decoder)) r.0 c3 h3)
                    λ s'' c4 h4.
                      write_frame-then a p net (λ _. Written) _ net.done [] c4 (rw h4 (more here))
                        h4

  sessions_loop-sync :
      (f : ℕ) (options : DecodeOptions) (last : Ending) (frames : List (net.Tag × Bytes))
      (c : Conn a p net)
      → Written c
      → Wrote a p net (λ _. Written) (sessions_loop a p net f options last frames c)
  unfolding sessions_loop
  sessions_loop-sync zero options last frames c e = Extends-of_eq _ _ e
  sessions_loop-sync (suc f) options eof [] c e = e
  sessions_loop-sync (suc f) options read_error [] c e = Extends-of_eq _ _ e
  sessions_loop-sync (suc f) options last ((tag, payload) ∷ frames) c e =
      if-Ensures (Behind a p net) (λ _. Written) (net.tag_matches tag net.dcod) _ _ c
        (Ensures-bind (Behind a p net) (λ _. Written) (λ _. Written) _ _
          (run_session-sync options last payload frames c e) (sessions_loop-sync f options last))
        (sessions_loop-sync f options last frames c e)

-- On a connection that the handler leaves without an error, the frames written are exactly those
-- that the decoders' answers call for: in each session the metadata of the first audio, a PCMS frame
-- for each audio in order, and one DONE frame. When the handler fails, the frames written are those
-- less the last ones.
pub handle_decode_stream_frames :
    (a : AudioOps) (p : Decoders a) (net : Framing) (options : DecodeOptions) (last : Ending)
    (frames : List (net.Tag × Bytes))
    → Wrote a p net (λ _. Written a p net) (handle_decode_stream a p net options last frames)
unfolding handle_decode_stream
handle_decode_stream_frames a p net options last frames =
    sessions_loop-sync a p net (suc (length frames)) options last frames (no_calls a p net) refl
