-- ===== src/Tcp/Session/Asked.antt =====
-- The options with which a connection asks for its decoders.
use media_api.Base.{
  ℕ, zero, suc, Bool, true, false, List, [], ◌∷◌, if◌then◌else◌, Bytes, length, Result, ok, err,
}
use media_api.Soundkit.{
  DecodeOptions, AudioOps, Poll, item, pending, closed, Receive, received, finished, Decoders,
}
use media_api.Tcp.Session.{
  Framing, Ending, eof, read_error, Fault, Call, acquired, fed, got, ended, dropped, Conn, Session,
  M, heard, heard_last, write_frame, send_meta, send_audio, on_poll, drain, on_receive, flush,
  send_chunk, send_eof, on_dcod, on_frame, on_ending, session_loop, on_acquire, acquire,
  run_session, sessions_loop, handle_decode_stream, no_calls,
}
use media_api.Effects.{Run, ret, fail, Ensures, Ensures-bind, if-Ensures, if-Ensures_run}

module _ (a : AudioOps) (p : Decoders a) (net : Framing) (Q : DecodeOptions → Type 0) where
  -- All decoders of a history were asked for with options of this kind.
  abbrev pub Asks : List (Call a p net) → Type 0
  Asks [] = Unit
  Asks (acquired options ∷ cs) = Q options × Asks cs
  Asks (fed chunk ∷ cs) = Asks cs
  Asks (got audio ∷ cs) = Asks cs
  Asks (ended ∷ cs) = Asks cs
  Asks (dropped ∷ cs) = Asks cs

  abbrev pub AsksAt {ℓ} : {A : Type ℓ} → A → Conn a p net → Type 0
  AsksAt x c = Asks c.calls

  -- So it is behind a step, whether it fails or not.
  abbrev pub Asked {ℓ} : {A : Type ℓ} → Run (Conn a p net) Fault A → Type 0
  Asked = Ensures AsksAt AsksAt

  then_Asked {ℓ κ} :
      {A : Type ℓ} {B : Type κ} (r : Run (Conn a p net) Fault A) (f : A → M a p net B)
      → Asked r
      → ((x : A) (c : Conn a p net) → Asks c.calls → Asked (f x c))
      → Asked (elim r [ ret x c' ↦ f x c' | fail e c' ↦ fail e c' ])
  then_Asked r f h k = Ensures-bind AsksAt AsksAt AsksAt r f h k

  if_Asked {ℓ} :
      {B : Type ℓ} (b : Bool) (x y : M a p net B) (c : Conn a p net)
      → Asked (x c)
      → Asked (y c)
      → Asked ((if b then x else y) c)
  if_Asked b x y c h k = if-Ensures AsksAt AsksAt b x y c h k

  write_frame-Asked :
      (tag : net.Tag) (payload : Bytes) (c : Conn a p net)
      → Asks c.calls
      → Asked (write_frame a p net tag payload c)
  unfolding write_frame
  write_frame-Asked tag payload c h =
      if-Ensures_run AsksAt AsksAt (net.accepts c.written (tag, payload)) _ _ h h

  send_meta-Asked :
      (out : Bool) (audio : a.Audio) (c : Conn a p net)
      → Asks c.calls
      → Asked (send_meta a p net out audio c)
  unfolding send_meta
  send_meta-Asked true audio c h = h
  send_meta-Asked false audio c h = write_frame-Asked _ _ c h

  send_audio-Asked :
      (audio : a.Audio) (s : Session a p net) (c : Conn a p net)
      → Asks c.calls
      → Asked (send_audio a p net audio s c)
  unfolding send_audio
  send_audio-Asked audio s c h =
      then_Asked (send_meta a p net s.first_meta_sent audio c) _
        (send_meta-Asked s.first_meta_sent audio c h)
        λ _ c1 h1.
          then_Asked (write_frame a p net net.pcms (a.bytes audio) c1) _
            (write_frame-Asked net.pcms (a.bytes audio) c1 h1) λ _ c2 h2. h2

  on_poll-Asked :
      (again : Session a p net → M a p net (Session a p net)) (s : Session a p net)
      (r : Poll a.Audio p.Decoder) (c : Conn a p net)
      → ((s : Session a p net) (c : Conn a p net) → Asks c.calls → Asked (again s c))
      → Asks c.calls
      → Asked (on_poll a p net again s r (record c { calls = heard a p net r c.calls }))
  unfolding on_poll
  on_poll-Asked again s (item (ok audio) d) c k h =
      then_Asked (send_audio a p net audio _ _) again (send_audio-Asked audio _ _ h) k
  on_poll-Asked again s (item (err x) d) c k h = k _ c h
  on_poll-Asked again s (pending d) c k h = h
  on_poll-Asked again s (closed d) c k h = h

  drain-Asked :
      (f : ℕ) (s : Session a p net) (c : Conn a p net) → Asks c.calls → Asked (drain a p net f s c)
  unfolding drain
  drain-Asked zero s c h = h
  drain-Asked (suc f) s c h =
      on_poll-Asked (drain a p net f) s (p.try_recv s.decoder) c (drain-Asked f) h

  on_receive-Asked :
      (again : Session a p net → M a p net (Session a p net)) (s : Session a p net)
      (r : Receive a.Audio p.Decoder) (c : Conn a p net)
      → ((s : Session a p net) (c : Conn a p net) → Asks c.calls → Asked (again s c))
      → Asks c.calls
      → Asked (on_receive a p net again s r (record c { calls = heard_last a p net r c.calls }))
  unfolding on_receive
  on_receive-Asked again s (received (ok audio) d) c k h =
      then_Asked (send_audio a p net audio _ _) again (send_audio-Asked audio _ _ h) k
  on_receive-Asked again s (received (err x) d) c k h = k _ c h
  on_receive-Asked again s (finished d) c k h = h

  flush-Asked :
      (f : ℕ) (s : Session a p net) (c : Conn a p net) → Asks c.calls → Asked (flush a p net f s c)
  unfolding flush
  flush-Asked zero s c h = h
  flush-Asked (suc f) s c h =
      on_receive-Asked (flush a p net f) s (p.recv s.decoder) c (flush-Asked f) h

  on_dcod-Asked :
      (chunk : Bytes) (s : Session a p net) (c : Conn a p net)
      → Asks c.calls
      → Asked (on_dcod a p net chunk s c)
  unfolding on_dcod send_eof send_chunk
  on_dcod-Asked [] s c h = h
  on_dcod-Asked (b ∷ chunk) s c h = h

  on_frame-Asked :
      (frame : net.Tag × Bytes) (s : Session a p net) (c : Conn a p net)
      → Asks c.calls
      → Asked (on_frame a p net frame s c)
  unfolding on_frame send_eof
  on_frame-Asked (tag, payload) s c h =
      if_Asked (net.tag_matches tag net.dcod) _ _ c (on_dcod-Asked payload s c h)
        (if_Asked (net.tag_matches tag net.done) _ _ c h h)

  on_ending-Asked :
      (last : Ending) (s : Session a p net) (c : Conn a p net)
      → Asks c.calls
      → Asked (on_ending a p net last s c)
  unfolding on_ending send_eof
  on_ending-Asked eof s c h = h
  on_ending-Asked read_error s c h = h

  session_loop-Asked :
      (last : Ending) (frames : List (net.Tag × Bytes)) (s : Session a p net)
      → (c : Conn a p net) → Asks c.calls
      → Asked (session_loop a p net last frames s c)
  unfolding session_loop
  session_loop-Asked last [] s c h = if_Asked s.session_done _ _ c h (
      then_Asked (drain a p net (suc (p.backlog s.decoder)) s c) _
        (drain-Asked (suc (p.backlog s.decoder)) s c h)
        λ s' c' h'.
          then_Asked (on_ending a p net last s' c') _ (on_ending-Asked last s' c' h') λ _ _ k. k)
  session_loop-Asked last (frame ∷ frames) s c h = if_Asked s.session_done _ _ c h (
      then_Asked (drain a p net (suc (p.backlog s.decoder)) s c) _
        (drain-Asked (suc (p.backlog s.decoder)) s c h)
        λ s' c' h'.
          then_Asked (on_frame a p net frame s' c') _ (on_frame-Asked frame s' c' h')
            (session_loop-Asked last frames))

  on_acquire-Asked :
      (options : DecodeOptions) (r : Result p.Decoder Bytes)
      → Q options
      → (c : Conn a p net) → Asks c.calls
      → Asked (on_acquire a p net options r c)
  unfolding on_acquire
  on_acquire-Asked options (ok d) q c h = (q, h)
  on_acquire-Asked options (err x) q c h = h

  run_session-Asked :
      (options : DecodeOptions) (last : Ending) (first : Bytes) (frames : List (net.Tag × Bytes))
      → Q options
      → (c : Conn a p net) → Asks c.calls
      → Asked (run_session a p net options last first frames c)
  unfolding run_session acquire
  run_session-Asked options last first frames q c h =
      then_Asked (on_acquire a p net options (p.acquire c.sessions options) c) _
        (on_acquire-Asked options (p.acquire c.sessions options) q c h)
        λ s c1 h1.
          then_Asked (on_dcod a p net first s c1) _ (on_dcod-Asked first s c1 h1) λ s' c2 h2.
            then_Asked (session_loop a p net last frames s' c2) _
              (session_loop-Asked last frames s' c2 h2)
              λ r c3 h3.
                then_Asked (flush a p net (suc (p.backlog (r.0).decoder)) r.0 c3) _
                  (flush-Asked (suc (p.backlog (r.0).decoder)) r.0 c3 h3)
                  λ _ c4 h4.
                    then_Asked (write_frame a p net net.done [] c4) _
                      (write_frame-Asked net.done [] c4 h4) λ _ _ h5. h5

  sessions_loop-Asked :
      (f : ℕ) (options : DecodeOptions) (last : Ending) (frames : List (net.Tag × Bytes))
      → Q options
      → (c : Conn a p net) → Asks c.calls
      → Asked (sessions_loop a p net f options last frames c)
  unfolding sessions_loop
  sessions_loop-Asked zero options last frames q c h = h
  sessions_loop-Asked (suc f) options eof [] q c h = h
  sessions_loop-Asked (suc f) options read_error [] q c h = h
  sessions_loop-Asked (suc f) options last ((tag, payload) ∷ frames) q c h =
      if_Asked (net.tag_matches tag net.dcod) _ _ c
        (then_Asked (run_session a p net options last payload frames c) _
          (run_session-Asked options last payload frames q c h)
          λ rest. sessions_loop-Asked f options last rest q)
        (sessions_loop-Asked f options last frames q c h)

  -- A connection asks for each of its decoders with the server's options.
  pub handle_decode_stream-Asked :
      (options : DecodeOptions) (last : Ending) (frames : List (net.Tag × Bytes))
      → Q options
      → Asked (handle_decode_stream a p net options last frames)
  unfolding handle_decode_stream
  handle_decode_stream-Asked options last frames q =
      sessions_loop-Asked (suc (length frames)) options last frames q (no_calls a p net) tt
