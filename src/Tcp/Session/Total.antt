-- ===== src/Tcp/Session/Total.antt =====
-- The fuel of the loops is enough: the handler comes to an end.
use media_api.Base.{
  ℕ, zero, suc, ◌≤◌, ◌<◌, ◌≡◌, ◌≢◌, refl, subst, Bool, true, false, List, [], ◌∷◌, Bytes, length,
  Result, ok, err, arith,
}
use media_api.Soundkit.{
  DecodeOptions, AudioOps, Poll, item, pending, closed, Receive, received, finished, Decoders,
  PollFalls, ReceiveFalls, Bounded,
}
use media_api.Tcp.Session.{
  Framing, Ending, eof, read_error, Fault, out_of_fuel, Conn, Session, M, write_frame, send_meta,
  send_audio, on_poll, drain, on_receive, flush, send_chunk, send_eof, on_dcod, on_frame, on_ending,
  session_loop, on_acquire, acquire, run_session, sessions_loop, handle_decode_stream, no_calls,
}
use media_api.Effects.{Run, fail, Ensures, Ensures-bind, Ensures-mono, if-Ensures}

module _ {a : AudioOps} {p : Decoders a} {net : Framing} (bounded : Bounded p) where
  abbrev pub NotStuck : Fault → Conn a p net → Type 0
  NotStuck e c = e ≢ out_of_fuel

  abbrev Ends {ℓ} : {A : Type ℓ} → (A → Type 0) → Run (Conn a p net) Fault A → Type 0
  Ends Q = Ensures NotStuck (λ x _. Q x)

  write_frame-Ends :
      (tag : net.Tag) (payload : Bytes) (c : Conn a p net)
      → Ends (λ _. Unit {0}) (write_frame a p net tag payload c)
  unfolding write_frame
  write_frame-Ends tag payload c = ground arith

  send_meta-Ends :
      (flag : Bool) (audio : a.Audio) (c : Conn a p net)
      → Ends (λ _. Unit {0}) (send_meta a p net flag audio c)
  unfolding send_meta
  send_meta-Ends true audio c = tt
  send_meta-Ends false audio c = write_frame-Ends _ _ c

  send_audio-Ends :
      (audio : a.Audio) (s : Session a p net) (c : Conn a p net)
      → Ends (λ s'. s'.decoder ≡ s.decoder) (send_audio a p net audio s c)
  unfolding send_audio
  send_audio-Ends audio s c =
      Ensures-bind NotStuck (λ _ _. Unit {0}) _ _ _ (send_meta-Ends s.first_meta_sent audio _)
        λ _ c' _.
          Ensures-bind NotStuck (λ _ _. Unit {0}) _ _ _ (write_frame-Ends _ _ c') λ _ _ _. refl

  -- A loop that ends whenever its decoder has fewer than `n` results to give.
  abbrev EndsBelow : ℕ → (Session a p net → M a p net (Session a p net)) → Type 0
  EndsBelow n m =
      (s : Session a p net) (c : Conn a p net)
      → p.backlog s.decoder < n
      → Ends (λ _. Unit {0}) (m s c)

  on_poll-Ends :
      (again : Session a p net → M a p net (Session a p net)) (n : ℕ) (r : Poll a.Audio p.Decoder)
      (s : Session a p net) (c : Conn a p net)
      → EndsBelow n again
      → PollFalls p.backlog n r
      → Ends (λ _. Unit {0}) (on_poll a p net again s r c)
  unfolding on_poll
  on_poll-Ends again n (item (ok audio) d) s c k h =
      Ensures-bind NotStuck (λ s' _. s'.decoder ≡ d) _ _ again (send_audio-Ends audio _ _)
        λ s' c' e. k s' c' (rw e h)
  on_poll-Ends again n (item (err e) d) s c k h = k _ c h
  on_poll-Ends again n (pending d) s c k h = tt
  on_poll-Ends again n (closed d) s c k h = tt

  EndsBelow-le :
      (m n : ℕ) (f : Session a p net → M a p net (Session a p net))
      → m ≤ n
      → EndsBelow n f
      → EndsBelow m f
  EndsBelow-le m n f h k s c lt = k s c (omega arith)

  drain-Ends : (f : ℕ) → EndsBelow f (drain a p net f)
  unfolding drain
  drain-Ends zero s c h = absurd (omega arith)
  drain-Ends (suc f) s c h =
      on_poll-Ends (drain a p net f) (p.backlog s.decoder) (p.try_recv s.decoder) s _
        (EndsBelow-le (p.backlog s.decoder) f _ (omega arith) (drain-Ends f))
        (bounded.try_recv-backlog s.decoder)

  on_receive-Ends :
      (again : Session a p net → M a p net (Session a p net)) (n : ℕ)
      (r : Receive a.Audio p.Decoder) (s : Session a p net) (c : Conn a p net)
      → EndsBelow n again
      → ReceiveFalls p.backlog n r
      → Ends (λ _. Unit {0}) (on_receive a p net again s r c)
  unfolding on_receive
  on_receive-Ends again n (received (ok audio) d) s c k h =
      Ensures-bind NotStuck (λ s' _. s'.decoder ≡ d) _ _ again (send_audio-Ends audio _ _)
        λ s' c' e. k s' c' (rw e h)
  on_receive-Ends again n (received (err e) d) s c k h = k _ c h
  on_receive-Ends again n (finished d) s c k h = tt

  flush-Ends : (f : ℕ) → EndsBelow f (flush a p net f)
  unfolding flush
  flush-Ends zero s c h = absurd (omega arith)
  flush-Ends (suc f) s c h =
      on_receive-Ends (flush a p net f) (p.backlog s.decoder) (p.recv s.decoder) s _
        (EndsBelow-le (p.backlog s.decoder) f _ (omega arith) (flush-Ends f))
        (bounded.recv-backlog s.decoder)

  on_dcod-Ends :
      (chunk : Bytes) (s : Session a p net) (c : Conn a p net)
      → Ends (λ _. Unit {0}) (on_dcod a p net chunk s c)
  unfolding on_dcod send_eof send_chunk
  on_dcod-Ends [] s c = tt
  on_dcod-Ends (b ∷ chunk) s c = tt

  on_frame-Ends :
      (frame : net.Tag × Bytes) (s : Session a p net) (c : Conn a p net)
      → Ends (λ _. Unit {0}) (on_frame a p net frame s c)
  unfolding on_frame send_eof
  on_frame-Ends (tag, payload) s c =
      if-Ensures NotStuck (λ _ _. Unit {0}) (net.tag_matches tag net.dcod) _ _ c
        (on_dcod-Ends payload s c)
        (if-Ensures NotStuck (λ _ _. Unit {0}) (net.tag_matches tag net.done) _ _ c tt tt)

  on_ending-Ends :
      (last : Ending) (s : Session a p net) (c : Conn a p net)
      → Ends (λ _. Unit {0}) (on_ending a p net last s c)
  unfolding on_ending send_eof
  on_ending-Ends eof s c = tt
  on_ending-Ends read_error s c = λ e. cc

  abbrev Leaves : ℕ → Session a p net × List (net.Tag × Bytes) → Type 0
  Leaves n r = length (r.1) ≤ n

  session_loop-Ends :
      (last : Ending) (frames : List (net.Tag × Bytes)) (s : Session a p net) (c : Conn a p net)
      → Ends (λ r. length r.1 ≤ length frames) (session_loop a p net last frames s c)
  unfolding session_loop
  session_loop-Ends last [] s c =
      if-Ensures NotStuck (λ r _. length r.1 ≤ 0) s.session_done _ _ c (omega arith)
        (Ensures-bind NotStuck (λ _ _. Unit {0}) _ _ _
          (drain-Ends (suc (p.backlog s.decoder)) s c (omega arith))
          λ s' c' _.
            Ensures-bind NotStuck (λ _ _. Unit {0}) _ _ _ (on_ending-Ends last s' c')
              λ _ _ _. omega arith)
  session_loop-Ends last (frame ∷ frames) s c =
      if-Ensures NotStuck (λ r _. length r.1 ≤ suc (length frames)) s.session_done _ _ c
        (omega arith)
        (Ensures-bind NotStuck (λ _ _. Unit {0}) _ _ _
          (drain-Ends (suc (p.backlog s.decoder)) s c (omega arith))
          λ s' c' _.
            Ensures-bind NotStuck (λ _ _. Unit {0}) _ _ _ (on_frame-Ends frame s' c')
              λ s'' c'' _.
                Ensures-mono NotStuck (λ r _. length r.1 ≤ length frames)
                  (λ r _. length r.1 ≤ suc (length frames)) _
                  (session_loop-Ends last frames s'' c'') λ _ _ h. omega arith)

  acquire-Ends :
      (options : DecodeOptions) (c : Conn a p net)
      → Ends (λ _. Unit {0}) (acquire a p net options c)
  unfolding acquire
  acquire-Ends options c = go (p.acquire c.sessions options)
    where
      go : (r : Result p.Decoder Bytes) → Ends (λ _. Unit {0}) (on_acquire a p net options r c)
      go (ok d) = tt
      go (err t) = λ e. cc

  run_session-Ends :
      (options : DecodeOptions) (last : Ending) (first : Bytes) (frames : List (net.Tag × Bytes))
      (c : Conn a p net)
      → Ends (λ rest. length rest ≤ length frames) (run_session a p net options last first frames c)
  unfolding run_session
  run_session-Ends options last first frames c =
      Ensures-bind NotStuck (λ _ _. Unit {0}) _ _ _ (acquire-Ends options c)
        λ s c1 _.
          Ensures-bind NotStuck (λ _ _. Unit {0}) _ _ _ (on_dcod-Ends first s c1)
            λ s' c2 _.
              Ensures-bind NotStuck (λ r _. length r.1 ≤ length frames) _ _ _
                (session_loop-Ends last frames s' c2)
                λ r c3 h.
                  Ensures-bind NotStuck (λ _ _. Unit {0}) _ _ _
                    (flush-Ends (suc (p.backlog (r.0).decoder)) r.0 c3 (omega arith))
                    λ s'' c4 _.
                      Ensures-bind NotStuck (λ _ _. Unit {0}) _ _ _
                        (write_frame-Ends net.done [] c4) λ _ _ _. h

  sessions_loop-Ends :
      (f : ℕ) (options : DecodeOptions) (last : Ending) (frames : List (net.Tag × Bytes))
      (c : Conn a p net)
      → length frames < f
      → Ends (λ _. Unit {0}) (sessions_loop a p net f options last frames c)
  unfolding sessions_loop
  sessions_loop-Ends zero options last frames c h = absurd (omega arith)
  sessions_loop-Ends (suc f) options eof [] c h = tt
  sessions_loop-Ends (suc f) options read_error [] c h = λ e. cc
  sessions_loop-Ends (suc f) options last ((tag, payload) ∷ frames) c h =
      if-Ensures NotStuck (λ _ _. Unit {0}) (net.tag_matches tag net.dcod) _ _ c
        (Ensures-bind NotStuck (λ rest _. length rest ≤ length frames) _ _ _
          (run_session-Ends options last payload frames c)
          (λ rest c' k. sessions_loop-Ends f options last rest c' (omega arith)))
        (sessions_loop-Ends f options last frames c (omega arith))

-- For decoders whose calls return and that have finitely many results to give between two sends
-- (`Bounded`), the handler comes to an end, whatever the client sends: no loop runs out of the fuel
-- that the model gives it, so it returns, or fails as the source does.
pub handle_decode_stream-Ends :
    (a : AudioOps) (p : Decoders a) (net : Framing) (options : DecodeOptions) (last : Ending)
    (frames : List (net.Tag × Bytes)) (c : Conn a p net)
    → Bounded p
    → handle_decode_stream a p net options last frames ≢ fail out_of_fuel c
unfolding handle_decode_stream
handle_decode_stream-Ends a p net options last frames c bounded e =
    subst (Ends bounded (λ _. Unit {0})) e
      (sessions_loop-Ends bounded (suc (length frames)) options last frames (no_calls a p net)
        (omega arith))
      refl
