-- ===== src/Tcp/Session/Writes.antt =====
-- The frames that a history of decoder calls calls for, and what each round of a session writes.
use media_api.Base.{
  Extends, here, more, Extends-of_eq, ℕ, zero, suc, ◌≡◌, refl, sym, ◌∙◌, Bool, true, false, List,
  [], ◌∷◌, Bytes, ok, err, if◌then◌else◌, arith,
}
use media_api.Soundkit.{
  AudioOps, Poll, item, pending, closed, Receive, received, finished, Send, sent, refused, Decoders,
}
use media_api.Tcp.Session.{
  Framing, Ending, eof, read_error, Fault, Call, acquired, fed, got, ended, dropped, Conn, Session,
  M, meta_of, heard, heard_last, write_frame, send_audio, on_poll, drain, on_receive, flush,
  on_send, send_chunk, send_eof, on_dcod, on_frame, on_ending,
}
use media_api.Effects.{Run, ret, fail, Ensures, Ensures-bind, if-Ensures}

module _ (a : AudioOps) (p : Decoders a) (net : Framing) where
  -- Whether a session's metadata is out, by its history alone.
  abbrev pub meta_sent : List (Call a p net) → Bool
  meta_sent [] = false
  meta_sent (acquired options ∷ cs) = false
  meta_sent (got audio ∷ cs) = true
  meta_sent (fed chunk ∷ cs) = meta_sent cs
  meta_sent (ended ∷ cs) = meta_sent cs
  meta_sent (dropped ∷ cs) = meta_sent cs

  -- The frames that a history calls for, newest first: each session's first audio is announced by
  -- its metadata, each audio is one PCMS frame, and the end of the output is one DONE frame.
  abbrev pub frames_for : List (Call a p net) → List (net.Tag × Bytes)
  frames_for [] = []
  frames_for (got audio ∷ cs) =
      (net.pcms, a.bytes audio)
      ∷ (if meta_sent cs then frames_for cs else (net.meta, meta_of a p net audio) ∷ frames_for cs)
  frames_for (ended ∷ cs) = (net.done, []) ∷ frames_for cs
  frames_for (acquired options ∷ cs) = frames_for cs
  frames_for (fed chunk ∷ cs) = frames_for cs
  frames_for (dropped ∷ cs) = frames_for cs

  abbrev pub InSync : Bool → Conn a p net → Type 0
  InSync flag c = (frames_for c.calls ≡ c.written) × (meta_sent c.calls ≡ flag)

  -- A failed run has written the frames that its history calls for, less the last ones.
  abbrev pub Behind : Fault → Conn a p net → Type 0
  Behind e c = Extends c.written (frames_for c.calls)

  abbrev pub Wrote {ℓ} :
      {A : Type ℓ} → (A → Conn a p net → Type 0) → Run (Conn a p net) Fault A → Type 0
  Wrote = Ensures Behind

  abbrev pub SessionSync : Session a p net → Conn a p net → Type 0
  SessionSync s c = InSync s.first_meta_sent c

  pub write_frame-to :
      (tag : net.Tag) (payload : Bytes) (c : Conn a p net)
      → Extends c.written (frames_for c.calls)
      → Wrote
          (λ _ c'. c' ≡ record c { written = (tag, payload) ∷ c.written })
          (write_frame a p net tag payload c)
  unfolding write_frame
  write_frame-to tag payload c h = ground arith

  -- A write and what follows it.
  pub write_frame-then {ℓ} :
      {B : Type ℓ} (R : B → Conn a p net → Type 0) (f : Unit {0} → M a p net B) (tag : net.Tag)
      (payload : Bytes) (c : Conn a p net)
      → Extends c.written (frames_for c.calls)
      → Wrote R (f tt (record c { written = (tag, payload) ∷ c.written }))
      → Wrote R
          (elim (write_frame a p net tag payload c) [ ret x c' ↦ f x c' | fail e c' ↦ fail e c' ])
  write_frame-then R f tag payload c h k =
      Ensures-bind Behind (λ _ c'. c' ≡ record c { written = (tag, payload) ∷ c.written }) R
        (write_frame a p net tag payload c) f (write_frame-to tag payload c h) (λ _ c' q. rw q k)

  pub send_audio-sync :
      (audio : a.Audio) (d : p.Decoder) (flag finish : Bool) (c : Conn a p net)
      → InSync flag c
      → Wrote SessionSync (
          send_audio a p net audio
            (record { decoder = d; first_meta_sent = flag; session_done = finish })
            (record c { calls = got audio ∷ c.calls }))
  unfolding send_audio
  send_audio-sync audio d true finish c (e, h) =
      write_frame-then SessionSync _ net.pcms (a.bytes audio)
        (record c { calls = got audio ∷ c.calls }) (rw h (rw e (more here)))
        (rw h (rw e (refl, refl)))
  send_audio-sync audio d false finish c (e, h) =
      write_frame-then SessionSync _ net.meta (meta_of a p net audio)
        (record c { calls = got audio ∷ c.calls }) (rw h (rw e (more (more here))))
        (write_frame-then SessionSync _ net.pcms (a.bytes audio)
          (record c {
            calls = got audio ∷ c.calls;
            written = (net.meta, meta_of a p net audio) ∷ c.written;
          })
          (rw h (rw e (more here))) (rw h (rw e (refl, refl))))

  -- Preservation by a step from one session to the next.
  abbrev pub Keeps : (Session a p net → M a p net (Session a p net)) → Type 0
  Keeps m = (s : Session a p net) (c : Conn a p net) → SessionSync s c → Wrote SessionSync (m s c)

  pub on_poll-sync :
      (again : Session a p net → M a p net (Session a p net)) (r : Poll a.Audio p.Decoder)
      → Keeps again
      → Keeps (λ s c. on_poll a p net again s r (record c { calls = heard a p net r c.calls }))
  unfolding on_poll
  on_poll-sync again (item (ok audio) d) k s c h =
      Ensures-bind Behind SessionSync SessionSync _ again
        (send_audio-sync audio d s.first_meta_sent s.session_done c h) k
  on_poll-sync again (item (err e) d) k s c h = k _ c h
  on_poll-sync again (pending d) k s c h = h
  on_poll-sync again (closed d) k s c h = h

  pub drain-sync : (f : ℕ) → Keeps (drain a p net f)
  unfolding drain
  drain-sync zero s c (e, h) = Extends-of_eq _ _ e
  drain-sync (suc f) s c h =
      on_poll-sync (drain a p net f) (p.try_recv s.decoder) (drain-sync f) s c h

  -- The output has ended, and DONE is not yet written.
  abbrev pub Flushed : Session a p net → Conn a p net → Type 0
  Flushed s c = frames_for c.calls ≡ (net.done, []) ∷ c.written

  pub on_receive-sync :
      (again : Session a p net → M a p net (Session a p net)) (r : Receive a.Audio p.Decoder)
      → ((s : Session a p net) (c : Conn a p net) → SessionSync s c → Wrote Flushed (again s c))
      → (s : Session a p net) (c : Conn a p net) → SessionSync s c
      → Wrote Flushed
          (on_receive a p net again s r (record c { calls = heard_last a p net r c.calls }))
  unfolding on_receive
  on_receive-sync again (received (ok audio) d) k s c h =
      Ensures-bind Behind SessionSync Flushed _ again
        (send_audio-sync audio d s.first_meta_sent s.session_done c h) k
  on_receive-sync again (received (err e) d) k s c h = k _ c h
  on_receive-sync again (finished d) k s c (e, h) = rw e

  pub flush-sync :
      (f : ℕ) (s : Session a p net) (c : Conn a p net)
      → SessionSync s c
      → Wrote Flushed (flush a p net f s c)
  unfolding flush
  flush-sync zero s c (e, h) = Extends-of_eq _ _ e
  flush-sync (suc f) s c h =
      on_receive-sync (flush a p net f) (p.recv s.decoder) (flush-sync f) s c h

  pub on_send-flag :
      (finish : Bool) (s : Session a p net) (r : Send p.Decoder)
      → (on_send a p net finish s r).first_meta_sent ≡ s.first_meta_sent
  unfolding on_send
  on_send-flag finish s (sent d) = refl
  on_send-flag finish s (refused e d) = refl

  pub send_chunk-sync : (chunk : Bytes) → Keeps (send_chunk a p net chunk)
  unfolding send_chunk
  send_chunk-sync chunk s c (e, h) =
      (e, h ∙ sym (on_send-flag s.session_done s (p.send s.decoder chunk)))

  pub send_eof-sync : Keeps (send_eof a p net)
  unfolding send_eof
  send_eof-sync s c (e, h) = (e, h ∙ sym (on_send-flag true s (p.send s.decoder [])))

  pub on_dcod-sync : (chunk : Bytes) → Keeps (on_dcod a p net chunk)
  unfolding on_dcod
  on_dcod-sync [] s c h = send_eof-sync s c h
  on_dcod-sync (b ∷ chunk) s c h = send_chunk-sync (b ∷ chunk) s c h

  pub on_frame-sync : (frame : net.Tag × Bytes) → Keeps (on_frame a p net frame)
  unfolding on_frame
  on_frame-sync (tag, payload) s c h =
      if-Ensures Behind SessionSync (net.tag_matches tag net.dcod) _ _ c
        (on_dcod-sync payload s c h)
        (if-Ensures Behind SessionSync (net.tag_matches tag net.done) _ _ c (send_eof-sync s c h) h)

  pub on_ending-sync : (last : Ending) → Keeps (on_ending a p net last)
  unfolding on_ending
  on_ending-sync eof s c h = send_eof-sync s c h
  on_ending-sync read_error s c (e, h) = Extends-of_eq _ _ e
