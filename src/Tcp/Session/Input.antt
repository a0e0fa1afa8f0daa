-- ===== src/Tcp/Session/Input.antt =====
-- What a connection feeds to its decoders, against the frames that the client sends.
use media_api.Base.{
  ℕ, zero, suc, ◌≡◌, refl, ◌∙◌, Bool, true, false, List, [], ◌∷◌, ◌++◌, Bytes, ok, err, is_empty,
  if◌then◌else◌,
}
use media_api.Soundkit.{
  AudioOps, Poll, item, pending, closed, Receive, received, finished, sent, Decoders,
}
use media_api.Effects.{Run, ret, fail, Ensures, Ensures-bind, if-Ensures_run}
use media_api.Tcp.Session.{
  Framing, Fault, Call, acquired, fed, got, ended, dropped, Conn, Session, M, write_frame, heard,
  heard_last, send_meta, send_audio, on_poll, drain, on_receive, flush,
}

module _ (a : AudioOps) (p : Decoders a) (net : Framing) where
  -- The input that a DCOD frame calls for, given that of the frames behind it, outside of a session
  -- and inside.
  abbrev pub dcod_input : Bytes → List Bytes → List Bytes → List Bytes
  dcod_input payload outside inside = if is_empty payload then [] ∷ outside else payload ∷ inside

  -- The decoder input that the frames call for, over all sessions; the flag says that no session is
  -- open. A DCOD frame opens a session if need be, an empty one and DONE close it, and so does the end
  -- of the connection; frames with other tags, and DONE outside of a session, are skipped.
  abbrev pub input_from : Bool → List (net.Tag × Bytes) → List Bytes
  input_from true [] = []
  input_from false [] = [] ∷ []
  input_from true ((tag, payload) ∷ frames) =
      let outside = input_from true frames in
      let inside = input_from false frames in
      if net.tag_matches tag net.dcod then dcod_input payload outside inside else outside
  input_from false ((tag, payload) ∷ frames) =
      let outside = input_from true frames in
      let inside = input_from false frames in
      if net.tag_matches tag net.dcod
      then dcod_input payload outside inside
      else if net.tag_matches tag net.done
      then [] ∷ outside
      else inside

  -- What was sent to the decoders, oldest first.
  abbrev pub fed_in : List (Call a p net) → List Bytes
  fed_in [] = []
  fed_in (fed chunk ∷ cs) = fed_in cs ++ chunk ∷ []
  fed_in (acquired options ∷ cs) = fed_in cs
  fed_in (got audio ∷ cs) = fed_in cs
  fed_in (ended ∷ cs) = fed_in cs
  fed_in (dropped ∷ cs) = fed_in cs

  -- Of `total`, all but `rest` was sent.
  abbrev pub Left : List Bytes → List Bytes → Conn a p net → Type 0
  Left total rest c = fed_in c.calls ++ rest ≡ total

  abbrev pub Partly : List Bytes → Fault → Conn a p net → Type 0
  Partly total e c = (rest : List Bytes) × Left total rest c

  -- Every chunk is accepted: no worker ends before its input does.
  abbrev pub Accepts : Type 0
  Accepts = (d : p.Decoder) (chunk : Bytes) → (d' : p.Decoder) × (p.send d chunk ≡ sent d')

  abbrev pub Feeds {ℓ} :
      {A : Type ℓ} → List Bytes → (A → List Bytes) → Run (Conn a p net) Fault A → Type 0
  Feeds total rest = Ensures (Partly total) (λ x. Left total (rest x))

  -- A session that is as far done as before, with as much left to send.
  abbrev pub Same : List Bytes → List Bytes → Bool → Session a p net → Conn a p net → Type 0
  Same total rest over s c = Left total rest c × (s.session_done ≡ over)

  abbrev pub Keeps :
      List Bytes → List Bytes → Bool → Run (Conn a p net) Fault (Session a p net) → Type 0
  Keeps total rest over = Ensures (Partly total) (Same total rest over)

  pub write_frame-Feeds :
      (total rest : List Bytes) (tag : net.Tag) (payload : Bytes) (c : Conn a p net)
      → Left total rest c
      → Feeds total (λ _. rest) (write_frame a p net tag payload c)
  unfolding write_frame
  write_frame-Feeds total rest tag payload c h =
      if-Ensures_run (Partly total) (λ _. Left total rest) (net.accepts c.written (tag, payload)) _
        _ h (rest, h)

  send_meta-Feeds :
      (total rest : List Bytes) (out : Bool) (audio : a.Audio) (c : Conn a p net)
      → Left total rest c
      → Feeds total (λ _. rest) (send_meta a p net out audio c)
  unfolding send_meta
  send_meta-Feeds total rest true audio c h = h
  send_meta-Feeds total rest false audio c h = write_frame-Feeds total rest net.meta _ c h

  send_audio-Keeps :
      (total rest : List Bytes) (audio : a.Audio) (s : Session a p net) (c : Conn a p net)
      → Left total rest c
      → Keeps total rest s.session_done (send_audio a p net audio s c)
  unfolding send_audio
  send_audio-Keeps total rest audio s c h =
      Ensures-bind (Partly total) (λ _. Left total rest) (Same total rest s.session_done) _ _
        (send_meta-Feeds total rest s.first_meta_sent audio c h)
        λ _ c1 h1.
          Ensures-bind (Partly total) (λ _. Left total rest) (Same total rest s.session_done) _ _
            (write_frame-Feeds total rest net.pcms (a.bytes audio) c1 h1) (λ _ c2 h2. (h2, refl))

  -- The arm for decoded audio, before the rest of its loop.
  audio_then-Keeps :
      (total rest : List Bytes) (over : Bool) (audio : a.Audio) (s : Session a p net)
      (c : Conn a p net) (again : Session a p net → M a p net (Session a p net))
      → Same total rest over s c
      → ((s : Session a p net) (c : Conn a p net)
          → Same total rest over s c
          → Keeps total rest over (again s c))
      → Keeps total rest over
          (elim (send_audio a p net audio s c) [ ret s' c' ↦ again s' c' | fail e c' ↦ fail e c' ])
  audio_then-Keeps total rest over audio s c again h k =
      Ensures-bind (Partly total) (Same total rest s.session_done) (Same total rest over) _ again
        (send_audio-Keeps total rest audio s c h.0) (λ s' c' h'. k s' c' (h'.0, h'.1 ∙ h.1))

  on_poll-Keeps :
      (total rest : List Bytes) (over : Bool)
      (again : Session a p net → M a p net (Session a p net)) (s : Session a p net)
      (r : Poll a.Audio p.Decoder) (c : Conn a p net)
      → ((s : Session a p net) (c : Conn a p net)
          → Same total rest over s c
          → Keeps total rest over (again s c))
      → Same total rest over s c
      → Keeps total rest over
          (on_poll a p net again s r (record c { calls = heard a p net r c.calls }))
  unfolding on_poll
  on_poll-Keeps total rest over again s (item (ok audio) d) c k h =
      audio_then-Keeps total rest over audio (record s { decoder = d })
        (record c { calls = got audio ∷ c.calls }) again h k
  on_poll-Keeps total rest over again s (item (err x) d) c k h = k _ c h
  on_poll-Keeps total rest over again s (pending d) c k h = h
  on_poll-Keeps total rest over again s (closed d) c k h = h

  pub drain-Keeps :
      (total rest : List Bytes) (over : Bool) (f : ℕ) (s : Session a p net) (c : Conn a p net)
      → Same total rest over s c
      → Keeps total rest over (drain a p net f s c)
  unfolding drain
  drain-Keeps total rest over zero s c (h, _) = (rest, h)
  drain-Keeps total rest over (suc f) s c h =
      on_poll-Keeps total rest over (drain a p net f) s (p.try_recv s.decoder) c
        (drain-Keeps total rest over f) h

  on_receive-Keeps :
      (total rest : List Bytes) (over : Bool)
      (again : Session a p net → M a p net (Session a p net)) (s : Session a p net)
      (r : Receive a.Audio p.Decoder) (c : Conn a p net)
      → ((s : Session a p net) (c : Conn a p net)
          → Same total rest over s c
          → Keeps total rest over (again s c))
      → Same total rest over s c
      → Keeps total rest over
          (on_receive a p net again s r (record c { calls = heard_last a p net r c.calls }))
  unfolding on_receive
  on_receive-Keeps total rest over again s (received (ok audio) d) c k h =
      audio_then-Keeps total rest over audio (record s { decoder = d })
        (record c { calls = got audio ∷ c.calls }) again h k
  on_receive-Keeps total rest over again s (received (err x) d) c k h = k _ c h
  on_receive-Keeps total rest over again s (finished d) c k h = h

  pub flush-Keeps :
      (total rest : List Bytes) (over : Bool) (f : ℕ) (s : Session a p net) (c : Conn a p net)
      → Same total rest over s c
      → Keeps total rest over (flush a p net f s c)
  unfolding flush
  flush-Keeps total rest over zero s c (h, _) = (rest, h)
  flush-Keeps total rest over (suc f) s c h =
      on_receive-Keeps total rest over (flush a p net f) s (p.recv s.decoder) c
        (flush-Keeps total rest over f) h
