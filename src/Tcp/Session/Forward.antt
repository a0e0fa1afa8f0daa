-- ===== src/Tcp/Session/Forward.antt =====
-- Each frame's chunk reaches the decoder of its session, in order.
use media_api.Base.{
  ℕ, zero, suc, ◌≡◌, refl, ap, true, false, List, [], ◌∷◌, Bytes, length, Result, ok, err,
}
use media_api.Soundkit.{DecodeOptions, AudioOps, Decoders}
use media_api.Effects.{ret, Ensures, Ensures-bind, if-Ensures_split, ◌>>=◌, ◌>>◌}
use media_api.Tcp.Session.{
  Framing, Ending, eof, read_error, dropped, Conn, Session, write_frame, flush, on_dcod,
  session_loop, on_acquire, acquire, run_session, sessions_loop, handle_decode_stream, no_calls,
  note,
}
use media_api.Tcp.Session.Input.{
  dcod_input, input_from, Left, Partly, Accepts, Feeds, Same, flush-Keeps, write_frame-Feeds,
}
use media_api.Tcp.Session.Rounds.{
  left_after, Left-to, on_dcod-Feeds, on_frame-Feeds, on_ending-Feeds, left_outside, LeftOutside,
  drained,
}

module _ (a : AudioOps) (p : Decoders a) (net : Framing) where
  session_loop-Feeds :
      (total : List Bytes) (last : Ending) (frames : List (net.Tag × Bytes)) (s : Session a p net)
      (c : Conn a p net)
      → Accepts a p net
      → Left a p net total (left_after a p net frames s) c
      → Ensures
          (Partly a p net total)
          (LeftOutside a p net total)
          (session_loop a p net last frames s c)
  unfolding session_loop
  session_loop-Feeds total last [] s c taken h =
      if-Ensures_split (Partly a p net total) (LeftOutside a p net total) s.session_done _ _ c
        (λ over. Left-to a p net total c (ap (λ b. input_from a p net b []) over) h)
        (λ going.
          drained a p net total ([] ∷ []) s c _
            (Left-to a p net total c (ap (λ b. input_from a p net b []) going) h, going)
            λ s' c' h'.
              Ensures-bind (Partly a p net total) (λ _. Left a p net total [])
                (LeftOutside a p net total) _ _ (on_ending-Feeds a p net total last s' c' h'.0)
                (λ _ _ h''. h''))
  session_loop-Feeds total last (frame ∷ frames) s c taken h =
      if-Ensures_split (Partly a p net total) (LeftOutside a p net total) s.session_done _ _ c
        (λ over. Left-to a p net total c (ap (λ b. input_from a p net b (frame ∷ frames)) over) h)
        (λ going.
          drained a p net total (input_from a p net false (frame ∷ frames)) s c _
            (
              Left-to a p net total c (ap (λ b. input_from a p net b (frame ∷ frames)) going) h,
              going,
            )
            λ s' c' h'.
              Ensures-bind (Partly a p net total)
                (λ x. Left a p net total (left_after a p net frames x)) (LeftOutside a p net total)
                _ _ (on_frame-Feeds a p net total frame frames s' c' taken h')
                (λ s'' c'' h''. session_loop-Feeds total last frames s'' c'' taken h''))

  -- A session behind its acquisition.
  open_session-Feeds :
      (total : List Bytes) (last : Ending) (first : Bytes) (frames : List (net.Tag × Bytes))
      (s : Session a p net) (c : Conn a p net)
      → Accepts a p net
      → s.session_done ≡ false
      → Left a p net total
          (dcod_input a p net first
            (input_from a p net true frames)
            (input_from a p net false frames))
          c
      → Ensures
          (Partly a p net total)
          (λ rest. Left a p net total (input_from a p net true rest))
          ((do
            s' ← on_dcod a p net first s
            r ← session_loop a p net last frames s'
            s'' ← flush a p net (suc (p.backlog (r.0).decoder)) r.0
            write_frame a p net net.done []
            note a p net dropped
            ret r.1)
            c)
  open_session-Feeds total last first frames s c taken going h =
      let F = Partly a p net total in
      Ensures-bind F (λ x. Left a p net total (left_after a p net frames x)) _ _ _
        (on_dcod-Feeds a p net total first frames s c taken going h)
        λ s1 c1 h1.
          Ensures-bind F (LeftOutside a p net total) _ _ _
            (session_loop-Feeds total last frames s1 c1 taken h1)
            λ r c2 h2.
              Ensures-bind F (Same a p net total (left_outside a p net r) (r.0).session_done) _ _ _
                (flush-Keeps a p net total (left_outside a p net r) (r.0).session_done
                  (suc (p.backlog (r.0).decoder)) r.0 c2 (h2, refl))
                λ _ c3 h3.
                  Ensures-bind F (λ _. Left a p net total (left_outside a p net r)) _ _ _
                    (write_frame-Feeds a p net total (left_outside a p net r) net.done [] c3 h3.0)
                    (λ _ c4 h4. h4)

  on_acquire-Feeds :
      (total rest : List Bytes) (options : DecodeOptions) (r : Result p.Decoder Bytes)
      (c : Conn a p net)
      → Left a p net total rest c
      → Ensures
          (Partly a p net total)
          (Same a p net total rest false)
          (on_acquire a p net options r c)
  unfolding on_acquire
  on_acquire-Feeds total rest options (ok d) c h = (h, refl)
  on_acquire-Feeds total rest options (err x) c h = (rest, h)

  run_session-Feeds :
      (total : List Bytes) (options : DecodeOptions) (last : Ending) (first : Bytes)
      (frames : List (net.Tag × Bytes)) (c : Conn a p net)
      → Accepts a p net
      → Left a p net total
          (dcod_input a p net first
            (input_from a p net true frames)
            (input_from a p net false frames))
          c
      → Ensures
          (Partly a p net total)
          (λ rest. Left a p net total (input_from a p net true rest))
          (run_session a p net options last first frames c)
  unfolding run_session acquire
  run_session-Feeds total options last first frames c taken h =
      let rest =
        dcod_input a p net first (input_from a p net true frames)
          (input_from a p net false frames) in
      Ensures-bind (Partly a p net total) (Same a p net total rest false) _ _ _
        (on_acquire-Feeds total rest options (p.acquire c.sessions options) c h)
        (λ s c' (h', going). open_session-Feeds total last first frames s c' taken going h')

  sessions_loop-Feeds :
      (total : List Bytes) (f : ℕ) (options : DecodeOptions) (last : Ending)
      (frames : List (net.Tag × Bytes)) (c : Conn a p net)
      → Accepts a p net
      → Left a p net total (input_from a p net true frames) c
      → Feeds a p net total (λ _. []) (sessions_loop a p net f options last frames c)
  unfolding sessions_loop
  sessions_loop-Feeds total zero options last frames c taken h = (input_from a p net true frames, h)
  sessions_loop-Feeds total (suc f) options eof [] c taken h = h
  sessions_loop-Feeds total (suc f) options read_error [] c taken h = ([], h)
  sessions_loop-Feeds total (suc f) options last ((tag, payload) ∷ frames) c taken h =
      let outside = input_from a p net true frames in
      let inside = input_from a p net false frames in
      if-Ensures_split (Partly a p net total) (λ _. Left a p net total [])
        (net.tag_matches tag net.dcod) _ _ c
        (λ is_dcod.
          let e : input_from a p net true ((tag, payload) ∷ frames)
              ≡ dcod_input a p net payload outside inside =
            rw is_dcod refl in
          Ensures-bind (Partly a p net total)
            (λ rest. Left a p net total (input_from a p net true rest)) (λ _. Left a p net total [])
            _ _
            (run_session-Feeds total options last payload frames c taken
              (Left-to a p net total c e h))
            (λ rest c' h'. sessions_loop-Feeds total f options last rest c' taken h'))
        (λ not_dcod.
          let e : input_from a p net true ((tag, payload) ∷ frames) ≡ outside = rw not_dcod refl in
          sessions_loop-Feeds total f options last frames c taken (Left-to a p net total c e h))

-- If the decoders accept what they are sent, a connection that the handler leaves without an error has
-- fed them exactly the input that the client's frames call for: each session's chunks in order and
-- each once, and one end of the input for each session. If the handler fails, it has fed them a
-- first part of that.
pub handle_decode_stream-input_from :
    (a : AudioOps) (p : Decoders a) (net : Framing) (options : DecodeOptions) (last : Ending)
    (frames : List (net.Tag × Bytes))
    → Accepts a p net
    → Feeds a p net
        (input_from a p net true frames)
        (λ _. [])
        (handle_decode_stream a p net options last frames)
unfolding handle_decode_stream
handle_decode_stream-input_from a p net options last frames taken =
    sessions_loop-Feeds a p net (input_from a p net true frames) (suc (length frames)) options last
      frames (no_calls a p net) taken refl
