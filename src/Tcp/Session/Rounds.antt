-- ===== src/Tcp/Session/Rounds.antt =====
-- What each round of a session feeds its decoder.
use media_api.Base.{
  suc, ◌≡◌, refl, sym, ap, ◌∙◌, Bool, true, false, List, [], ◌∷◌, ◌++◌, append_assoc, Bytes,
  Bool-cases, inl, inr,
}
use media_api.Soundkit.{AudioOps, Send, sent, refused, Decoders}
use media_api.Effects.{ret, fail, Ensures, Ensures-bind}
use media_api.Tcp.Session.{
  Framing, Ending, eof, read_error, fed, Conn, Session, M, drain, on_send, send_chunk, send_eof,
  on_dcod, on_frame, on_ending,
}
use media_api.Tcp.Session.Input.{
  dcod_input, input_from, fed_in, Left, Partly, Accepts, Feeds, Same, drain-Keeps,
}

module _ (a : AudioOps) (p : Decoders a) (net : Framing) where
  -- What a session leaves to send, given the frames behind it.
  abbrev pub left_after : List (net.Tag × Bytes) → Session a p net → List Bytes
  left_after frames s = input_from a p net s.session_done frames

  pub Left-to :
      (total : List Bytes) {rest rest' : List Bytes} (c : Conn a p net)
      → rest ≡ rest'
      → Left a p net total rest c
      → Left a p net total rest' c
  Left-to total c e h = ap (λ r. fed_in a p net c.calls ++ r) (sym e) ∙ h

  pub fed-Left :
      (total rest : List Bytes) (chunk : Bytes) (c : Conn a p net)
      → Left a p net total (chunk ∷ rest) c
      → Left a p net total rest (record c { calls = fed chunk ∷ c.calls })
  fed-Left total rest chunk c h = append_assoc (fed_in a p net c.calls) (chunk ∷ []) rest ∙ h

  pub on_send-done :
      (finish : Bool) (s : Session a p net) (r : Send p.Decoder)
      → (d' : p.Decoder) × (r ≡ sent d')
      → (on_send a p net finish s r).session_done ≡ finish
  unfolding on_send
  on_send-done finish s (sent d) taken = refl
  on_send-done finish s (refused x d) (d', q) = absurd cc

  pub on_send-over :
      (s : Session a p net) (r : Send p.Decoder) → (on_send a p net true s r).session_done ≡ true
  unfolding on_send
  on_send-over s (sent d) = refl
  on_send-over s (refused x d) = refl

  pub send_eof-Feeds :
      (total : List Bytes) (frames : List (net.Tag × Bytes)) (s : Session a p net)
      (c : Conn a p net)
      → Left a p net total ([] ∷ input_from a p net true frames) c
      → Feeds a p net total (left_after frames) (send_eof a p net s c)
  unfolding send_eof
  send_eof-Feeds total frames s c h =
      rw (on_send-over s (p.send s.decoder []))
        (fed-Left total (input_from a p net true frames) [] c h)

  pub on_dcod-Feeds :
      (total : List Bytes) (payload : Bytes) (frames : List (net.Tag × Bytes)) (s : Session a p net)
      (c : Conn a p net)
      → Accepts a p net
      → s.session_done ≡ false
      → Left a p net total
          (dcod_input a p net payload
            (input_from a p net true frames)
            (input_from a p net false frames))
          c
      → Feeds a p net total (left_after frames) (on_dcod a p net payload s c)
  unfolding on_dcod send_chunk
  on_dcod-Feeds total [] frames s c taken going h = send_eof-Feeds total frames s c h
  on_dcod-Feeds total (b ∷ bs) frames s c taken going h =
      rw
        (
          on_send-done s.session_done s (p.send s.decoder (b ∷ bs)) (taken s.decoder (b ∷ bs)),
          going,
        )
        (fed-Left total (input_from a p net false frames) (b ∷ bs) c h)

  pub on_frame-Feeds :
      (total : List Bytes) (frame : net.Tag × Bytes) (frames : List (net.Tag × Bytes))
      (s : Session a p net) (c : Conn a p net)
      → Accepts a p net
      → Same a p net total (input_from a p net false (frame ∷ frames)) false s c
      → Feeds a p net total (left_after frames) (on_frame a p net frame s c)
  unfolding on_frame
  on_frame-Feeds total (tag, payload) frames s c taken (h, going) =
      let outside = input_from a p net true frames in
      let inside = input_from a p net false frames in
      elim (Bool-cases (net.tag_matches tag net.dcod)) [
        | inl is_dcod ↦
            let e : input_from a p net false ((tag, payload) ∷ frames)
                ≡ dcod_input a p net payload outside inside =
              rw is_dcod refl in
            rw is_dcod (on_dcod-Feeds total payload frames s c taken going (Left-to total c e h))
        | inr not_dcod ↦ elim (Bool-cases (net.tag_matches tag net.done)) [
          | inl is_done ↦
              let e : input_from a p net false ((tag, payload) ∷ frames) ≡ [] ∷ outside =
                rw (not_dcod, is_done) refl in
              rw (not_dcod, is_done) (send_eof-Feeds total frames s c (Left-to total c e h))
          | inr not_done ↦
              let e : input_from a p net false ((tag, payload) ∷ frames) ≡ inside =
                rw (not_dcod, not_done) refl in
              rw (not_dcod, not_done, going) (Left-to total c e h)
        ]
      ]

  pub on_ending-Feeds :
      (total : List Bytes) (last : Ending) (s : Session a p net) (c : Conn a p net)
      → Left a p net total ([] ∷ []) c
      → Feeds a p net total (λ _. []) (on_ending a p net last s c)
  unfolding on_ending send_eof
  on_ending-Feeds total eof s c h = fed-Left total [] [] c h
  on_ending-Feeds total read_error s c h = ([] ∷ [], h)

  -- What is left behind a session, given the frames that it did not read.
  abbrev pub left_outside : Session a p net × List (net.Tag × Bytes) → List Bytes
  left_outside r = input_from a p net true r.1

  abbrev pub LeftOutside :
      List Bytes → Session a p net × List (net.Tag × Bytes) → Conn a p net → Type 0
  LeftOutside total r = Left a p net total (left_outside r)

  -- Behind the drain of a round, and behind its frame.
  pub drained :
      (total rest : List Bytes) (s : Session a p net) (c : Conn a p net)
      (next : Session a p net → M a p net (Session a p net × List (net.Tag × Bytes)))
      → Same a p net total rest false s c
      → ((s : Session a p net) (c : Conn a p net)
          → Same a p net total rest false s c
          → Ensures (Partly a p net total) (LeftOutside total) (next s c))
      → Ensures
          (Partly a p net total)
          (LeftOutside total)
          (elim (drain a p net (suc (p.backlog s.decoder)) s c) [
            | ret s' c' ↦ next s' c'
            | fail e c' ↦ fail e c'
          ])
  drained total rest s c next h k =
      Ensures-bind (Partly a p net total) (Same a p net total rest false) (LeftOutside total) _ next
        (drain-Keeps a p net total rest false (suc (p.backlog s.decoder)) s c h) k
