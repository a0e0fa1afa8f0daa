-- ===== src/Grpc/Stream/Forward.antt =====
-- The payloads of a stream against what is sent to its decoders, and the order of their use.
use media_api.Base.{
  ℕ, zero, suc, ◌≡◌, refl, ◌∙◌, Bool, true, false, Option, none, some, List, [], ◌∷◌, append_assoc,
  Bytes, ok, err, ◌||◌,
}
use media_api.Soundkit.{
  DecodeOptions, AudioOps, Poll, item, pending, closed, Send, sent, refused, Decoders,
}
use media_api.Effects.{Ensures, Ensures-bind, if-Ensures_split}
use media_api.Grpc.Options.{DecodeRequest}
use media_api.Grpc.Stream.{
  Response, Ending, cancelled, got, dropped, Task, Locals, M, acquire, start_segment, Collected,
  heard, on_collect_poll, collect, keep_decoder, collect_and_send, on_send, feed, is_none,
  on_message, finish, stream_loop, decode, new_task,
}
use media_api.Grpc.Stream.Payloads.{
  idle, feeding, with_payload, payloads, fed_in, At, Partly, phase_of, Feeds, FeedsLocals, quiet-At,
  send_chunks-At, flush_current-At, Started, on_acquire-At,
}

module _ (a : AudioOps) (p : Decoders a) (client_takes : List Response → Bool) where
  -- A session variable's phase, behind a step.
  abbrev LocalsAt :
      List Bytes → List Bytes → Locals a p client_takes → Task a p client_takes → Type 0
  LocalsAt total rest s =
      At a p client_takes total rest (phase_of a p client_takes s.current_decoder)

  start_segment-At :
      (total rest : List Bytes) (default : DecodeOptions) (msg : DecodeRequest)
      (s : Locals a p client_takes) (t : Task a p client_takes)
      → LocalsAt total rest s t
      → Ensures
          (Partly a p client_takes total)
          (Started a p client_takes total rest)
          (start_segment a p client_takes default msg s t)
  unfolding start_segment acquire
  start_segment-At total rest default msg s t h =
      Ensures-bind (Partly a p client_takes total) (λ _. At a p client_takes total rest idle)
        (Started a p client_takes total rest) _ _
        (flush_current-At a p client_takes total rest s.current_decoder t h)
        λ chunks t1 h1.
          Ensures-bind (Partly a p client_takes total) (λ _. At a p client_takes total rest idle)
            (Started a p client_takes total rest) _ _
            (send_chunks-At a p client_takes total rest idle chunks t1 h1)
            (λ _ t2 h2.
              on_acquire-At a p client_takes total rest _ (p.acquire t2.acquisitions _) t2 h2)

  on_collect_poll-At :
      (total rest : List Bytes)
      (again : p.Decoder → List Bytes → M a p client_takes (Collected a p client_takes))
      (chunks : List Bytes) (r : Poll a.Audio p.Decoder) (t : Task a p client_takes)
      → ((d : p.Decoder) (cs : List Bytes) (t : Task a p client_takes)
          → At a p client_takes total rest feeding t
          → Feeds a p client_takes total rest feeding (again d cs t))
      → At a p client_takes total rest feeding t
      → Feeds a p client_takes total rest feeding (
          on_collect_poll a p client_takes again chunks r
            (record t { calls = heard a p client_takes r t.calls }))
  unfolding on_collect_poll
  on_collect_poll-At total rest again chunks (item (ok audio) d) t k h =
      k d _ _ (quiet-At a p client_takes total rest feeding feeding (got audio) t refl refl h)
  on_collect_poll-At total rest again chunks (item (err x) d) t k h = k d chunks t h
  on_collect_poll-At total rest again chunks (pending d) t k h = h
  on_collect_poll-At total rest again chunks (closed d) t k h = h

  collect-At :
      (total rest : List Bytes) (f : ℕ) (d : p.Decoder) (chunks : List Bytes)
      (t : Task a p client_takes)
      → At a p client_takes total rest feeding t
      → Feeds a p client_takes total rest feeding (collect a p client_takes f d chunks t)
  unfolding collect
  collect-At total rest zero d chunks t h = (rest, feeding, h)
  collect-At total rest (suc f) d chunks t h =
      on_collect_poll-At total rest (collect a p client_takes f) chunks (p.try_recv d) t
        (collect-At total rest f) h

  collect_and_send-At :
      (total rest : List Bytes) (d : p.Decoder) (s : Locals a p client_takes)
      (t : Task a p client_takes)
      → At a p client_takes total rest feeding t
      → FeedsLocals a p client_takes total rest (collect_and_send a p client_takes d s t)
  unfolding collect_and_send keep_decoder
  collect_and_send-At total rest d s t h =
      let Held = At a p client_takes total rest feeding in
      Ensures-bind (Partly a p client_takes total) (λ _. Held) (LocalsAt total rest) _ _
        (collect-At total rest (suc (p.backlog d)) d [] t h)
        λ r t1 h1.
          Ensures-bind (Partly a p client_takes total) (λ _. Held) (LocalsAt total rest) _ _
            (send_chunks-At a p client_takes total rest feeding r.chunks t1 h1)
            λ _ t2 h2.
              if-Ensures_split (Partly a p client_takes total) (LocalsAt total rest)
                r.decoder_closed _ _ t2
                (λ _. quiet-At a p client_takes total rest feeding idle dropped t2 refl refl h2)
                (λ _. h2)

  on_send-At :
      (total rest : List Bytes) (s : Locals a p client_takes) (r : Send p.Decoder)
      (t : Task a p client_takes)
      → At a p client_takes total rest feeding t
      → FeedsLocals a p client_takes total rest (on_send a p client_takes s r t)
  unfolding on_send
  on_send-At total rest s (sent d) t h = collect_and_send-At total rest d s t h
  on_send-At total rest s (refused x d) t h =
      quiet-At a p client_takes total rest feeding idle dropped t refl refl h

  feed-At :
      (total rest : List Bytes) (payload : Bytes) (o : Option p.Decoder)
      (s : Locals a p client_takes) (t : Task a p client_takes)
      → is_none a p client_takes o ≡ false
      → At a p client_takes total (with_payload payload rest) feeding t
      → FeedsLocals a p client_takes total rest (feed a p client_takes payload o s t)
  unfolding feed
  feed-At total rest payload none s t there h = absurd cc
  feed-At total rest [] (some d) s t there h = collect_and_send-At total rest d s t h
  feed-At total rest (b ∷ bs) (some d) s t there h =
      on_send-At total rest s (p.send d (b ∷ bs)) _ (record {
        left = append_assoc (fed_in a p client_takes t.calls) ((b ∷ bs) ∷ []) rest ∙ h.left;
        in_phase = rw h.in_phase refl;
      })

  held_At :
      (total rest : List Bytes) (o : Option p.Decoder) (t : Task a p client_takes)
      → is_none a p client_takes o ≡ false
      → At a p client_takes total rest (phase_of a p client_takes o) t
      → At a p client_takes total rest feeding t
  held_At total rest none t there h = absurd cc
  held_At total rest (some d) t there h = h

  on_message-At :
      (total rest : List Bytes) (default : DecodeOptions) (msg : DecodeRequest)
      (s : Locals a p client_takes) (t : Task a p client_takes)
      → LocalsAt total (with_payload msg.payload rest) s t
      → FeedsLocals a p client_takes total rest (on_message a p client_takes default msg s t)
  unfolding on_message
  on_message-At total rest default msg s t h =
      let more = with_payload msg.payload rest in
      Ensures-bind (Partly a p client_takes total) (Started a p client_takes total more)
        (LocalsAt total rest) _ _
        (if-Ensures_split (Partly a p client_takes total) (Started a p client_takes total more)
          (msg.new_segment || is_none a p client_takes s.current_decoder) _ _ t
          (λ _. start_segment-At total more default msg s t h)
          (λ stays.
            let there = not_none msg.new_segment s.current_decoder stays in
            (held_At total more s.current_decoder t there h, there)))
        (λ s' t' (h', there). feed-At total rest msg.payload s'.current_decoder s' t' there h')
    where
      not_none :
          (b : Bool) (o : Option p.Decoder)
          → (b || is_none a p client_takes o) ≡ false
          → is_none a p client_takes o ≡ false
      not_none true o e = cc
      not_none false o e = e

  -- The phase behind the whole stream.
  finish-At :
      (total : List Bytes) (last : Ending) (s : Locals a p client_takes) (t : Task a p client_takes)
      → LocalsAt total [] s t
      → Feeds a p client_takes total [] idle (finish a p client_takes last s t)
  unfolding finish
  finish-At total cancelled s t h = ([], phase_of a p client_takes s.current_decoder, h)
  finish-At total _ s t h =
      Ensures-bind (Partly a p client_takes total) (λ _. At a p client_takes total [] idle)
        (λ _. At a p client_takes total [] idle) _ _
        (flush_current-At a p client_takes total [] s.current_decoder t h)
        (send_chunks-At a p client_takes total [] idle)

  stream_loop-At :
      (total : List Bytes) (default : DecodeOptions) (last : Ending) (msgs : List DecodeRequest)
      (s : Locals a p client_takes) (t : Task a p client_takes)
      → LocalsAt total (payloads msgs) s t
      → Feeds a p client_takes total [] idle (stream_loop a p client_takes default last msgs s t)
  unfolding stream_loop
  stream_loop-At total default last [] s t h = finish-At total last s t h
  stream_loop-At total default last (msg ∷ msgs) s t h =
      Ensures-bind (Partly a p client_takes total) (LocalsAt total (payloads msgs))
        (λ _. At a p client_takes total [] idle) _ _
        (on_message-At total (payloads msgs) default msg s t h)
        (stream_loop-At total default last msgs)

-- A stream that is served to its end has sent its decoders every payload that is not empty, in order
-- and each once, and holds no decoder in the end; one that stops early has sent a first part. In
-- both cases the decoders are used in order: one at a time, with no input behind the end of the
-- input, and none after it is dropped.
pub decode-payloads :
    (a : AudioOps) (p : Decoders a) (client_takes : List Response → Bool) (default : DecodeOptions)
    (last : Ending) (msgs : List DecodeRequest)
    → Feeds a p client_takes (payloads msgs) [] idle (decode a p client_takes default last msgs)
unfolding decode
decode-payloads a p client_takes default last msgs =
    stream_loop-At a p client_takes (payloads msgs) default last msgs _ (new_task a p client_takes)
      (record { left = refl; in_phase = refl })
