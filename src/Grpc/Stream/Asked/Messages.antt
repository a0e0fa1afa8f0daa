-- ===== src/Grpc/Stream/Asked/Messages.antt =====
-- The options with which a gRPC stream asks for its decoders, from message to message.
use media_api.Base.{
  ℕ, zero, suc, Bool, Option, none, some, List, [], ◌∷◌, ◌||◌, Bytes, ok, err, if◌then◌else◌, All,
}
use media_api.Soundkit.{
  DecodeOptions, AudioOps, Poll, item, pending, closed, Send, sent, refused, Decoders,
}
use media_api.Effects.{ret, Ensures-bind, if-Ensures}
use media_api.Grpc.Options.{DecodeRequest}
use media_api.Grpc.Stream.{
  Response, Ending, cancelled, fed, Task, Locals, M, heard, send_chunks, flush_current,
  start_segment, Collected, on_collect_poll, collect, keep_decoder, collect_and_send, on_send, feed,
  is_none, on_message, finish, stream_loop, decode, new_task,
}
use media_api.Grpc.Stream.Asked.{
  AsksAt, Asked, LocalsAsk, AskedLocals, then_AskedLocals, then_Asked, send_chunks-Asked,
  flush_current-Asked, start_segment-Asked, NamesOnly, Asks,
}

module _ (a : AudioOps) (p : Decoders a) (client_takes : List Response → Bool)
    (Q : DecodeOptions → Type 0) where
  on_collect_poll-Asked :
      (again : p.Decoder → List Bytes → M a p client_takes (Collected a p client_takes))
      (chunks : List Bytes) (r : Poll a.Audio p.Decoder) (t : Task a p client_takes)
      → ((d : p.Decoder) (cs : List Bytes) (t : Task a p client_takes)
          → Asks a p client_takes Q t.calls
          → Asked a p client_takes Q (again d cs t))
      → Asks a p client_takes Q t.calls
      → Asked a p client_takes Q (
          on_collect_poll a p client_takes again chunks r
            (record t { calls = heard a p client_takes r t.calls }))
  unfolding on_collect_poll
  on_collect_poll-Asked again chunks (item (ok audio) d) t k h = k d _ _ h
  on_collect_poll-Asked again chunks (item (err x) d) t k h = k d chunks t h
  on_collect_poll-Asked again chunks (pending d) t k h = h
  on_collect_poll-Asked again chunks (closed d) t k h = h

  collect-Asked :
      (f : ℕ) (d : p.Decoder) (chunks : List Bytes) (t : Task a p client_takes)
      → Asks a p client_takes Q t.calls
      → Asked a p client_takes Q (collect a p client_takes f d chunks t)
  unfolding collect
  collect-Asked zero d chunks t h = h
  collect-Asked (suc f) d chunks t h =
      on_collect_poll-Asked (collect a p client_takes f) chunks (p.try_recv d) t (collect-Asked f) h

  collect_and_send-Asked :
      (d : p.Decoder) (s : Locals a p client_takes) (t : Task a p client_takes)
      → LocalsAsk a p client_takes Q s t
      → AskedLocals a p client_takes Q (collect_and_send a p client_takes d s t)
  unfolding collect_and_send keep_decoder
  collect_and_send-Asked d s t (q, h) =
      then_AskedLocals a p client_takes Q (collect a p client_takes (suc (p.backlog d)) d [] t) _
        (collect-Asked (suc (p.backlog d)) d [] t h)
        λ r t1 h1.
          then_AskedLocals a p client_takes Q (send_chunks a p client_takes r.chunks t1) _
            (send_chunks-Asked a p client_takes Q r.chunks t1 h1)
            λ _ t2 h2.
              if-Ensures (AsksAt a p client_takes Q) (LocalsAsk a p client_takes Q) r.decoder_closed
                _ _ t2 (q, h2) (q, h2)

  on_send-Asked :
      (r : Send p.Decoder) (s : Locals a p client_takes) (t : Task a p client_takes)
      → LocalsAsk a p client_takes Q s t
      → AskedLocals a p client_takes Q (on_send a p client_takes s r t)
  unfolding on_send
  on_send-Asked (sent d) s t h = collect_and_send-Asked d s t h
  on_send-Asked (refused x d) s t h = h

  feed-Asked :
      (chunk : Bytes) (o : Option p.Decoder) (s : Locals a p client_takes)
      (t : Task a p client_takes)
      → LocalsAsk a p client_takes Q s t
      → AskedLocals a p client_takes Q (feed a p client_takes chunk o s t)
  unfolding feed
  feed-Asked chunk none s t h = h
  feed-Asked [] (some d) s t h = collect_and_send-Asked d s t h
  feed-Asked (b ∷ chunk) (some d) s t h =
      on_send-Asked (p.send d (b ∷ chunk)) s (record t { calls = fed (b ∷ chunk) ∷ t.calls }) h

  on_message-Asked :
      (default : DecodeOptions) (msg : DecodeRequest) (s : Locals a p client_takes)
      (t : Task a p client_takes)
      → NamesOnly a p client_takes Q default msg
      → LocalsAsk a p client_takes Q s t
      → AskedLocals a p client_takes Q (on_message a p client_takes default msg s t)
  unfolding on_message
  on_message-Asked default msg s t names h =
      Ensures-bind (AsksAt a p client_takes Q) (LocalsAsk a p client_takes Q)
        (LocalsAsk a p client_takes Q)
        ((if msg.new_segment || is_none a p client_takes s.current_decoder
            then start_segment a p client_takes default msg s
            else ret s)
          t)
        _
        (if-Ensures (AsksAt a p client_takes Q) (LocalsAsk a p client_takes Q)
          (msg.new_segment || is_none a p client_takes s.current_decoder)
          (start_segment a p client_takes default msg s) (ret s) t
          (start_segment-Asked a p client_takes Q default msg s t names h) h)
        λ s' t' h'. feed-Asked msg.payload s'.current_decoder s' t' h'

  finish-Asked :
      (last : Ending) (s : Locals a p client_takes) (t : Task a p client_takes)
      → Asks a p client_takes Q t.calls
      → Asked a p client_takes Q (finish a p client_takes last s t)
  unfolding finish
  finish-Asked cancelled s t h = h
  finish-Asked _ s t h =
      then_Asked a p client_takes Q (flush_current a p client_takes s.current_decoder t) _
        (flush_current-Asked a p client_takes Q s.current_decoder t h)
        (send_chunks-Asked a p client_takes Q)

  stream_loop-Asked :
      (default : DecodeOptions) (last : Ending) (msgs : List DecodeRequest)
      (s : Locals a p client_takes) (t : Task a p client_takes)
      → All (NamesOnly a p client_takes Q default) msgs
      → LocalsAsk a p client_takes Q s t
      → Asked a p client_takes Q (stream_loop a p client_takes default last msgs s t)
  unfolding stream_loop
  stream_loop-Asked default last [] s t names (q, h) = finish-Asked last s t h
  stream_loop-Asked default last (msg ∷ msgs) s t (names, all) h =
      Ensures-bind (AsksAt a p client_takes Q) (LocalsAsk a p client_takes Q)
        (AsksAt a p client_takes Q) (on_message a p client_takes default msg s t) _
        (on_message-Asked default msg s t names h)
        λ s' t' h'. stream_loop-Asked default last msgs s' t' all h'

  -- A stream asks for its decoders with the defaults or with the options that a message names on top
  -- of them.
  pub decode-Asked :
      (default : DecodeOptions) (last : Ending) (msgs : List DecodeRequest)
      → Q default
      → All (NamesOnly a p client_takes Q default) msgs
      → Asked a p client_takes Q (decode a p client_takes default last msgs)
  unfolding decode
  decode-Asked default last msgs q all =
      stream_loop-Asked default last msgs _ (new_task a p client_takes) all (q, tt)
