-- ===== src/Grpc/Stream/Responses.antt =====
-- The responses of a stream, against the audio that its decoders give.
use media_api.Base.{
  ℕ, zero, suc, refl, Bool, true, false, Option, none, some, List, [], ◌∷◌, Bytes, Result, ok, err,
  if◌then◌else◌, Extends, here, more, Extends-of_eq, ◌||◌,
}
use media_api.Soundkit.{
  DecodeOptions, AudioOps, Poll, item, pending, closed, Send, sent, refused, Decoders,
}
use media_api.Effects.{Ensures-bind, if-Ensures}
use media_api.Grpc.Options.{DecodeRequest}
use media_api.Grpc.Stream.{
  Response, resource_exhausted, Ending, cancelled, not_acquired, fed, Task, Locals, M, heard,
  on_acquire, acquire, start_segment, Collected, on_collect_poll, collect, keep_decoder,
  collect_and_send, on_send, feed, is_none, on_message, finish, stream_loop, decode, new_task,
}
use media_api.Grpc.Stream.Owed.{
  responses_for, Behind, Sent, Owes, Behind_of_Owes, Settled, Owes-got, send_chunks-sync,
  flush_current-sync,
}

module _ (a : AudioOps) (p : Decoders a) (client_takes : List Response → Bool) where
  on_acquire-sync :
      (options : DecodeOptions) (r : Result p.Decoder Bytes) (t : Task a p client_takes)
      → Settled a p client_takes t
      → Sent a p client_takes
          (λ _. Settled a p client_takes)
          (on_acquire a p client_takes options r t)
  unfolding on_acquire
  on_acquire-sync options (ok d) t e = e
  on_acquire-sync options (err x) t e = go (client_takes t.responses)
    where
      t' : Task a p client_takes
      t' = record t { calls = not_acquired x ∷ t.calls }

      go :
          (b : Bool)
          → Extends
              (if b
                then record t' { responses = resource_exhausted x ∷ t.responses }
                else t').responses
              (responses_for a p client_takes
                (if b
                  then record t' { responses = resource_exhausted x ∷ t.responses }
                  else t').calls)
      go true = rw e here
      go false = rw e (more here)

  start_segment-sync :
      (default : DecodeOptions) (msg : DecodeRequest) (s : Locals a p client_takes)
      (t : Task a p client_takes)
      → Settled a p client_takes t
      → Sent a p client_takes
          (λ _. Settled a p client_takes)
          (start_segment a p client_takes default msg s t)
  unfolding start_segment acquire
  start_segment-sync default msg s t e =
      Ensures-bind (Behind a p client_takes) (Owes a p client_takes) (λ _. Settled a p client_takes)
        _ _ (flush_current-sync a p client_takes s.current_decoder t e)
        λ chunks t1 e1.
          Ensures-bind (Behind a p client_takes) (λ _. Settled a p client_takes)
            (λ _. Settled a p client_takes) _ _ (send_chunks-sync a p client_takes chunks t1 e1)
            λ _ t2 e2. on_acquire-sync _ (p.acquire t2.acquisitions _) t2 e2

  abbrev Collects : Collected a p client_takes → Task a p client_takes → Type 0
  Collects r t = Owes a p client_takes r.chunks t

  on_collect_poll-sync :
      (again : p.Decoder → List Bytes → M a p client_takes (Collected a p client_takes))
      (chunks : List Bytes) (r : Poll a.Audio p.Decoder) (t : Task a p client_takes)
      → ((d : p.Decoder) (cs : List Bytes) (t : Task a p client_takes)
          → Owes a p client_takes cs t
          → Sent a p client_takes Collects (again d cs t))
      → Owes a p client_takes chunks t
      → Sent a p client_takes Collects (
          on_collect_poll a p client_takes again chunks r
            (record t { calls = heard a p client_takes r t.calls }))
  unfolding on_collect_poll
  on_collect_poll-sync again chunks (item (ok audio) d) t k e =
      k d _ _ (Owes-got a p client_takes chunks audio t e)
  on_collect_poll-sync again chunks (item (err x) d) t k e = k d chunks t e
  on_collect_poll-sync again chunks (pending d) t k e = e
  on_collect_poll-sync again chunks (closed d) t k e = e

  collect-sync :
      (f : ℕ) (d : p.Decoder) (chunks : List Bytes) (t : Task a p client_takes)
      → Owes a p client_takes chunks t
      → Sent a p client_takes Collects (collect a p client_takes f d chunks t)
  unfolding collect
  collect-sync zero d chunks t e = Behind_of_Owes a p client_takes chunks t e
  collect-sync (suc f) d chunks t e =
      on_collect_poll-sync (collect a p client_takes f) chunks (p.try_recv d) t (collect-sync f) e

  collect_and_send-sync :
      (d : p.Decoder) (s : Locals a p client_takes) (t : Task a p client_takes)
      → Settled a p client_takes t
      → Sent a p client_takes
          (λ _. Settled a p client_takes)
          (collect_and_send a p client_takes d s t)
  unfolding collect_and_send
  collect_and_send-sync d s t e =
      Ensures-bind (Behind a p client_takes) Collects (λ _. Settled a p client_takes) _ _
        (collect-sync (suc (p.backlog d)) d [] t e)
        λ r t1 e1.
          Ensures-bind (Behind a p client_takes) (λ _. Settled a p client_takes)
            (λ _. Settled a p client_takes) _ _ (send_chunks-sync a p client_takes r.chunks t1 e1)
            λ _ t2 e2. keep r t2 e2
    where
      keep :
          (r : Collected a p client_takes) (t : Task a p client_takes)
          → Settled a p client_takes t
          → Sent a p client_takes
              (λ _. Settled a p client_takes)
              (keep_decoder a p client_takes r s t)
      keep r t e =
          if-Ensures (Behind a p client_takes) (λ _. Settled a p client_takes) r.decoder_closed _ _
            t e e

  feed-sync :
      (chunk : Bytes) (o : Option p.Decoder) (s : Locals a p client_takes)
      (t : Task a p client_takes)
      → Settled a p client_takes t
      → Sent a p client_takes (λ _. Settled a p client_takes) (feed a p client_takes chunk o s t)
  unfolding feed on_send
  feed-sync chunk none s t e = e
  feed-sync [] (some d) s t e = collect_and_send-sync d s t e
  feed-sync (b ∷ chunk) (some d) s t e = go (p.send d (b ∷ chunk))
    where
      go :
          (r : Send p.Decoder)
          → Sent a p client_takes
              (λ _. Settled a p client_takes)
              (on_send a p client_takes s r (record t { calls = fed (b ∷ chunk) ∷ t.calls }))
      go (sent d') = collect_and_send-sync d' s _ e
      go (refused x d') = e

  on_message-sync :
      (default : DecodeOptions) (msg : DecodeRequest) (s : Locals a p client_takes)
      (t : Task a p client_takes)
      → Settled a p client_takes t
      → Sent a p client_takes
          (λ _. Settled a p client_takes)
          (on_message a p client_takes default msg s t)
  unfolding on_message
  on_message-sync default msg s t e =
      Ensures-bind (Behind a p client_takes) (λ _. Settled a p client_takes)
        (λ _. Settled a p client_takes) _ _
        (if-Ensures (Behind a p client_takes) (λ _. Settled a p client_takes)
          (msg.new_segment || is_none a p client_takes s.current_decoder) _ _ t
          (start_segment-sync default msg s t e) e)
        λ s' t' e'. feed-sync msg.payload s'.current_decoder s' t' e'

  finish-sync :
      (last : Ending) (s : Locals a p client_takes) (t : Task a p client_takes)
      → Settled a p client_takes t
      → Sent a p client_takes (λ _. Settled a p client_takes) (finish a p client_takes last s t)
  unfolding finish
  finish-sync cancelled s t e = Extends-of_eq _ _ e
  finish-sync _ s t e =
      Ensures-bind (Behind a p client_takes) (Owes a p client_takes) (λ _. Settled a p client_takes)
        _ _ (flush_current-sync a p client_takes s.current_decoder t e)
        (send_chunks-sync a p client_takes)

  stream_loop-sync :
      (default : DecodeOptions) (last : Ending) (msgs : List DecodeRequest)
      (s : Locals a p client_takes) (t : Task a p client_takes)
      → Settled a p client_takes t
      → Sent a p client_takes
          (λ _. Settled a p client_takes)
          (stream_loop a p client_takes default last msgs s t)
  unfolding stream_loop
  stream_loop-sync default last [] s t e = finish-sync last s t e
  stream_loop-sync default last (msg ∷ msgs) s t e =
      Ensures-bind (Behind a p client_takes) (λ _. Settled a p client_takes)
        (λ _. Settled a p client_takes) _ _ (on_message-sync default msg s t e)
        (stream_loop-sync default last msgs)

-- When a stream is served to its end, the responses sent are exactly one `PcmData` for each audio that
-- its decoders gave, in that order, over all its segments. When the task stops early, the responses
-- sent are those that its history calls for (with the status of a refused acquisition), less the last
-- ones.
pub decode-responses :
    (a : AudioOps) (p : Decoders a) (client_takes : List Response → Bool) (default : DecodeOptions)
    (last : Ending) (msgs : List DecodeRequest)
    → Sent a p client_takes
        (λ _. Settled a p client_takes)
        (decode a p client_takes default last msgs)
unfolding decode
decode-responses a p client_takes default last msgs =
    stream_loop-sync a p client_takes default last msgs _ (new_task a p client_takes) refl
