-- ===== src/Grpc/Stream/Asked.antt =====
-- The options with which a gRPC stream asks for its decoders: what its segments do.
pub mod Messages
use media_api.Base.{
  ℕ, zero, suc, ◌≡◌, refl, Bool, true, false, Option, none, some, List, [], ◌∷◌, ◌||◌, Bytes,
  Result, ok, err, ltb, if◌then◌else◌, All,
}
use media_api.Soundkit.{
  DecodeOptions, AudioOps, Poll, item, pending, closed, Send, sent, refused, Decoders,
}
use media_api.Effects.{Run, ret, fail, Ensures, Ensures-bind, if-Ensures, if-Ensures_run}
use media_api.Grpc.Options.{OptionsMessage, DecodeRequest, merge_options}
use media_api.Grpc.Stream.{
  Response, pcm_data, resource_exhausted, Ending, cancelled, Stop, Call, acquired, not_acquired,
  fed, got, dropped, Task, Locals, M, heard, send_response, send_chunks, after_send, on_drain_poll,
  drain_loop, drain_fuel, flush_current, update_options, on_acquire, acquire, start_segment,
  Collected, on_collect_poll, collect, keep_decoder, collect_and_send, on_send, feed, is_none,
  on_message, finish, stream_loop, decode, new_task,
}

module _ (a : AudioOps) (p : Decoders a) (client_takes : List Response → Bool)
    (Q : DecodeOptions → Type 0) where
  -- All decoders of a history were asked for with options of this kind.
  abbrev pub Asks : List (Call a p client_takes) → Type 0
  Asks [] = Unit
  Asks (acquired options ∷ cs) = Q options × Asks cs
  Asks (not_acquired e ∷ cs) = Asks cs
  Asks (fed chunk ∷ cs) = Asks cs
  Asks (got audio ∷ cs) = Asks cs
  Asks (dropped ∷ cs) = Asks cs

  abbrev pub AsksAt {ℓ} : {A : Type ℓ} → A → Task a p client_takes → Type 0
  AsksAt x t = Asks t.calls

  -- So it is behind a step, whether the task stops or not.
  abbrev pub Asked {ℓ} : {A : Type ℓ} → Run (Task a p client_takes) Stop A → Type 0
  Asked = Ensures AsksAt AsksAt

  -- The same, with the options at hand of this kind too.
  abbrev pub LocalsAsk : Locals a p client_takes → Task a p client_takes → Type 0
  LocalsAsk s t = Q s.current_options × Asks t.calls

  abbrev pub AskedLocals : Run (Task a p client_takes) Stop (Locals a p client_takes) → Type 0
  AskedLocals = Ensures AsksAt LocalsAsk

  pub then_Asked {ℓ κ} :
      {A : Type ℓ} {B : Type κ} (r : Run (Task a p client_takes) Stop A)
      (f : A → M a p client_takes B)
      → Asked r
      → ((x : A) (t : Task a p client_takes) → Asks t.calls → Asked (f x t))
      → Asked (elim r [ ret x t' ↦ f x t' | fail e t' ↦ fail e t' ])
  then_Asked r f h k = Ensures-bind AsksAt AsksAt AsksAt r f h k

  pub then_AskedLocals {ℓ} :
      {A : Type ℓ} (r : Run (Task a p client_takes) Stop A)
      (f : A → M a p client_takes (Locals a p client_takes))
      → Asked r
      → ((x : A) (t : Task a p client_takes) → Asks t.calls → AskedLocals (f x t))
      → AskedLocals (elim r [ ret x t' ↦ f x t' | fail e t' ↦ fail e t' ])
  then_AskedLocals r f h k = Ensures-bind AsksAt AsksAt LocalsAsk r f h k

  pub send_chunks-Asked :
      (chunks : List Bytes) (t : Task a p client_takes)
      → Asks t.calls
      → Asked (send_chunks a p client_takes chunks t)
  unfolding send_chunks send_response
  send_chunks-Asked [] t h = h
  send_chunks-Asked (pcm ∷ chunks) t h =
      then_Asked (send_response a p client_takes (pcm_data pcm) t) _
        (if-Ensures_run AsksAt AsksAt (client_takes t.responses) _ _ h h)
        λ _. send_chunks-Asked chunks

  on_drain_poll-Asked :
      (again : ℕ → p.Decoder → List Bytes → M a p client_takes (List Bytes)) (tries : ℕ)
      (chunks : List Bytes) (r : Poll a.Audio p.Decoder) (t : Task a p client_takes)
      → ((n : ℕ) (d : p.Decoder) (cs : List Bytes) (t : Task a p client_takes)
          → Asks t.calls
          → Asked (again n d cs t))
      → Asks t.calls
      → Asked (
          on_drain_poll a p client_takes again tries chunks r
            (record t { calls = heard a p client_takes r t.calls }))
  unfolding on_drain_poll
  on_drain_poll-Asked again tries chunks (item (ok audio) d) t k h = k 0 d _ _ h
  on_drain_poll-Asked again tries chunks (item (err x) d) t k h = k tries d chunks t h
  on_drain_poll-Asked again tries chunks (pending d) t k h =
      if-Ensures AsksAt AsksAt (ltb 10 (suc tries)) (ret chunks) (again (suc tries) d chunks) t h
        (k (suc tries) d chunks t h)
  on_drain_poll-Asked again tries chunks (closed d) t k h = h

  drain_loop-Asked :
      (f tries : ℕ) (d : p.Decoder) (chunks : List Bytes) (t : Task a p client_takes)
      → Asks t.calls
      → Asked (drain_loop a p client_takes f tries d chunks t)
  unfolding drain_loop
  drain_loop-Asked zero tries d chunks t h = h
  drain_loop-Asked (suc f) tries d chunks t h =
      on_drain_poll-Asked (drain_loop a p client_takes f) tries chunks (p.try_recv d) t
        (drain_loop-Asked f) h

  pub flush_current-Asked :
      (o : Option p.Decoder) (t : Task a p client_takes)
      → Asks t.calls
      → Asked (flush_current a p client_takes o t)
  unfolding flush_current
  flush_current-Asked none t h = h
  flush_current-Asked (some d) t h =
      let d' = after_send a p client_takes (p.send d []) in
      then_Asked (drain_loop a p client_takes (drain_fuel a p client_takes d') 0 d' [] _) _
        (drain_loop-Asked (drain_fuel a p client_takes d') 0 d' []
          (record t { calls = fed [] ∷ t.calls }) h)
        λ chunks t' h'. h'

  on_acquire-Asked :
      (options : DecodeOptions) (r : Result p.Decoder Bytes) (t : Task a p client_takes)
      → Q options
      → Asks t.calls
      → AskedLocals (on_acquire a p client_takes options r t)
  unfolding on_acquire
  on_acquire-Asked options (ok d) t q h = (q, (q, h))
  on_acquire-Asked options (err x) t q h = go (client_takes t.responses)
    where
      t' : Task a p client_takes
      t' = record t { calls = not_acquired x ∷ t.calls }

      go :
          (b : Bool)
          → Asks
              (if b then record t' { responses = resource_exhausted x ∷ t.responses } else t').calls
      go true = h
      go false = h

  -- The options of a message, on top of the defaults, are of this kind.
  abbrev pub NamesOnly : DecodeOptions → DecodeRequest → Type 0
  NamesOnly default msg = (o : OptionsMessage) → msg.options ≡ some o → Q (merge_options default o)

  update_options-kind :
      (default current : DecodeOptions) (named : Option OptionsMessage)
      → ((o : OptionsMessage) → named ≡ some o → Q (merge_options default o))
      → Q current
      → Q (update_options a p client_takes default named current)
  update_options-kind default current none names q = q
  update_options-kind default current (some o) names q = names o refl

  pub start_segment-Asked :
      (default : DecodeOptions) (msg : DecodeRequest) (s : Locals a p client_takes)
      (t : Task a p client_takes)
      → NamesOnly default msg
      → LocalsAsk s t
      → AskedLocals (start_segment a p client_takes default msg s t)
  unfolding start_segment acquire
  start_segment-Asked default msg s t names (q, h) =
      then_AskedLocals (flush_current a p client_takes s.current_decoder t) _
        (flush_current-Asked s.current_decoder t h)
        λ chunks t1 h1.
          then_AskedLocals (send_chunks a p client_takes chunks t1) _
            (send_chunks-Asked chunks t1 h1)
            λ _ t2 h2.
              on_acquire-Asked _ (p.acquire t2.acquisitions _) t2
                (update_options-kind default s.current_options msg.options names q) h2
