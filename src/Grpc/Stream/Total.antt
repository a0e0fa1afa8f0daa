-- ===== src/Grpc/Stream/Total.antt =====
-- The fuel of the loops is enough: the task comes to an end.
use media_api.Base.{
  ℕ, zero, suc, ◌+◌, ◌*◌, ◌-◌, ◌≤◌, ◌<◌, ◌≡◌, ◌≢◌, refl, subst, Bool, Option, none, some, List, [],
  ◌∷◌, Bytes, Result, ok, err, ltb, Bool-cases, inl, inr, ◌||◌, arith,
}
use media_api.Soundkit.{
  DecodeOptions, AudioOps, Poll, item, pending, closed, Send, sent, refused, Decoders, PollFalls,
  Bounded,
}
use media_api.Effects.{Run, ret, fail, Ensures, Ensures-bind, if-Ensures, if-Ensures_run}
use media_api.Grpc.Options.{DecodeRequest}
use media_api.Grpc.Stream.{
  Response, Ending, cancelled, Stop, out_of_fuel, fed, Task, Locals, M, send_chunks, after_send,
  on_drain_poll, drain_loop, drain_fuel, drain_decoder_sync, flush_current, on_acquire, acquire,
  start_segment, Collected, on_collect_poll, collect, collect_and_send, on_send, feed, is_none,
  on_message, finish, stream_loop, decode, new_task,
}

-- A bound on the rounds that the drain still makes.
abbrev rounds : ℕ → ℕ → ℕ
rounds tries backlog = backlog * 12 + (11 - tries)

module _ {a : AudioOps} {p : Decoders a} {client_takes : List Response → Bool}
    (bounded : Bounded p) where
  abbrev pub NotStuck : Stop → Task a p client_takes → Type 0
  NotStuck e t = e ≢ out_of_fuel

  abbrev Any {ℓ} : {A : Type ℓ} → A → Task a p client_takes → Type 0
  Any x t = Unit {0}

  abbrev Ends {ℓ} : {A : Type ℓ} → Run (Task a p client_takes) Stop A → Type 0
  Ends = Ensures NotStuck Any

  then_Ends {ℓ κ} :
      {A : Type ℓ} {B : Type κ} (r : Run (Task a p client_takes) Stop A)
      (f : A → M a p client_takes B)
      → Ends r
      → ((x : A) (t : Task a p client_takes) → Ends (f x t))
      → Ends (elim r [ ret x t' ↦ f x t' | fail e t' ↦ fail e t' ])
  then_Ends r f h k = Ensures-bind NotStuck Any Any r f h (λ x t _. k x t)

  send_chunks-Ends :
      (chunks : List Bytes) (t : Task a p client_takes)
      → Ends (send_chunks a p client_takes chunks t)
  unfolding send_chunks
  send_chunks-Ends [] t = tt
  send_chunks-Ends (pcm ∷ chunks) t =
      then_Ends _ _ (if-Ensures_run NotStuck Any (client_takes t.responses) _ _ tt (λ e. cc))
        λ _. send_chunks-Ends chunks

  on_drain_poll-Ends :
      (again : ℕ → p.Decoder → List Bytes → M a p client_takes (List Bytes)) (tries f n : ℕ)
      (chunks : List Bytes) (r : Poll a.Audio p.Decoder) (t : Task a p client_takes)
      → tries < 11
      → rounds tries n < suc f
      → ((m : ℕ) (d : p.Decoder) (cs : List Bytes) (t : Task a p client_takes)
          → m < 11
          → rounds m (p.backlog d) < f
          → Ends (again m d cs t))
      → PollFalls p.backlog n r
      → Ends (on_drain_poll a p client_takes again tries chunks r t)
  unfolding on_drain_poll
  on_drain_poll-Ends again tries f n chunks (item (ok audio) d) t lt bound k h =
      k 0 d _ _ (omega arith) (omega arith)
  on_drain_poll-Ends again tries f n chunks (item (err x) d) t lt bound k h =
      k tries d chunks t lt (omega arith)
  on_drain_poll-Ends again tries f n chunks (pending d) t lt bound k h =
      elim (Bool-cases (ltb 10 (suc tries))) [
        | inl stop ↦ rw stop tt
        | inr on ↦ rw on (k (suc tries) d chunks t (ground arith) (ground arith))
      ]
  on_drain_poll-Ends again tries f n chunks (closed d) t lt bound k h = tt

  drain_loop-Ends :
      (f tries : ℕ) (d : p.Decoder) (chunks : List Bytes) (t : Task a p client_takes)
      → tries < 11
      → rounds tries (p.backlog d) < f
      → Ends (drain_loop a p client_takes f tries d chunks t)
  unfolding drain_loop
  drain_loop-Ends zero tries d chunks t lt bound = absurd (omega arith)
  drain_loop-Ends (suc f) tries d chunks t lt bound =
      on_drain_poll-Ends (drain_loop a p client_takes f) tries f (p.backlog d) chunks (p.try_recv d)
        _ lt bound (drain_loop-Ends f) (bounded.try_recv-backlog d)

  flush_current-Ends :
      (o : Option p.Decoder) (t : Task a p client_takes) → Ends (flush_current a p client_takes o t)
  unfolding flush_current
  flush_current-Ends none t = tt
  flush_current-Ends (some d) t =
      let d' = after_send a p client_takes (p.send d []) in
      then_Ends _ _
        (drain_loop-Ends (drain_fuel a p client_takes d') 0 d' [] _ (omega arith) (omega arith))
        λ _ _. tt

  on_acquire-Ends :
      (options : DecodeOptions) (r : Result p.Decoder Bytes) (t : Task a p client_takes)
      → Ends (on_acquire a p client_takes options r t)
  unfolding on_acquire
  on_acquire-Ends options (ok d) t = tt
  on_acquire-Ends options (err x) t = λ e. cc

  start_segment-Ends :
      (default : DecodeOptions) (msg : DecodeRequest) (s : Locals a p client_takes)
      (t : Task a p client_takes)
      → Ends (start_segment a p client_takes default msg s t)
  unfolding start_segment acquire
  start_segment-Ends default msg s t =
      then_Ends _ _ (flush_current-Ends s.current_decoder t) λ chunks t1.
        then_Ends _ _ (send_chunks-Ends chunks t1)
          λ _ t2. on_acquire-Ends _ (p.acquire t2.acquisitions _) t2

  on_collect_poll-Ends :
      (again : p.Decoder → List Bytes → M a p client_takes (Collected a p client_takes)) (n : ℕ)
      (chunks : List Bytes) (r : Poll a.Audio p.Decoder) (t : Task a p client_takes)
      → ((d : p.Decoder) (cs : List Bytes) (t : Task a p client_takes)
          → p.backlog d < n
          → Ends (again d cs t))
      → PollFalls p.backlog n r
      → Ends (on_collect_poll a p client_takes again chunks r t)
  unfolding on_collect_poll
  on_collect_poll-Ends again n chunks (item (ok audio) d) t k h = k d _ _ h
  on_collect_poll-Ends again n chunks (item (err x) d) t k h = k d chunks t h
  on_collect_poll-Ends again n chunks (pending d) t k h = tt
  on_collect_poll-Ends again n chunks (closed d) t k h = tt

  collect-Ends :
      (f : ℕ) (d : p.Decoder) (chunks : List Bytes) (t : Task a p client_takes)
      → p.backlog d < f
      → Ends (collect a p client_takes f d chunks t)
  unfolding collect
  collect-Ends zero d chunks t h = absurd (omega arith)
  collect-Ends (suc f) d chunks t h =
      on_collect_poll-Ends (collect a p client_takes f) (p.backlog d) chunks (p.try_recv d) _
        (λ d' cs t' lt. collect-Ends f d' cs t' (omega arith)) (bounded.try_recv-backlog d)

  collect_and_send-Ends :
      (d : p.Decoder) (s : Locals a p client_takes) (t : Task a p client_takes)
      → Ends (collect_and_send a p client_takes d s t)
  unfolding collect_and_send
  collect_and_send-Ends d s t =
      then_Ends _ _ (collect-Ends (suc (p.backlog d)) d [] t (omega arith)) λ r t1.
        then_Ends _ _ (send_chunks-Ends r.chunks t1)
          λ _ t2. if-Ensures NotStuck Any r.decoder_closed _ _ t2 tt tt

  feed-Ends :
      (chunk : Bytes) (o : Option p.Decoder) (s : Locals a p client_takes)
      (t : Task a p client_takes)
      → Ends (feed a p client_takes chunk o s t)
  unfolding feed on_send
  feed-Ends chunk none s t = tt
  feed-Ends [] (some d) s t = collect_and_send-Ends d s t
  feed-Ends (b ∷ chunk) (some d) s t = go (p.send d (b ∷ chunk))
    where
      go :
          (r : Send p.Decoder)
          → Ends (on_send a p client_takes s r (record t { calls = fed (b ∷ chunk) ∷ t.calls }))
      go (sent d') = collect_and_send-Ends d' s _
      go (refused x d') = tt

  finish-Ends :
      (last : Ending) (s : Locals a p client_takes) (t : Task a p client_takes)
      → Ends (finish a p client_takes last s t)
  unfolding finish
  finish-Ends cancelled s t = λ e. cc
  finish-Ends _ s t = then_Ends _ _ (flush_current-Ends s.current_decoder t) send_chunks-Ends

  stream_loop-Ends :
      (default : DecodeOptions) (last : Ending) (msgs : List DecodeRequest)
      (s : Locals a p client_takes) (t : Task a p client_takes)
      → Ends (stream_loop a p client_takes default last msgs s t)
  unfolding stream_loop on_message
  stream_loop-Ends default last [] s t = finish-Ends last s t
  stream_loop-Ends default last (msg ∷ msgs) s t =
      then_Ends _ _
        (then_Ends _ _
          (if-Ensures NotStuck Any (msg.new_segment || is_none a p client_takes s.current_decoder) _
            _ t (start_segment-Ends default msg s t) tt)
          λ s' t'. feed-Ends msg.payload s'.current_decoder s' t')
        (stream_loop-Ends default last msgs)

-- For decoders that have finitely many results to give between two sends (`Bounded`), the task comes
-- to an end, whatever the messages: no loop runs out of the fuel that the model gives it. In
-- particular the final drain ends while a decoder stays silent.
pub decode-Ends :
    (a : AudioOps) (p : Decoders a) (client_takes : List Response → Bool) (default : DecodeOptions)
    (last : Ending) (msgs : List DecodeRequest) (t : Task a p client_takes)
    → Bounded p
    → decode a p client_takes default last msgs ≢ fail out_of_fuel t
unfolding decode
decode-Ends a p client_takes default last msgs t bounded e =
    subst (Ends bounded) e
      (stream_loop-Ends bounded default last msgs _ (new_task a p client_takes)) refl

-- `n` polls in a row find nothing.
pub data Silent {a : AudioOps} (p : Decoders a) : ℕ → p.Decoder → Type 0 where
  none_left : {d : p.Decoder} → Silent p zero d
  nothing :
      {n : ℕ} {d d' : p.Decoder} → p.try_recv d ≡ pending d' → Silent p n d' → Silent p (suc n) d

module _ (a : AudioOps) (p : Decoders a) (client_takes : List Response → Bool) where
  drain_loop-Silent :
      (n f tries : ℕ) (d : p.Decoder) (t : Task a p client_takes)
      → Silent p n d
      → tries + n ≡ 11
      → 0 < n
      → n ≤ f
      → drain_loop a p client_takes f tries d [] t ≡ ret [] t
  unfolding drain_loop on_drain_poll
  drain_loop-Silent zero f tries d t s e pos h = absurd (omega arith)
  drain_loop-Silent (suc n) zero tries d t s e pos h = absurd (omega arith)
  drain_loop-Silent (suc zero) (suc f) tries d t (nothing q s) e pos h = rw q (ground arith)
  drain_loop-Silent (suc (suc n)) (suc f) tries d t (nothing {d' = d'} q s) e pos h =
      rw q (ground (arith, drain_loop-Silent (suc n) f (suc tries) d' t s))

  -- A decoder that finds nothing in eleven polls after the end of the input is given up: the drain
  -- returns no chunk, whatever the decoder would still give.
  pub drain_decoder_sync_gives_up :
      (d : p.Decoder) (t : Task a p client_takes)
      → Silent p 11 (after_send a p client_takes (p.send d []))
      → drain_decoder_sync a p client_takes d t ≡ ret [] (record t { calls = fed [] ∷ t.calls })
  unfolding drain_decoder_sync
  drain_decoder_sync_gives_up d t s =
      let d' = after_send a p client_takes (p.send d []) in
      drain_loop-Silent 11 (drain_fuel a p client_takes d') 0 d' _ s refl (omega arith)
        (omega arith)
