-- ===== src/Grpc/Stream/Payloads.antt =====
-- What a stream feeds to its decoders, and in which order it uses them.
use media_api.Base.{
  ℕ, zero, suc, ◌≡◌, refl, ap, ◌∙◌, Bool, false, Option, none, some, List, [], ◌∷◌, ◌++◌, Bytes,
  Result, ok, err, is_empty, ltb, if◌then◌else◌, ◌>>=◌ as then_some, arith,
}
use media_api.Soundkit.{DecodeOptions, AudioOps, Poll, item, pending, closed, Decoders}
use media_api.Effects.{Run, ret, Ensures, Ensures-bind, if-Ensures, if-Ensures_run}
use media_api.Grpc.Options.{DecodeRequest}
use media_api.Grpc.Stream.{
  Response, Stop, Call, acquired, not_acquired, fed, got, dropped, Task, Locals, M, send_response,
  send_chunks, after_send, heard, on_drain_poll, drain_loop, drain_fuel, flush_current, on_acquire,
  is_none,
}

-- Where a task stands with its decoders: it holds none, it feeds one, or it has signalled the end of
-- the input to the one it holds.
pub data Phase : Type 0 where
  idle feeding closing : Phase

abbrev pub with_payload : Bytes → List Bytes → List Bytes
with_payload payload rest = if is_empty payload then rest else payload ∷ rest

-- The input that the messages call for: their payloads but the empty ones.
abbrev pub payloads : List DecodeRequest → List Bytes
payloads [] = []
payloads (msg ∷ msgs) = with_payload msg.payload (payloads msgs)

module _ (a : AudioOps) (p : Decoders a) (client_takes : List Response → Bool) where
  -- The payloads sent to the decoders, oldest first.
  abbrev pub fed_in : List (Call a p client_takes) → List Bytes
  fed_in [] = []
  fed_in (fed [] ∷ cs) = fed_in cs
  fed_in (fed (b ∷ bs) ∷ cs) = fed_in cs ++ (b ∷ bs) ∷ []
  fed_in (acquired options ∷ cs) = fed_in cs
  fed_in (not_acquired e ∷ cs) = fed_in cs
  fed_in (got audio ∷ cs) = fed_in cs
  fed_in (dropped ∷ cs) = fed_in cs

  -- The use of a decoder: it is acquired when none is held, it is fed before the end of its input and
  -- not behind it, it gives audio until it is dropped; `none` is any other use.
  abbrev advance : Call a p client_takes → Phase → Option Phase
  advance (acquired options) idle = some feeding
  advance (not_acquired e) idle = some idle
  advance (fed []) feeding = some closing
  advance (fed (b ∷ bs)) feeding = some feeding
  advance (got audio) feeding = some feeding
  advance (got audio) closing = some closing
  advance dropped feeding = some idle
  advance dropped closing = some idle
  advance _ _ = none

  abbrev phase_after : List (Call a p client_takes) → Option Phase
  phase_after [] = some idle
  phase_after (x ∷ cs) = then_some (phase_after cs) (advance x)

  -- Of `total`, all but `rest` was sent, and the history stands at a phase.
  pub record At (total rest : List Bytes) (phase : Phase) (t : Task a p client_takes) : Type 0 where
    pub left : fed_in t.calls ++ rest ≡ total
    pub in_phase : phase_after t.calls ≡ some phase

  -- A task that stops has sent a first part of `total`, and has used its decoders in order.
  abbrev pub Partly : List Bytes → Stop → Task a p client_takes → Type 0
  Partly total e t = (rest : List Bytes) × (phase : Phase) × At total rest phase t

  abbrev pub phase_of : Option p.Decoder → Phase
  phase_of none = idle
  phase_of (some d) = feeding

  abbrev pub Feeds {ℓ} :
      {A : Type ℓ} → List Bytes → List Bytes → Phase → Run (Task a p client_takes) Stop A → Type 0
  Feeds total rest phase = Ensures (Partly total) (λ _. At total rest phase)

  abbrev pub FeedsLocals :
      List Bytes → List Bytes → Run (Task a p client_takes) Stop (Locals a p client_takes) → Type 0
  FeedsLocals total rest = Ensures (Partly total) (λ s. At total rest (phase_of s.current_decoder))

  -- A call that sends no payload.
  pub quiet-At :
      (total rest : List Bytes) (phase phase' : Phase) (x : Call a p client_takes)
      (t : Task a p client_takes)
      → fed_in (x ∷ t.calls) ≡ fed_in t.calls
      → advance x phase ≡ some phase'
      → At total rest phase t
      → At total rest phase' (record t { calls = x ∷ t.calls })
  quiet-At total rest phase phase' x t e q h = record {
    left = ap (λ cs. cs ++ rest) e ∙ h.left;
    in_phase = rw h.in_phase q;
  }

  pub send_chunks-At :
      (total rest : List Bytes) (phase : Phase) (chunks : List Bytes) (t : Task a p client_takes)
      → At total rest phase t
      → Feeds total rest phase (send_chunks a p client_takes chunks t)
  unfolding send_chunks send_response
  send_chunks-At total rest phase [] t h = h
  send_chunks-At total rest phase (pcm ∷ chunks) t h =
      Ensures-bind (Partly total) (λ _. At total rest phase) (λ _. At total rest phase) _ _
        (if-Ensures_run (Partly total) (λ _. At total rest phase) (client_takes t.responses) _ _
          (record { left = h.left; in_phase = h.in_phase }) (rest, phase, h))
        (λ _. send_chunks-At total rest phase chunks)

  on_drain_poll-At :
      (total rest : List Bytes)
      (again : ℕ → p.Decoder → List Bytes → M a p client_takes (List Bytes)) (tries : ℕ)
      (chunks : List Bytes) (r : Poll a.Audio p.Decoder) (t : Task a p client_takes)
      → ((n : ℕ) (d : p.Decoder) (cs : List Bytes) (t : Task a p client_takes)
          → At total rest closing t
          → Feeds total rest closing (again n d cs t))
      → At total rest closing t
      → Feeds total rest closing (
          on_drain_poll a p client_takes again tries chunks r
            (record t { calls = heard a p client_takes r t.calls }))
  unfolding on_drain_poll
  on_drain_poll-At total rest again tries chunks (item (ok audio) d) t k h =
      k 0 d _ _ (quiet-At total rest closing closing (got audio) t refl refl h)
  on_drain_poll-At total rest again tries chunks (item (err x) d) t k h = k tries d chunks t h
  on_drain_poll-At total rest again tries chunks (pending d) t k h =
      if-Ensures (Partly total) (λ _. At total rest closing) (ltb 10 (suc tries)) (ret chunks)
        (again (suc tries) d chunks) t h (k (suc tries) d chunks t h)
  on_drain_poll-At total rest again tries chunks (closed d) t k h = h

  drain_loop-At :
      (total rest : List Bytes) (f tries : ℕ) (d : p.Decoder) (chunks : List Bytes)
      (t : Task a p client_takes)
      → At total rest closing t
      → Feeds total rest closing (drain_loop a p client_takes f tries d chunks t)
  unfolding drain_loop
  drain_loop-At total rest zero tries d chunks t h = (rest, closing, h)
  drain_loop-At total rest (suc f) tries d chunks t h =
      on_drain_poll-At total rest (drain_loop a p client_takes f) tries chunks (p.try_recv d) t
        (drain_loop-At total rest f) h

  pub flush_current-At :
      (total rest : List Bytes) (o : Option p.Decoder) (t : Task a p client_takes)
      → At total rest (phase_of o) t
      → Feeds total rest idle (flush_current a p client_takes o t)
  unfolding flush_current
  flush_current-At total rest none t h = h
  flush_current-At total rest (some d) t h =
      let d' = after_send a p client_takes (p.send d []) in
      Ensures-bind (Partly total) (λ _. At total rest closing) (λ _. At total rest idle) _ _
        (drain_loop-At total rest (drain_fuel a p client_takes d') 0 d' [] _
          (quiet-At total rest feeding closing (fed []) t refl refl h))
        (λ chunks t' h'. quiet-At total rest closing idle dropped t' refl refl h')

  -- Behind the start of a segment a decoder is there.
  abbrev pub Started :
      List Bytes → List Bytes → Locals a p client_takes → Task a p client_takes → Type 0
  Started total rest s t =
      At total rest feeding t × (is_none a p client_takes s.current_decoder ≡ false)

  pub on_acquire-At :
      (total rest : List Bytes) (options : DecodeOptions) (r : Result p.Decoder Bytes)
      (t : Task a p client_takes)
      → At total rest idle t
      → Ensures (Partly total) (Started total rest) (on_acquire a p client_takes options r t)
  unfolding on_acquire
  on_acquire-At total rest options (ok d) t h =
      (record { left = h.left; in_phase = rw h.in_phase refl }, refl)
  on_acquire-At total rest options (err x) t h =
      (rest, idle, record { left = ground (arith, h.left); in_phase = ground (arith, h.in_phase) })
