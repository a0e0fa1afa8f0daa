-- ===== src/Router/Stream/Output.antt =====
-- What the HTTP handler writes, against the audio that its decoder gives.
use media_api.Base.{
  ℕ, zero, suc, ◌≡◌, refl, Bool, Option, List, [], ◌∷◌, Bytes, Result, ok, err, Extends, here, more,
  Extends-of_eq,
}
use media_api.Soundkit.{
  DecodeOptions, AudioOps, Poll, item, pending, closed, Send, sent, refused, Decoders,
}
use media_api.Effects.{Run, ret, fail, Ensures, Ensures-bind, if-Ensures_run}
use media_api.Config.{MediaApiConfig}
use media_api.Router.{ServerError}
use media_api.Router.Stream.{
  Written, response_head, data_chunk, end_of_stream, Call, acquired, fed, got, Conn, M, heard,
  write, on_poll, drain, after_send, on_send, feed, on_flush_poll, flush, serve, on_acquire,
  decode_body, no_calls,
}

module _ (a : AudioOps) (p : Decoders a) (writes : List Written → Written → Bool) where
  -- The writes that a history of decoder calls calls for, newest first.
  abbrev pub written_for : List (Call a p writes) → List Written
  written_for [] = []
  written_for (acquired options ∷ cs) = response_head ∷ written_for cs
  written_for (got audio ∷ cs) = data_chunk (a.bytes audio) ∷ written_for cs
  written_for (fed chunk ∷ cs) = written_for cs

  -- A failed handler has made the writes that its history calls for, less the last ones.
  abbrev pub Behind : ServerError → Conn a p writes → Type 0
  Behind e c = Extends c.written (written_for c.calls)

  abbrev pub Wrote {ℓ} :
      {A : Type ℓ} → (A → Conn a p writes → Type 0) → Run (Conn a p writes) ServerError A → Type 0
  Wrote = Ensures Behind

  abbrev InSync {ℓ} : {A : Type ℓ} → A → Conn a p writes → Type 0
  InSync x c = written_for c.calls ≡ c.written

  -- The response is over, and nothing was written that the decoder did not give.
  abbrev pub Complete : Conn a p writes → Type 0
  Complete c = c.written ≡ end_of_stream ∷ written_for c.calls

  write-then {ℓ} :
      {B : Type ℓ} (R : B → Conn a p writes → Type 0) (f : Unit {0} → M a p writes B) (w : Written)
      (c : Conn a p writes)
      → Extends c.written (written_for c.calls)
      → Wrote R (f tt (record c { written = w ∷ c.written }))
      → Wrote R (elim (write a p writes w c) [ ret x c' ↦ f x c' | fail e c' ↦ fail e c' ])
  unfolding write
  write-then R f w c h k =
      Ensures-bind Behind (λ _ c'. c' ≡ record c { written = w ∷ c.written }) R
        (write a p writes w c) f
        (if-Ensures_run Behind (λ _ c'. c' ≡ record c { written = w ∷ c.written })
          (writes c.written w) _ _ refl h)
        (λ _ c' q. rw q k)

  on_poll-sync :
      (again : p.Decoder → M a p writes p.Decoder) (r : Poll a.Audio p.Decoder)
      (c : Conn a p writes)
      → ((d : p.Decoder) (c : Conn a p writes) → InSync d c → Wrote InSync (again d c))
      → InSync r c
      → Wrote InSync (on_poll a p writes again r (record c { calls = heard a p writes r c.calls }))
  unfolding on_poll
  on_poll-sync again (item (ok audio) d) c k e =
      write-then InSync _ _ (record c { calls = got audio ∷ c.calls }) (rw e (more here))
        (k d _ (rw e refl))
  on_poll-sync again (item (err x) d) c k e = k d c e
  on_poll-sync again (pending d) c k e = e
  on_poll-sync again (closed d) c k e = e

  drain-sync :
      (f : ℕ) (d : p.Decoder) (c : Conn a p writes)
      → InSync d c
      → Wrote InSync (drain a p writes f d c)
  unfolding drain
  drain-sync zero d c e = Extends-of_eq _ _ e
  drain-sync (suc f) d c e = on_poll-sync (drain a p writes f) (p.try_recv d) c (drain-sync f) e

  on_send-sync :
      (rest : p.Decoder → M a p writes p.Decoder) (r : Send p.Decoder) (c : Conn a p writes)
      → ((d : p.Decoder) (c : Conn a p writes) → InSync d c → Wrote InSync (rest d c))
      → InSync r c
      → Wrote InSync (on_send a p writes rest r c)
  unfolding on_send
  on_send-sync rest (sent d) c k e =
      Ensures-bind Behind InSync InSync _ rest (drain-sync (suc (p.backlog d)) d c e) k
  on_send-sync rest (refused x d) c k e = e

  feed-sync :
      (chunks : List Bytes) (d : p.Decoder) (c : Conn a p writes)
      → InSync d c
      → Wrote InSync (feed a p writes chunks d c)
  unfolding feed
  feed-sync [] d c e = e
  feed-sync ([] ∷ chunks) d c e = feed-sync chunks d c e
  feed-sync ((b ∷ bs) ∷ chunks) d c e =
      on_send-sync (feed a p writes chunks) (p.send d (b ∷ bs)) _ (feed-sync chunks) e

  on_flush_poll-sync :
      (again : p.Decoder → M a p writes (Unit {0})) (r : Poll a.Audio p.Decoder)
      (c : Conn a p writes)
      → ((d : p.Decoder) (c : Conn a p writes) → InSync d c → Wrote InSync (again d c))
      → InSync r c
      → Wrote InSync
          (on_flush_poll a p writes again r (record c { calls = heard a p writes r c.calls }))
  unfolding on_flush_poll
  on_flush_poll-sync again (item (ok audio) d) c k e =
      write-then InSync _ _ (record c { calls = got audio ∷ c.calls }) (rw e (more here))
        (k d _ (rw e refl))
  on_flush_poll-sync again (item (err x) d) c k e = k d c e
  on_flush_poll-sync again (pending d) c k e = k d c e
  on_flush_poll-sync again (closed d) c k e = e

  flush-sync :
      (f : ℕ) (d : p.Decoder) (c : Conn a p writes)
      → InSync d c
      → Wrote InSync (flush a p writes f d c)
  unfolding flush
  flush-sync zero d c e = Extends-of_eq _ _ e
  flush-sync (suc f) d c e =
      on_flush_poll-sync (flush a p writes f) (p.try_recv d) c (flush-sync f) e

  finish-sync :
      (c : Conn a p writes)
      → written_for c.calls ≡ c.written
      → Wrote (λ _. Complete) (write a p writes end_of_stream c)
  unfolding write
  finish-sync c e =
      if-Ensures_run Behind (λ _. Complete) (writes c.written end_of_stream) _ _ (rw e refl)
        (Extends-of_eq _ _ e)

  serve-sync :
      (fuel : ℕ) (chunks : List Bytes) (d : p.Decoder) (options : DecodeOptions)
      → Wrote
          (λ _. Complete)
          (serve a p writes fuel chunks d (record { written = []; calls = acquired options ∷ [] }))
  unfolding serve
  serve-sync fuel chunks d options =
      write-then (λ _. Complete) _ response_head
        (record { written = []; calls = acquired options ∷ [] }) (more here)
        (Ensures-bind Behind InSync (λ _. Complete) _ _
          (feed-sync chunks d
            (record { written = response_head ∷ []; calls = acquired options ∷ [] }) refl)
          λ d' c1 e1.
            Ensures-bind Behind InSync (λ _. Complete) _ _
              (flush-sync fuel (after_send a p writes (p.send d' []))
                (record c1 { calls = fed [] ∷ c1.calls }) e1)
              (λ _ c2 e2. finish-sync c2 e2))

  on_acquire-sync :
      (fuel : ℕ) (options : DecodeOptions) (chunks : List Bytes) (r : Result p.Decoder Bytes)
      → Wrote (λ _. Complete) (on_acquire a p writes fuel options chunks r (no_calls a p writes))
  unfolding on_acquire
  on_acquire-sync fuel options chunks (ok d) = serve-sync fuel chunks d options
  on_acquire-sync fuel options chunks (err e) = here

-- A handler that succeeds has written the response's head, then the bytes of each audio that the
-- decoder gave, in order and each once, then the end of the stream, and nothing else: there is no
-- metadata before the first audio. One that fails has made these writes less the last ones.
pub decode_body_output :
    (a : AudioOps) (p : Decoders a) (writes : List Written → Written → Bool) (fuel : ℕ)
    (config : MediaApiConfig) (query : Option Bytes) (chunks : List Bytes)
    → Wrote a p writes
        (λ _. Complete a p writes)
        (decode_body a p writes fuel config query chunks (no_calls a p writes))
unfolding decode_body
decode_body_output a p writes fuel config query chunks =
    on_acquire-sync a p writes fuel _ chunks (p.acquire zero _)
