-- ===== src/Router/Stream/Asked.antt =====
-- The options with which an HTTP request asks for its decoder.
use media_api.Base.{ℕ, zero, suc, Bool, Option, List, [], ◌∷◌, Bytes, Result, ok, err}
use media_api.Soundkit.{
  DecodeOptions, AudioOps, Poll, item, pending, closed, Send, sent, refused, Decoders,
}
use media_api.Effects.{Run, ret, fail, Ensures, Ensures-bind, if-Ensures_run}
use media_api.Config.{MediaApiConfig}
use media_api.Decode.{parse_decode_options}
use media_api.Router.{ServerError, merge_options}
use media_api.Router.Stream.{
  Written, response_head, data_chunk, end_of_stream, Call, acquired, fed, got, Conn, M, heard,
  write, on_poll, drain, after_send, on_send, feed, on_flush_poll, flush, serve, on_acquire,
  decode_body, no_calls,
}

module _ (a : AudioOps) (p : Decoders a) (writes : List Written → Written → Bool)
    (Q : DecodeOptions → Type 0) where
  -- All decoders of a history were asked for with options of this kind.
  abbrev pub Asks : List (Call a p writes) → Type 0
  Asks [] = Unit
  Asks (acquired options ∷ cs) = Q options × Asks cs
  Asks (fed chunk ∷ cs) = Asks cs
  Asks (got audio ∷ cs) = Asks cs

  abbrev AsksAt {ℓ} : {A : Type ℓ} → A → Conn a p writes → Type 0
  AsksAt x c = Asks c.calls

  -- So it is behind a step, whether it fails or not.
  abbrev pub Asked {ℓ} : {A : Type ℓ} → Run (Conn a p writes) ServerError A → Type 0
  Asked = Ensures AsksAt AsksAt

  then_Asked {ℓ κ} :
      {A : Type ℓ} {B : Type κ} (r : Run (Conn a p writes) ServerError A) (f : A → M a p writes B)
      → Asked r
      → ((x : A) (c : Conn a p writes) → Asks c.calls → Asked (f x c))
      → Asked (elim r [ ret x c' ↦ f x c' | fail e c' ↦ fail e c' ])
  then_Asked r f h k = Ensures-bind AsksAt AsksAt AsksAt r f h k

  write-Asked : (w : Written) (c : Conn a p writes) → Asks c.calls → Asked (write a p writes w c)
  unfolding write
  write-Asked w c h = if-Ensures_run AsksAt AsksAt (writes c.written w) _ _ h h

  on_poll-Asked :
      (again : p.Decoder → M a p writes p.Decoder) (r : Poll a.Audio p.Decoder)
      (c : Conn a p writes)
      → ((d : p.Decoder) (c : Conn a p writes) → Asks c.calls → Asked (again d c))
      → Asks c.calls
      → Asked (on_poll a p writes again r (record c { calls = heard a p writes r c.calls }))
  unfolding on_poll
  on_poll-Asked again (item (ok audio) d) c k h =
      then_Asked (write a p writes (data_chunk (a.bytes audio)) _) _ (write-Asked _ _ h) λ _. k d
  on_poll-Asked again (item (err x) d) c k h = k d c h
  on_poll-Asked again (pending d) c k h = h
  on_poll-Asked again (closed d) c k h = h

  drain-Asked :
      (f : ℕ) (d : p.Decoder) (c : Conn a p writes) → Asks c.calls → Asked (drain a p writes f d c)
  unfolding drain
  drain-Asked zero d c h = h
  drain-Asked (suc f) d c h = on_poll-Asked (drain a p writes f) (p.try_recv d) c (drain-Asked f) h

  on_send-Asked :
      (rest : p.Decoder → M a p writes p.Decoder) (r : Send p.Decoder) (c : Conn a p writes)
      → ((d : p.Decoder) (c : Conn a p writes) → Asks c.calls → Asked (rest d c))
      → Asks c.calls
      → Asked (on_send a p writes rest r c)
  unfolding on_send
  on_send-Asked rest (sent d) c k h =
      then_Asked (drain a p writes (suc (p.backlog d)) d c) rest
        (drain-Asked (suc (p.backlog d)) d c h) k
  on_send-Asked rest (refused x d) c k h = h

  feed-Asked :
      (chunks : List Bytes) (d : p.Decoder) (c : Conn a p writes)
      → Asks c.calls
      → Asked (feed a p writes chunks d c)
  unfolding feed
  feed-Asked [] d c h = h
  feed-Asked ([] ∷ chunks) d c h = feed-Asked chunks d c h
  feed-Asked ((b ∷ bs) ∷ chunks) d c h =
      on_send-Asked (feed a p writes chunks) (p.send d (b ∷ bs)) _ (feed-Asked chunks) h

  on_flush_poll-Asked :
      (again : p.Decoder → M a p writes (Unit {0})) (r : Poll a.Audio p.Decoder)
      (c : Conn a p writes)
      → ((d : p.Decoder) (c : Conn a p writes) → Asks c.calls → Asked (again d c))
      → Asks c.calls
      → Asked (on_flush_poll a p writes again r (record c { calls = heard a p writes r c.calls }))
  unfolding on_flush_poll
  on_flush_poll-Asked again (item (ok audio) d) c k h =
      then_Asked (write a p writes (data_chunk (a.bytes audio)) _) _ (write-Asked _ _ h) λ _. k d
  on_flush_poll-Asked again (item (err x) d) c k h = k d c h
  on_flush_poll-Asked again (pending d) c k h = k d c h
  on_flush_poll-Asked again (closed d) c k h = h

  flush-Asked :
      (f : ℕ) (d : p.Decoder) (c : Conn a p writes) → Asks c.calls → Asked (flush a p writes f d c)
  unfolding flush
  flush-Asked zero d c h = h
  flush-Asked (suc f) d c h =
      on_flush_poll-Asked (flush a p writes f) (p.try_recv d) c (flush-Asked f) h

  serve-Asked :
      (fuel : ℕ) (chunks : List Bytes) (d : p.Decoder) (c : Conn a p writes)
      → Asks c.calls
      → Asked (serve a p writes fuel chunks d c)
  unfolding serve
  serve-Asked fuel chunks d c h =
      then_Asked (write a p writes response_head c) _ (write-Asked response_head c h) λ _ c1 h1.
        then_Asked (feed a p writes chunks d c1) _ (feed-Asked chunks d c1 h1) λ d' c2 h2.
          then_Asked (flush a p writes fuel (after_send a p writes (p.send d' [])) _) _
            (flush-Asked fuel _ (record c2 { calls = fed [] ∷ c2.calls }) h2)
            λ _ c3 h3. write-Asked end_of_stream c3 h3

  on_acquire-Asked :
      (fuel : ℕ) (options : DecodeOptions) (chunks : List Bytes) (r : Result p.Decoder Bytes)
      → Q options
      → Asked (on_acquire a p writes fuel options chunks r (no_calls a p writes))
  unfolding on_acquire
  on_acquire-Asked fuel options chunks (ok d) q = serve-Asked fuel chunks d _ (q, tt)
  on_acquire-Asked fuel options chunks (err x) q = tt

  -- A request asks for its decoder with the options of its query and the configured defaults.
  pub decode_body-Asked :
      (fuel : ℕ) (config : MediaApiConfig) (query : Option Bytes) (chunks : List Bytes)
      → Q (merge_options config (parse_decode_options query))
      → Asked (decode_body a p writes fuel config query chunks (no_calls a p writes))
  unfolding decode_body
  decode_body-Asked fuel config query chunks q = on_acquire-Asked fuel _ chunks (p.acquire zero _) q
