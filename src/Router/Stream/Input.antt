-- ===== src/Router/Stream/Input.antt =====
-- What the HTTP handler feeds to its decoder, against the chunks of the body.
use media_api.Base.{
  ℕ, zero, suc, ◌≡◌, refl, ◌∙◌, Bool, Option, List, [], ◌∷◌, ◌++◌, append_assoc, Bytes, Result, ok,
  err, is_empty, if◌then◌else◌,
}
use media_api.Soundkit.{
  DecodeOptions, AudioOps, Poll, item, pending, closed, Send, sent, refused, Decoders,
}
use media_api.Effects.{Run, ret, fail, Ensures, Ensures-bind, if-Ensures_run}
use media_api.Config.{MediaApiConfig}
use media_api.Router.{ServerError}
use media_api.Router.Stream.{
  Written, response_head, data_chunk, end_of_stream, Call, acquired, fed, got, Conn, M, heard,
  write, on_poll, drain, after_send, on_send, feed, on_flush_poll, flush, serve, on_acquire,
  decode_body, no_calls,
}

-- The decoder input that a body calls for: its chunks but the empty ones, and the end of the input.
abbrev pub input_of : List Bytes → List Bytes
input_of [] = [] ∷ []
input_of (chunk ∷ chunks) = if is_empty chunk then input_of chunks else chunk ∷ input_of chunks

module _ (a : AudioOps) (p : Decoders a) (writes : List Written → Written → Bool) where
  -- What was sent to the decoder, oldest first.
  abbrev pub fed_in : List (Call a p writes) → List Bytes
  fed_in [] = []
  fed_in (acquired options ∷ cs) = fed_in cs
  fed_in (fed chunk ∷ cs) = fed_in cs ++ chunk ∷ []
  fed_in (got audio ∷ cs) = fed_in cs

  -- Of `total`, all but `rest` was sent.
  abbrev pub Left : List Bytes → List Bytes → Conn a p writes → Type 0
  Left total rest c = fed_in c.calls ++ rest ≡ total

  -- A failed handler has sent a first part of `total`.
  abbrev pub Partly : List Bytes → ServerError → Conn a p writes → Type 0
  Partly total e c = (rest : List Bytes) × Left total rest c

  abbrev pub Feeds {ℓ} :
      {A : Type ℓ} → List Bytes → List Bytes → Run (Conn a p writes) ServerError A → Type 0
  Feeds total rest = Ensures (Partly total) (λ _. Left total rest)

  -- Every chunk is accepted: no worker ends before its input does.
  abbrev pub Accepts : Type 0
  Accepts = (d : p.Decoder) (chunk : Bytes) → (d' : p.Decoder) × (p.send d chunk ≡ sent d')

  write-Feeds :
      (total rest : List Bytes) (w : Written) (c : Conn a p writes)
      → Left total rest c
      → Feeds total rest (write a p writes w c)
  unfolding write
  write-Feeds total rest w c h =
      if-Ensures_run (Partly total) (λ _. Left total rest) (writes c.written w) _ _ h (rest, h)

  -- A step that leaves what is to be sent, before one that sends more.
  then_Feeds {ℓ κ} :
      {A : Type ℓ} {B : Type κ} (total rest last : List Bytes)
      (r : Run (Conn a p writes) ServerError A) (f : A → M a p writes B)
      → Feeds total rest r
      → ((x : A) (c : Conn a p writes) → Left total rest c → Feeds total last (f x c))
      → Feeds total last (elim r [ ret x c' ↦ f x c' | fail e c' ↦ fail e c' ])
  then_Feeds total rest last r f h k =
      Ensures-bind (Partly total) (λ _. Left total rest) (λ _. Left total last) r f h k

  on_poll-Feeds :
      (total rest : List Bytes) (again : p.Decoder → M a p writes p.Decoder)
      (r : Poll a.Audio p.Decoder) (c : Conn a p writes)
      → ((d : p.Decoder) (c : Conn a p writes) → Left total rest c → Feeds total rest (again d c))
      → Left total rest c
      → Feeds total rest
          (on_poll a p writes again r (record c { calls = heard a p writes r c.calls }))
  unfolding on_poll
  on_poll-Feeds total rest again (item (ok audio) d) c k h =
      then_Feeds total rest rest _ _ (write-Feeds total rest (data_chunk (a.bytes audio)) _ h)
        (λ _ c'. k d c')
  on_poll-Feeds total rest again (item (err x) d) c k h = k d c h
  on_poll-Feeds total rest again (pending d) c k h = h
  on_poll-Feeds total rest again (closed d) c k h = h

  drain-Feeds :
      (total rest : List Bytes) (f : ℕ) (d : p.Decoder) (c : Conn a p writes)
      → Left total rest c
      → Feeds total rest (drain a p writes f d c)
  unfolding drain
  drain-Feeds total rest zero d c h = (rest, h)
  drain-Feeds total rest (suc f) d c h =
      on_poll-Feeds total rest (drain a p writes f) (p.try_recv d) c (drain-Feeds total rest f) h

  on_flush_poll-Feeds :
      (total rest : List Bytes) (again : p.Decoder → M a p writes (Unit {0}))
      (r : Poll a.Audio p.Decoder) (c : Conn a p writes)
      → ((d : p.Decoder) (c : Conn a p writes) → Left total rest c → Feeds total rest (again d c))
      → Left total rest c
      → Feeds total rest
          (on_flush_poll a p writes again r (record c { calls = heard a p writes r c.calls }))
  unfolding on_flush_poll
  on_flush_poll-Feeds total rest again (item (ok audio) d) c k h =
      then_Feeds total rest rest _ _ (write-Feeds total rest (data_chunk (a.bytes audio)) _ h)
        (λ _ c'. k d c')
  on_flush_poll-Feeds total rest again (item (err x) d) c k h = k d c h
  on_flush_poll-Feeds total rest again (pending d) c k h = k d c h
  on_flush_poll-Feeds total rest again (closed d) c k h = h

  flush-Feeds :
      (total rest : List Bytes) (f : ℕ) (d : p.Decoder) (c : Conn a p writes)
      → Left total rest c
      → Feeds total rest (flush a p writes f d c)
  unfolding flush
  flush-Feeds total rest zero d c h = (rest, h)
  flush-Feeds total rest (suc f) d c h =
      on_flush_poll-Feeds total rest (flush a p writes f) (p.try_recv d) c
        (flush-Feeds total rest f) h

  fed-Left :
      (total rest : List Bytes) (chunk : Bytes) (c : Conn a p writes)
      → Left total (chunk ∷ rest) c
      → Left total rest (record c { calls = fed chunk ∷ c.calls })
  fed-Left total rest chunk c h = append_assoc (fed_in c.calls) (chunk ∷ []) rest ∙ h

  on_send-Feeds :
      (total rest last : List Bytes) (again : p.Decoder → M a p writes p.Decoder)
      (r : Send p.Decoder) (c : Conn a p writes)
      → ((d' : p.Decoder) × (r ≡ sent d'))
      → ((d : p.Decoder) (c : Conn a p writes) → Left total rest c → Feeds total last (again d c))
      → Left total rest c
      → Feeds total last (on_send a p writes again r c)
  unfolding on_send
  on_send-Feeds total rest last again (sent d) c taken k h =
      then_Feeds total rest last _ again (drain-Feeds total rest (suc (p.backlog d)) d c h) k
  on_send-Feeds total rest last again (refused x d) c (d', q) k h = absurd cc

  feed-Feeds :
      (total chunks : List Bytes) (d : p.Decoder) (c : Conn a p writes)
      → Accepts
      → Left total (input_of chunks) c
      → Feeds total ([] ∷ []) (feed a p writes chunks d c)
  unfolding feed
  feed-Feeds total [] d c taken h = h
  feed-Feeds total ([] ∷ chunks) d c taken h = feed-Feeds total chunks d c taken h
  feed-Feeds total ((b ∷ bs) ∷ chunks) d c taken h =
      on_send-Feeds total (input_of chunks) ([] ∷ []) (feed a p writes chunks) (p.send d (b ∷ bs)) _
        (taken d (b ∷ bs)) (λ d' c' h'. feed-Feeds total chunks d' c' taken h')
        (fed-Left total (input_of chunks) (b ∷ bs) c h)

  serve-Feeds :
      (fuel : ℕ) (chunks : List Bytes) (d : p.Decoder) (c : Conn a p writes)
      → Accepts
      → Left (input_of chunks) (input_of chunks) c
      → Feeds (input_of chunks) [] (serve a p writes fuel chunks d c)
  unfolding serve
  serve-Feeds fuel chunks d c taken h =
      let total = input_of chunks in
      then_Feeds total total [] _ _ (write-Feeds total total response_head c h) λ _ c1 h1.
        then_Feeds total ([] ∷ []) [] _ _ (feed-Feeds total chunks d c1 taken h1) λ d' c2 h2.
          then_Feeds total [] [] _ _
            (flush-Feeds total [] fuel (after_send a p writes (p.send d' [])) _
              (fed-Left total [] [] c2 h2))
            (λ _ c3 h3. write-Feeds total [] end_of_stream c3 h3)

  on_acquire-Feeds :
      (fuel : ℕ) (options : DecodeOptions) (chunks : List Bytes) (r : Result p.Decoder Bytes)
      → Accepts
      → Feeds
          (input_of chunks)
          []
          (on_acquire a p writes fuel options chunks r (no_calls a p writes))
  unfolding on_acquire
  on_acquire-Feeds fuel options chunks (ok d) taken = serve-Feeds fuel chunks d _ taken refl
  on_acquire-Feeds fuel options chunks (err x) taken = (input_of chunks, refl)

-- If the decoder accepts what it is sent, a handler that succeeds has fed it every chunk of the body
-- that is not empty, in order and each once, and then the end of the input. One that fails has
-- fed it a first part of that.
pub decode_body-input_of :
    (a : AudioOps) (p : Decoders a) (writes : List Written → Written → Bool) (fuel : ℕ)
    (config : MediaApiConfig) (query : Option Bytes) (chunks : List Bytes)
    → Accepts a p writes
    → Feeds a p writes
        (input_of chunks)
        []
        (decode_body a p writes fuel config query chunks (no_calls a p writes))
unfolding decode_body
decode_body-input_of a p writes fuel config query chunks taken =
    on_acquire-Feeds a p writes fuel _ chunks (p.acquire zero _) taken
