-- ===== src/Router/Stream/Total.antt =====
-- The HTTP handler comes to an end, if its decoder closes after the end of the input.
use media_api.Base.{
  ℕ, zero, suc, ◌≤◌, ◌<◌, ◌≡◌, ◌≢◌, refl, subst, Bool, Option, List, [], ◌∷◌, Bytes, Result, ok,
  err, arith,
}
use media_api.Soundkit.{
  DecodeOptions, AudioOps, Poll, item, pending, closed, Send, sent, refused, Decoders, PollFalls,
  Bounded,
}
use media_api.Effects.{Run, ret, fail, Ensures, Ensures-bind, if-Ensures_run}
use media_api.Config.{MediaApiConfig}
use media_api.Router.{ServerError, out_of_fuel}
use media_api.Router.Stream.{
  Written, response_head, data_chunk, end_of_stream, Conn, M, write, on_poll, drain, after_send,
  on_send, feed, on_flush_poll, flush, serve, on_acquire, decode_body, no_calls,
}

-- Decoders which, once they are sent the end of the input, are silent for finitely many polls between
-- two results: `IsEnding` says that a decoder was sent it, and `silence` bounds the polls in a row
-- that find nothing.
pub record Attentive {a : AudioOps} (p : Decoders a) : Type 1 where
  pub IsEnding : p.Decoder → Type 0
  pub silence : p.Decoder → ℕ
  pub sent_end : (d d' : p.Decoder) → p.send d [] ≡ sent d' → IsEnding d'
  pub refused_end : (d d' : p.Decoder) (e : Bytes) → p.send d [] ≡ refused e d' → IsEnding d'
  pub keeps_on :
      (d d' : p.Decoder) (r : Result a.Audio Bytes)
      → IsEnding d
      → p.try_recv d ≡ item r d'
      → IsEnding d'
  pub falls :
      (d d' : p.Decoder)
      → IsEnding d
      → p.try_recv d ≡ pending d'
      → IsEnding d' × (silence d' < silence d)

-- The next `n` polls of a decoder bring it to its end.
pub data Closes {a : AudioOps} (p : Decoders a) : ℕ → p.Decoder → Type 0 where
  at_end : {n : ℕ} {d d' : p.Decoder} → p.try_recv d ≡ closed d' → Closes p (suc n) d
  waits :
      {n : ℕ} {d d' : p.Decoder} → p.try_recv d ≡ pending d' → Closes p n d' → Closes p (suc n) d
  gives :
      {n : ℕ} {d d' : p.Decoder} {r : Result a.Audio Bytes}
      → p.try_recv d ≡ item r d'
      → Closes p n d'
      → Closes p (suc n) d

module _ {a : AudioOps} {p : Decoders a} (bounded : Bounded p) (attentive : Attentive p) where
  abbrev Closing : p.Decoder → Type 0
  Closing d = (n : ℕ) × Closes p n d

  -- One poll of a decoder, if those behind it bring it to its end.
  poll-Closing :
      (d : p.Decoder) (r : Poll a.Audio p.Decoder)
      → p.try_recv d ≡ r
      → PollFalls p.backlog (p.backlog d) r
      → attentive.IsEnding d
      → ((d' : p.Decoder)
          → p.backlog d' ≤ p.backlog d
          → attentive.silence d' < attentive.silence d
          → attentive.IsEnding d'
          → Closing d')
      → ((d' : p.Decoder) → p.backlog d' < p.backlog d → attentive.IsEnding d' → Closing d')
      → Closing d
  poll-Closing d (closed d') e falls over k k' = (1, at_end e)
  poll-Closing d (pending d') e falls over k k' =
      let (over', less) = attentive.falls d d' over e in
      let (n, c) = k d' falls less over' in (suc n, waits e c)
  poll-Closing d (item r d') e falls over k k' =
      let (n, c) = k' d' falls (attentive.keeps_on d d' r over e) in (suc n, gives e c)

  backlog-Closing :
      (results polls : ℕ) (d : p.Decoder)
      → p.backlog d < results
      → attentive.silence d < polls
      → attentive.IsEnding d
      → Closing d
  backlog-Closing zero polls d h h' over = absurd (omega arith)
  backlog-Closing (suc results) zero d h h' over = absurd (omega arith)
  backlog-Closing (suc results) (suc polls) d h h' over =
      poll-Closing d (p.try_recv d) refl (bounded.try_recv-backlog d) over
        (λ d' le lt. backlog-Closing (suc results) polls d' (omega arith) (omega arith))
        (λ d' lt.
          backlog-Closing results (suc (attentive.silence d')) d' (omega arith) (omega arith))

  -- A decoder that is sent the end of the input closes after some number of polls.
  pub ending-Closes :
      (writes : List Written → Written → Bool) (d : p.Decoder)
      → (n : ℕ) × Closes p n (after_send a p writes (p.send d []))
  ending-Closes writes d = go (p.send d []) refl
    where
      go : (r : Send p.Decoder) → p.send d [] ≡ r → (n : ℕ) × Closes p n (after_send a p writes r)
      go (sent d') e =
          backlog-Closing (suc (p.backlog d')) (suc (attentive.silence d')) d' (omega arith)
            (omega arith) (attentive.sent_end d d' e)
      go (refused x d') e =
          backlog-Closing (suc (p.backlog d')) (suc (attentive.silence d')) d' (omega arith)
            (omega arith) (attentive.refused_end d d' x e)

module _ {a : AudioOps} {p : Decoders a} {writes : List Written → Written → Bool}
    (bounded : Bounded p) where
  abbrev pub NotStuck : ServerError → Conn a p writes → Type 0
  NotStuck e c = e ≢ out_of_fuel

  abbrev Any {ℓ} : {A : Type ℓ} → A → Conn a p writes → Type 0
  Any x c = Unit {0}

  abbrev Ends {ℓ} : {A : Type ℓ} → Run (Conn a p writes) ServerError A → Type 0
  Ends = Ensures NotStuck Any

  then_Ends {ℓ κ} :
      {A : Type ℓ} {B : Type κ} (r : Run (Conn a p writes) ServerError A) (f : A → M a p writes B)
      → Ends r
      → ((x : A) (c : Conn a p writes) → Ends (f x c))
      → Ends (elim r [ ret x c' ↦ f x c' | fail e c' ↦ fail e c' ])
  then_Ends r f h k = Ensures-bind NotStuck Any Any r f h (λ x c _. k x c)

  write-Ends : (w : Written) (c : Conn a p writes) → Ends (write a p writes w c)
  unfolding write
  write-Ends w c = if-Ensures_run NotStuck Any (writes c.written w) _ _ tt (λ e. cc)

  on_poll-Ends :
      (again : p.Decoder → M a p writes p.Decoder) (n : ℕ) (r : Poll a.Audio p.Decoder)
      (c : Conn a p writes)
      → ((d : p.Decoder) (c : Conn a p writes) → p.backlog d < n → Ends (again d c))
      → PollFalls p.backlog n r
      → Ends (on_poll a p writes again r c)
  unfolding on_poll
  on_poll-Ends again n (item (ok audio) d) c k h =
      then_Ends _ _ (write-Ends (data_chunk (a.bytes audio)) _) λ _ c'. k d c' h
  on_poll-Ends again n (item (err x) d) c k h = k d c h
  on_poll-Ends again n (pending d) c k h = tt
  on_poll-Ends again n (closed d) c k h = tt

  drain-Ends :
      (f : ℕ) (d : p.Decoder) (c : Conn a p writes)
      → p.backlog d < f
      → Ends (drain a p writes f d c)
  unfolding drain
  drain-Ends zero d c h = absurd (omega arith)
  drain-Ends (suc f) d c h =
      on_poll-Ends (drain a p writes f) (p.backlog d) (p.try_recv d) _
        (λ d' c' lt. drain-Ends f d' c' (omega arith)) (bounded.try_recv-backlog d)

  on_send-Ends :
      (rest : p.Decoder → M a p writes p.Decoder) (r : Send p.Decoder) (c : Conn a p writes)
      → ((d : p.Decoder) (c : Conn a p writes) → Ends (rest d c))
      → Ends (on_send a p writes rest r c)
  unfolding on_send
  on_send-Ends rest (sent d) c k =
      then_Ends _ _ (drain-Ends (suc (p.backlog d)) d c (omega arith)) k
  on_send-Ends rest (refused x d) c k = tt

  feed-Ends :
      (chunks : List Bytes) (d : p.Decoder) (c : Conn a p writes)
      → Ends (feed a p writes chunks d c)
  unfolding feed
  feed-Ends [] d c = tt
  feed-Ends ([] ∷ chunks) d c = feed-Ends chunks d c
  feed-Ends ((b ∷ bs) ∷ chunks) d c =
      on_send-Ends (feed a p writes chunks) (p.send d (b ∷ bs)) _ (feed-Ends chunks)

  flush-Ends :
      (f : ℕ) (d : p.Decoder) (c : Conn a p writes) → Closes p f d → Ends (flush a p writes f d c)
  unfolding flush on_flush_poll
  flush-Ends zero d c h = elim h [ ]
  flush-Ends (suc f) d c (at_end e) = rw e tt
  flush-Ends (suc f) d c (waits {d' = d'} e h) = rw e (flush-Ends f d' c h)
  flush-Ends (suc f) d c (gives {d' = d'} {r = ok audio} e h) =
      rw e (then_Ends _ _ (write-Ends (data_chunk (a.bytes audio)) _) λ _ c'. flush-Ends f d' c' h)
  flush-Ends (suc f) d c (gives {d' = d'} {r = err x} e h) = rw e (flush-Ends f d' c h)

  -- After any step that ends, some fuel is enough for what follows, if it is after each outcome.
  enough_after {ℓ κ} :
      {A : Type ℓ} {B : Type κ} (r : Run (Conn a p writes) ServerError A)
      (f : ℕ → A → M a p writes B)
      → Ends r
      → ((x : A) (c : Conn a p writes) → (n : ℕ) × Ends (f n x c))
      → (n : ℕ) × Ends (elim r [ ret x c' ↦ f n x c' | fail e c' ↦ fail e c' ])
  enough_after (ret x c) f h k = k x c
  enough_after (fail e c) f h k = (0, h)

  serve-enough :
      (chunks : List Bytes) (d : p.Decoder) (c : Conn a p writes)
      → ((d : p.Decoder) → (n : ℕ) × Closes p n (after_send a p writes (p.send d [])))
      → (fuel : ℕ) × Ends (serve a p writes fuel chunks d c)
  unfolding serve
  serve-enough chunks d c closes =
      enough_after (write a p writes response_head c) _ (write-Ends response_head c) λ _ c1.
        enough_after (feed a p writes chunks d c1) _ (feed-Ends chunks d c1) λ d' c2.
          let (n, h) = closes d' in
          (n, then_Ends _ _ (flush-Ends n _ _ h) λ _. write-Ends end_of_stream)

module _ (a : AudioOps) (p : Decoders a) (writes : List Written → Written → Bool)
    (bounded : Bounded p) where
  on_acquire-enough :
      (options : DecodeOptions) (chunks : List Bytes) (r : Result p.Decoder Bytes)
      → ((d : p.Decoder) → (n : ℕ) × Closes p n (after_send a p writes (p.send d [])))
      → (fuel : ℕ) × Ends bounded
          (on_acquire a p writes fuel options chunks r (no_calls a p writes))
  unfolding on_acquire
  on_acquire-enough options chunks (ok d) closes = serve-enough bounded chunks d _ closes
  on_acquire-enough options chunks (err x) closes = (0, λ e. cc)

-- If the decoders have finitely many results to give between two sends (`Bounded`) and, once they are
-- sent the end of the input, are silent for finitely many polls between two results (`Attentive`), then
-- the handler comes to an end: there is a fuel with which it does not run out of fuel.
pub decode_body_ends :
    (a : AudioOps) (p : Decoders a) (writes : List Written → Written → Bool)
    (config : MediaApiConfig) (query : Option Bytes) (chunks : List Bytes)
    → Bounded p
    → Attentive p
    → (fuel : ℕ) × ((c : Conn a p writes)
        → decode_body a p writes fuel config query chunks (no_calls a p writes)
          ≢ fail out_of_fuel c)
unfolding decode_body
decode_body_ends a p writes config query chunks bounded attentive =
    let (n, h) =
      on_acquire-enough a p writes bounded _ chunks (p.acquire zero _)
        (ending-Closes bounded attentive writes) in
    (n, λ c e. subst (Ends bounded) e h refl)
