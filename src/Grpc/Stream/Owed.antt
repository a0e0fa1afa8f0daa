-- ===== src/Grpc/Stream/Owed.antt =====
-- The responses that a history of decoder calls calls for, and the end of a segment.
use media_api.Base.{
  ℕ, zero, suc, ◌≡◌, refl, Bool, Option, none, some, List, [], ◌∷◌, ◌++◌, Bytes, ok, err, ltb,
  Extends, here, Extends-tail,
}
use media_api.Soundkit.{AudioOps, Poll, item, pending, closed, Decoders}
use media_api.Effects.{Run, ret, Ensures, Ensures-bind, if-Ensures, if-Ensures_run}
use media_api.Grpc.Stream.{
  Response, pcm_data, resource_exhausted, Stop, Call, acquired, not_acquired, fed, got, dropped,
  Task, M, heard, send_response, send_chunks, after_send, on_drain_poll, drain_loop, drain_fuel,
  flush_current,
}

module _ (a : AudioOps) (p : Decoders a) (client_takes : List Response → Bool) where
  -- The responses that a history calls for, newest first: a `PcmData` for each audio, and the status
  -- of a refused acquisition.
  abbrev pub responses_for : List (Call a p client_takes) → List Response
  responses_for [] = []
  responses_for (got audio ∷ cs) = pcm_data (a.bytes audio) ∷ responses_for cs
  responses_for (not_acquired e ∷ cs) = resource_exhausted e ∷ responses_for cs
  responses_for (acquired options ∷ cs) = responses_for cs
  responses_for (fed chunk ∷ cs) = responses_for cs
  responses_for (dropped ∷ cs) = responses_for cs

  -- A task that stops has sent the responses that its history calls for, less the last ones.
  abbrev pub Behind : Stop → Task a p client_takes → Type 0
  Behind e t = Extends t.responses (responses_for t.calls)

  abbrev pub Sent {ℓ} :
      {A : Type ℓ}
      → (A → Task a p client_takes → Type 0)
      → Run (Task a p client_takes) Stop A
      → Type 0
  Sent = Ensures Behind

  -- Chunks that are still to be sent, oldest first.
  abbrev pub owed : List Bytes → List Response → List Response
  owed [] sent_before = sent_before
  owed (pcm ∷ chunks) sent_before = owed chunks (pcm_data pcm ∷ sent_before)

  abbrev pub Owes : List Bytes → Task a p client_takes → Type 0
  Owes chunks t = responses_for t.calls ≡ owed chunks t.responses

  pub owed-concat :
      (chunks : List Bytes) (pcm : Bytes) (rs : List Response)
      → owed (chunks ++ pcm ∷ []) rs ≡ pcm_data pcm ∷ owed chunks rs
  owed-concat [] pcm rs = refl
  owed-concat (b ∷ chunks) pcm rs = owed-concat chunks pcm (pcm_data b ∷ rs)

  pub Extends-owed : (chunks : List Bytes) (rs : List Response) → Extends rs (owed chunks rs)
  Extends-owed [] rs = here
  Extends-owed (b ∷ chunks) rs = Extends-tail (Extends-owed chunks (pcm_data b ∷ rs))

  pub Behind_of_Owes :
      (chunks : List Bytes) (t : Task a p client_takes)
      → Owes chunks t
      → Extends t.responses (responses_for t.calls)
  Behind_of_Owes chunks t e = rw e (Extends-owed chunks t.responses)

  -- Nothing is owed.
  abbrev pub Settled : Task a p client_takes → Type 0
  Settled t = responses_for t.calls ≡ t.responses

  pub Owes-got :
      (chunks : List Bytes) (audio : a.Audio) (t : Task a p client_takes)
      → Owes chunks t
      → Owes (chunks ++ a.bytes audio ∷ []) (record t { calls = got audio ∷ t.calls })
  Owes-got chunks audio t e = rw (owed-concat chunks (a.bytes audio) t.responses, e)

  pub send_chunks-sync :
      (chunks : List Bytes) (t : Task a p client_takes)
      → Owes chunks t
      → Sent (λ _. Settled) (send_chunks a p client_takes chunks t)
  unfolding send_chunks
  send_chunks-sync [] t e = e
  send_chunks-sync (pcm ∷ chunks) t e =
      Ensures-bind Behind (λ _. Owes chunks) (λ _. Settled) _ _ first
        λ _ t' e'. send_chunks-sync chunks t' e'
    where
      first : Sent (λ _. Owes chunks) (send_response a p client_takes (pcm_data pcm) t)
      first =
          if-Ensures_run Behind (λ _. Owes chunks) (client_takes t.responses) _ _ e
            (Behind_of_Owes (pcm ∷ chunks) t e)

  pub on_drain_poll-sync :
      (again : ℕ → p.Decoder → List Bytes → M a p client_takes (List Bytes)) (tries : ℕ)
      (chunks : List Bytes) (r : Poll a.Audio p.Decoder) (t : Task a p client_takes)
      → ((n : ℕ) (d : p.Decoder) (cs : List Bytes) (t : Task a p client_takes)
          → Owes cs t
          → Sent Owes (again n d cs t))
      → Owes chunks t
      → Sent Owes (
          on_drain_poll a p client_takes again tries chunks r
            (record t { calls = heard a p client_takes r t.calls }))
  unfolding on_drain_poll
  on_drain_poll-sync again tries chunks (item (ok audio) d) t k e =
      k 0 d _ _ (Owes-got chunks audio t e)
  on_drain_poll-sync again tries chunks (item (err x) d) t k e = k tries d chunks t e
  on_drain_poll-sync again tries chunks (pending d) t k e =
      if-Ensures Behind Owes (ltb 10 (suc tries)) (ret chunks) (again (suc tries) d chunks) t e
        (k (suc tries) d chunks t e)
  on_drain_poll-sync again tries chunks (closed d) t k e = e

  pub drain_loop-sync :
      (f tries : ℕ) (d : p.Decoder) (chunks : List Bytes) (t : Task a p client_takes)
      → Owes chunks t
      → Sent Owes (drain_loop a p client_takes f tries d chunks t)
  unfolding drain_loop
  drain_loop-sync zero tries d chunks t e = Behind_of_Owes chunks t e
  drain_loop-sync (suc f) tries d chunks t e =
      on_drain_poll-sync (drain_loop a p client_takes f) tries chunks (p.try_recv d) t
        (drain_loop-sync f) e

  pub flush_current-sync :
      (o : Option p.Decoder) (t : Task a p client_takes)
      → Settled t
      → Sent Owes (flush_current a p client_takes o t)
  unfolding flush_current
  flush_current-sync none t e = e
  flush_current-sync (some d) t e =
      let d' = after_send a p client_takes (p.send d []) in
      Ensures-bind Behind Owes Owes _ _
        (drain_loop-sync (drain_fuel a p client_takes d') 0 d' [] _ e) λ chunks t' e'. e'
