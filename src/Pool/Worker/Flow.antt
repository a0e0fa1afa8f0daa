-- ===== src/Pool/Worker/Flow.antt =====
-- What a job does with its input and its output, under every interleaving.
use media_api.Base.{
  ◌≡◌, ◌⊎◌, inl, refl, subst, ap, true, false, some, List, [], ◌∷◌, ◌++◌, Bytes, ok, err,
  append_assoc, append-nil, arith,
}
use mathlib.Core.Option.{some-injective}
use media_api.Soundkit.{
  DecodeOptions, AudioOps, item, Receive, received, finished, Send, sent, refused, Pipeline,
}
use media_api.Pool.Worker.{
  Decoded, Pc, reading, sending, draining, delivering, finishing, done, aborted, Local, Job,
  new_job, read_input, on_push, tally, take_result, on_try_recv, on_recv, deliver, step_worker,
  process_job, ClientSend, took, gone, waits, send, receive_from, try_recv, leave, on_drop,
  drop_decoder, Step, works, sends, receives, drops, Reach, here, next,
}
use media_api.Pool.Worker.Chunks.{chunk_in_hand, OnlyData, Reach-OnlyData}

module _ {a : AudioOps} (k : Pipeline a) where
  -- The result that the thread holds.
  abbrev pub result_in_hand : Pc k → List (Decoded k)
  result_in_hand (delivering final r) = r ∷ []
  result_in_hand _ = []

  -- Before the end of the input; behind an empty chunk; behind the client's end.
  abbrev pub InFlow : Job k → Type 0
  InFlow j =
      ((j.worker.input_done ≡ false)
        × (j.was_sent ≡ j.was_taken ++ (chunk_in_hand k j.worker.pc ++ j.input)))
      ⊎ (((j.worker.input_done ≡ true)
            × (chunk_in_hand k j.worker.pc ≡ [])
            × (j.was_sent ≡ j.was_taken ++ [] ∷ j.input))
          ⊎ ((j.worker.input_done ≡ true)
              × (chunk_in_hand k j.worker.pc ≡ [])
              × (j.client ≡ false)
              × (j.input ≡ [])
              × (j.was_sent ≡ j.was_taken)))

  read_input-InFlow :
      (input : List Bytes) (j : Job k)
      → j.worker.pc ≡ reading
      → j.input ≡ input
      → j.worker.input_done ≡ false
      → InFlow j
      → InFlow (read_input k input j)
  unfolding read_input
  read_input-InFlow [] j at e going v = ground (arith, append-nil j.was_taken)
  read_input-InFlow ([] ∷ rest) j at e going v = ground arith
  read_input-InFlow ((b ∷ chunk) ∷ rest) j at e going v = ground arith

  on_push-InFlow :
      (chunk : Bytes) (j : Job k) (r : Send k.Handle)
      → j.worker.pc ≡ sending chunk
      → InFlow j
      → InFlow (on_push k chunk j r)
  unfolding on_push
  on_push-InFlow chunk j (sent h) at v =
      ground (arith, append_assoc j.was_taken (chunk ∷ []) j.input)
  on_push-InFlow chunk j (refused e h) at v = ground arith

  -- The steps that leave the input alone.
  keep-InFlow :
      (j j' : Job k)
      → chunk_in_hand k j.worker.pc ≡ []
      → chunk_in_hand k j'.worker.pc ≡ []
      → j'.worker.input_done ≡ j.worker.input_done
      → j'.was_sent ≡ j.was_sent
      → j'.was_taken ≡ j.was_taken
      → j'.client ≡ j.client
      → j'.input ≡ j.input
      → InFlow j
      → InFlow j'
  keep-InFlow j j' e1 e2 e3 e4 e5 e6 e7 v = ground arith

  tally-input_done : (r : Decoded k) (w : Local k) → (tally k r w).input_done ≡ w.input_done
  tally-input_done (ok audio) w = refl
  tally-input_done (err e) w = refl

  on_try_recv-InFlow :
      (j : Job k) (r : Receive a.Audio k.Handle)
      → j.worker.pc ≡ draining
      → InFlow j
      → InFlow (on_try_recv k j r)
  unfolding on_try_recv
  on_try_recv-InFlow j (received r h) at v =
      keep-InFlow j (take_result k false r h j) (ap (chunk_in_hand k) at) refl
        (tally-input_done r j.worker) refl refl refl refl v
  on_try_recv-InFlow j (finished h) at v = ground arith

  on_recv-InFlow :
      (j : Job k) (r : Receive a.Audio k.Handle)
      → j.worker.pc ≡ finishing
      → InFlow j
      → InFlow (on_recv k j r)
  unfolding on_recv
  on_recv-InFlow j (received r h) at v =
      keep-InFlow j (take_result k true r h j) (ap (chunk_in_hand k) at) refl
        (tally-input_done r j.worker) refl refl refl refl v
  on_recv-InFlow j (finished h) at v = ground arith

  step_worker-InFlow :
      (pc : Pc k) (j : Job k) → j.worker.pc ≡ pc → InFlow j → InFlow (step_worker k pc j)
  unfolding step_worker
  step_worker-InFlow reading j at v = ground (arith, read_input-InFlow j.input j at refl)
  step_worker-InFlow (sending chunk) j at v = on_push-InFlow chunk j _ at v
  step_worker-InFlow draining j at v = on_try_recv-InFlow j _ at v
  step_worker-InFlow (delivering final r) j at v = unfold deliver in ground arith
  step_worker-InFlow finishing j at v = on_recv-InFlow j _ at v
  step_worker-InFlow done j at v = v
  step_worker-InFlow aborted j at v = v

  send-InFlow :
      (chunk : Bytes) (j j' : Job k)
      → j.client ≡ true
      → send k chunk j ≡ took j'
      → InFlow j
      → InFlow j'
  unfolding send
  send-InFlow chunk j j' alive e v = ground (
    arith,
    append_assoc j.was_taken (chunk_in_hand k j.worker.pc ++ j.input) (chunk ∷ []),
    append_assoc (chunk_in_hand k j.worker.pc) j.input (chunk ∷ []),
    append_assoc j.was_taken ([] ∷ j.input) (chunk ∷ []),
  )

  receive_from-InFlow :
      (rs : List (Decoded k)) (j j' : Job k) (r : Decoded k)
      → receive_from k rs j ≡ item r j'
      → InFlow j
      → InFlow j'
  unfolding receive_from
  receive_from-InFlow [] j j' r e v = ground arith
  receive_from-InFlow (x ∷ rs) j j' r e v = ground arith

  leave-InFlow : (j : Job k) → InFlow j → InFlow (leave k j)
  leave-InFlow j v = ground arith

  on_drop-InFlow :
      (j j' : Job k) (r : ClientSend k)
      → j.client ≡ true
      → send k [] j ≡ r
      → on_drop k j r ≡ some j'
      → InFlow j
      → InFlow j'
  unfolding on_drop
  on_drop-InFlow j j' (took i) alive e f v =
      subst InFlow (some-injective _ _ f) (leave-InFlow i (send-InFlow [] j i alive e v))
  on_drop-InFlow j j' (gone x) alive e f v = subst InFlow (some-injective _ _ f) (leave-InFlow j v)
  on_drop-InFlow j j' waits alive e f v = cc

  Step-InFlow : {j j' : Job k} → Step k j j' → InFlow j → InFlow j'
  unfolding process_job try_recv drop_decoder
  Step-InFlow {j} works v = step_worker-InFlow j.worker.pc j refl v
  Step-InFlow {j} {j'} (sends chunk alive e) v = send-InFlow chunk j j' alive e v
  Step-InFlow {j} {j'} (receives r alive e) v = receive_from-InFlow j.output j j' r e v
  Step-InFlow {j} {j'} (drops alive e) v = on_drop-InFlow j j' (send k [] j) alive refl e v

  Reach-InFlow : {options : DecodeOptions} {j : Job k} → Reach k options j → InFlow j
  unfolding new_job
  Reach-InFlow here = inl (refl, refl)
  Reach-InFlow (next r st) = Step-InFlow st (Reach-InFlow r)

-- No input is lost, repeated or reordered, however thread and client interleave: until the end of
-- the input, the chunks that the client sent are those that the pipeline took, the one in the thread's
-- hand and those in the channel; afterwards, what the pipeline took is all that was sent before the
-- first empty chunk, or all that was sent at all if the client went without one. An empty chunk is never
-- taken, nor held.
pub Reach-input :
    {a : AudioOps} (k : Pipeline a) {options : DecodeOptions} {j : Job k}
    → Reach k options j
    → InFlow k j × OnlyData k j
Reach-input k r = (Reach-InFlow k r, Reach-OnlyData k r)
