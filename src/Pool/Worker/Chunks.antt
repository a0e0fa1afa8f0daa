-- ===== src/Pool/Worker/Chunks.antt =====
-- What the thread of a job takes for input: never an empty chunk, which ends the input.
use media_api.Base.{
  ◌≡◌, refl, subst, ap, Bool, true, false, some, List, [], ◌∷◌, Bytes, is_empty, All, if◌then◌else◌,
  All-append, arith,
}
use media_api.Soundkit.{
  DecodeOptions, AudioOps, item, Receive, received, finished, Send, sent, refused, Pipeline,
}
use media_api.Pool.Worker.{
  Decoded, Pc, reading, sending, draining, delivering, finishing, done, aborted, Job, new_job,
  read_input, on_push, on_try_recv, on_recv, deliver, step_worker, process_job, ClientSend, took,
  gone, waits, send, receive_from, try_recv, on_drop, drop_decoder, Step, works, sends, receives,
  drops, Reach, here, next,
}

module _ {a : AudioOps} (k : Pipeline a) where
  -- The chunk that the thread holds.
  abbrev pub chunk_in_hand : Pc k → List Bytes
  chunk_in_hand (sending chunk) = chunk ∷ []
  chunk_in_hand _ = []

  abbrev pub IsData : Bytes → Type 0
  IsData chunk = is_empty chunk ≡ false

  -- Neither what the pipeline took nor what the thread holds for it is empty.
  abbrev pub OnlyData : Job k → Type 0
  OnlyData j = All IsData j.was_taken × All IsData (chunk_in_hand j.worker.pc)

  -- A step that takes nothing, and leaves the hand as it is or empty.
  keep-OnlyData :
      (j j' : Job k)
      → j'.was_taken ≡ j.was_taken
      → chunk_in_hand j'.worker.pc ≡ chunk_in_hand j.worker.pc
      → OnlyData j
      → OnlyData j'
  keep-OnlyData j j' e e' (h, h') = (rw e h, rw e' h')

  lay-OnlyData :
      (j j' : Job k)
      → j'.was_taken ≡ j.was_taken
      → chunk_in_hand j'.worker.pc ≡ []
      → OnlyData j
      → OnlyData j'
  lay-OnlyData j j' e e' (h, h') = (rw e h, rw e' tt)

  read_input-OnlyData :
      (input : List Bytes) (j : Job k)
      → j.worker.pc ≡ reading
      → OnlyData j
      → OnlyData (read_input k input j)
  unfolding read_input
  read_input-OnlyData [] j at h = lay-OnlyData j (read_input k [] j) (ground arith) (ground arith) h
  read_input-OnlyData ([] ∷ rest) j at h = lay-OnlyData j (read_input k ([] ∷ rest) j) refl refl h
  read_input-OnlyData ((b ∷ chunk) ∷ rest) j at (h, h') = (h, (refl, tt))

  on_push-OnlyData :
      (chunk : Bytes) (j : Job k) (r : Send k.Handle)
      → j.worker.pc ≡ sending chunk
      → OnlyData j
      → OnlyData (on_push k chunk j r)
  unfolding on_push
  on_push-OnlyData chunk j (sent h) at (taken, held) = (
    All-append _ j.was_taken (chunk ∷ []) taken (subst (All IsData) (ap chunk_in_hand at) held),
    tt,
  )
  on_push-OnlyData chunk j (refused e h) at v = v

  on_try_recv-OnlyData :
      (j : Job k) (r : Receive a.Audio k.Handle) → OnlyData j → OnlyData (on_try_recv k j r)
  unfolding on_try_recv
  on_try_recv-OnlyData j (received r h) v = (v.0, tt)
  on_try_recv-OnlyData j (finished h) v =
      lay-OnlyData j (on_try_recv k j (finished h)) refl (ground arith) v

  on_recv-OnlyData :
      (j : Job k) (r : Receive a.Audio k.Handle) → OnlyData j → OnlyData (on_recv k j r)
  unfolding on_recv
  on_recv-OnlyData j (received r h) v = (v.0, tt)
  on_recv-OnlyData j (finished h) v = (v.0, tt)

  if-OnlyData : (b : Bool) (x y : Job k) → OnlyData x → OnlyData y → OnlyData (if b then x else y)
  if-OnlyData true x y h h' = h
  if-OnlyData false x y h h' = h'

  step_worker-OnlyData :
      (pc : Pc k) (j : Job k) → j.worker.pc ≡ pc → OnlyData j → OnlyData (step_worker k pc j)
  unfolding step_worker
  step_worker-OnlyData reading j at v =
      if-OnlyData j.worker.input_done _ _ (v.0, tt) (read_input-OnlyData j.input j at v)
  step_worker-OnlyData (sending chunk) j at v = on_push-OnlyData chunk j _ at v
  step_worker-OnlyData draining j at v = on_try_recv-OnlyData j (k.try_recv j.worker.pipeline) v
  step_worker-OnlyData (delivering final r) j at v =
      lay-OnlyData j (deliver k final r j) (unfold deliver in ground arith)
        (unfold deliver in ground arith) v
  step_worker-OnlyData finishing j at v = on_recv-OnlyData j (k.recv j.worker.pipeline) v
  step_worker-OnlyData done j at v = v
  step_worker-OnlyData aborted j at v = v

  send-same :
      (chunk : Bytes) (j j' : Job k)
      → send k chunk j ≡ took j'
      → (j'.was_taken ≡ j.was_taken) × (j'.worker ≡ j.worker)
  unfolding send
  send-same chunk j j' e = ground arith

  receive_from-same :
      (rs : List (Decoded k)) (j j' : Job k) (r : Decoded k)
      → receive_from k rs j ≡ item r j'
      → (j'.was_taken ≡ j.was_taken) × (j'.worker ≡ j.worker)
  unfolding receive_from
  receive_from-same [] j j' r e = absurd (ground arith)
  receive_from-same (x ∷ rs) j j' r e = ground arith

  on_drop-same :
      (j j' : Job k) (r : ClientSend k)
      → send k [] j ≡ r
      → on_drop k j r ≡ some j'
      → (j'.was_taken ≡ j.was_taken) × (j'.worker ≡ j.worker)
  unfolding on_drop
  on_drop-same j j' (took i) e f = ground (arith, send-same [] j i)
  on_drop-same j j' (gone x) e f = ground arith
  on_drop-same j j' waits e f = absurd cc

  same-OnlyData :
      (j j' : Job k)
      → (j'.was_taken ≡ j.was_taken) × (j'.worker ≡ j.worker)
      → OnlyData j
      → OnlyData j'
  same-OnlyData j j' (e, e') = keep-OnlyData j j' e (ap (λ w. chunk_in_hand w.pc) e')

  Step-OnlyData : {j j' : Job k} → Step k j j' → OnlyData j → OnlyData j'
  unfolding process_job try_recv drop_decoder
  Step-OnlyData {j} works v = step_worker-OnlyData j.worker.pc j refl v
  Step-OnlyData {j} {j'} (sends chunk alive e) v = same-OnlyData j j' (send-same chunk j j' e) v
  Step-OnlyData {j} {j'} (receives r alive e) v =
      same-OnlyData j j' (receive_from-same j.output j j' r e) v
  Step-OnlyData {j} {j'} (drops alive e) v =
      same-OnlyData j j' (on_drop-same j j' (send k [] j) refl e) v

  pub Reach-OnlyData : {options : DecodeOptions} {j : Job k} → Reach k options j → OnlyData j
  unfolding new_job
  Reach-OnlyData here = (tt, tt)
  Reach-OnlyData (next r st) = Step-OnlyData st (Reach-OnlyData r)
