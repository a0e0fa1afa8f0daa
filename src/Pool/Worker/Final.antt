-- ===== src/Pool/Worker/Final.antt =====
-- The thread's final drain begins behind the end of the input.
use media_api.Base.{
  ◌≡◌, refl, sym, ap, ◌∙◌, Bool, true, false, List, [], ◌∷◌, Bytes, ok, err, some, arith,
}
use media_api.Soundkit.{
  DecodeOptions, AudioOps, Receive, received, finished, Send, sent, refused, Pipeline, item,
}
use media_api.Pool.Worker.{
  Decoded, Pc, reading, sending, draining, delivering, finishing, done, aborted, Job, new_job,
  read_input, on_push, on_try_recv, on_recv, deliver, step_worker, process_job, send, receive_from,
  try_recv, on_drop, drop_decoder, ClientSend, took, gone, waits, Step, works, sends, receives,
  drops, Reach, here, next,
}

module _ {a : AudioOps} (k : Pipeline a) where
  -- The final drain begins behind the end of the input.
  abbrev pub is_final : Pc k → Bool
  is_final finishing = true
  is_final (delivering final r) = final
  is_final _ = false

  abbrev pub IsFinal : Job k → Type 0
  IsFinal j = is_final j.worker.pc ≡ true → j.worker.input_done ≡ true

  keep_IsFinal :
      (j j' : Job k)
      → j'.worker.pc ≡ j.worker.pc
      → j'.worker.input_done ≡ j.worker.input_done
      → IsFinal j
      → IsFinal j'
  keep_IsFinal j j' e q final at = q ∙ final (ap is_final (sym e) ∙ at)

  read_input-IsFinal : (input : List Bytes) (j : Job k) → IsFinal (read_input k input j)
  unfolding read_input
  read_input-IsFinal [] j = ground arith
  read_input-IsFinal ([] ∷ rest) j = ground arith
  read_input-IsFinal ((b ∷ chunk) ∷ rest) j = ground arith

  on_push-IsFinal :
      (chunk : Bytes) (j : Job k) (r : Send k.Handle)
      → j.worker.pc ≡ sending chunk
      → IsFinal (on_push k chunk j r)
  unfolding on_push
  on_push-IsFinal chunk j (sent h) at = ground arith
  on_push-IsFinal chunk j (refused x h) at = ground arith

  on_try_recv-IsFinal : (j : Job k) (r : Receive a.Audio k.Handle) → IsFinal (on_try_recv k j r)
  unfolding on_try_recv
  on_try_recv-IsFinal j (received r h) = ground arith
  on_try_recv-IsFinal j (finished h) = ground arith

  on_recv-IsFinal :
      (j : Job k) (r : Receive a.Audio k.Handle)
      → j.worker.input_done ≡ true
      → IsFinal (on_recv k j r)
  unfolding on_recv
  on_recv-IsFinal j (received (ok audio) h) over = ground arith
  on_recv-IsFinal j (received (err x) h) over = ground arith
  on_recv-IsFinal j (finished h) over = ground arith

  deliver-IsFinal :
      (last : Bool) (r : Decoded k) (j : Job k)
      → j.worker.pc ≡ delivering last r
      → IsFinal j
      → IsFinal (deliver k last r j)
  unfolding deliver
  deliver-IsFinal true r j at final = ground (arith, final (ap is_final at))
  deliver-IsFinal false r j at final = ground arith

  step_worker-IsFinal :
      (pc : Pc k) (j : Job k) → j.worker.pc ≡ pc → IsFinal j → IsFinal (step_worker k pc j)
  unfolding step_worker
  step_worker-IsFinal reading j at final = ground (arith, read_input-IsFinal j.input j)
  step_worker-IsFinal (sending chunk) j at final =
      on_push-IsFinal chunk j (k.send j.worker.pipeline chunk) at
  step_worker-IsFinal draining j at final = on_try_recv-IsFinal j (k.try_recv j.worker.pipeline)
  step_worker-IsFinal (delivering last r) j at final = deliver-IsFinal last r j at final
  step_worker-IsFinal finishing j at final =
      on_recv-IsFinal j (k.recv j.worker.pipeline) (final (ap is_final at))
  step_worker-IsFinal done j at final = final
  step_worker-IsFinal aborted j at final = final

  send-IsFinal : (chunk : Bytes) (j j' : Job k) → send k chunk j ≡ took j' → IsFinal j → IsFinal j'
  unfolding send
  send-IsFinal chunk j j' e final = keep_IsFinal j j' (ground arith) (ground arith) final

  receive_from-IsFinal :
      (output : List (Decoded k)) (j j' : Job k) (r : Decoded k)
      → receive_from k output j ≡ item r j'
      → IsFinal j
      → IsFinal j'
  unfolding receive_from
  receive_from-IsFinal [] j j' r e final = absurd (ground arith)
  receive_from-IsFinal (x ∷ rest) j j' r e final =
      keep_IsFinal j j' (ground arith) (ground arith) final

  on_drop-IsFinal :
      (j j' : Job k) (r : ClientSend k)
      → send k [] j ≡ r
      → on_drop k j r ≡ some j'
      → IsFinal j
      → IsFinal j'
  unfolding on_drop send
  on_drop-IsFinal j j' (took i) e q final = keep_IsFinal j j' (ground arith) (ground arith) final
  on_drop-IsFinal j j' (gone x) e q final = keep_IsFinal j j' (ground arith) (ground arith) final
  on_drop-IsFinal j j' waits e q final = absurd (ground arith)

  Step-IsFinal : {j j' : Job k} → Step k j j' → IsFinal j → IsFinal j'
  unfolding process_job try_recv drop_decoder
  Step-IsFinal {j} works final = step_worker-IsFinal j.worker.pc j refl final
  Step-IsFinal {j} {j'} (sends chunk there e) final = send-IsFinal chunk j j' e final
  Step-IsFinal {j} {j'} (receives r there e) final = receive_from-IsFinal j.output j j' r e final
  Step-IsFinal {j} {j'} (drops there e) final = on_drop-IsFinal j j' (send k [] j) refl e final

  pub Reach-IsFinal : {options : DecodeOptions} {j : Job k} → Reach k options j → IsFinal j
  unfolding new_job
  Reach-IsFinal here = λ e. cc
  Reach-IsFinal (next r st) = Step-IsFinal st (Reach-IsFinal r)
