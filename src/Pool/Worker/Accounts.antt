-- ===== src/Pool/Worker/Accounts.antt =====
-- The output of a job: its order, the bounds of the channels and the metrics.
use media_api.Base.{
  ℕ, ◌+◌, ◌≤◌, ◌≡◌, ◌⊎◌, inr, refl, subst, ap, Bool, true, false, some, List, [], ◌∷◌, ◌++◌, Bytes,
  ok, err, append_assoc, append-nil, length, length-append, arith,
}
use mathlib.Core.Option.{some-injective}
use media_api.Soundkit.{
  DecodeOptions, AudioOps, item, Receive, received, finished, Send, sent, refused, Pipeline,
}
use media_api.Pool.Worker.{
  channel_size, Decoded, Pc, reading, sending, draining, delivering, finishing, done, aborted, Job,
  new_job, read_input, on_push, take_result, on_try_recv, on_recv, deliver, step_worker,
  process_job, ClientSend, took, gone, waits, send, receive_from, try_recv, leave, on_drop,
  drop_decoder, Step, works, sends, receives, drops, Reach, here, next,
}
use media_api.Pool.Worker.Chunks.{chunk_in_hand}
use media_api.Pool.Worker.Flow.{result_in_hand}

module _ {a : AudioOps} (k : Pipeline a) where
  -- The bytes of all decoded audio in a list of results, and of all chunks.
  abbrev pub audio_bytes : List (Decoded k) → ℕ
  audio_bytes [] = 0
  audio_bytes (ok audio ∷ rs) = length (a.bytes audio) + audio_bytes rs
  audio_bytes (err e ∷ rs) = audio_bytes rs

  abbrev pub total_length : List Bytes → ℕ
  total_length [] = 0
  total_length (chunk ∷ chunks) = length chunk + total_length chunks

  audio_bytes-append :
      (rs ss : List (Decoded k)) → audio_bytes (rs ++ ss) ≡ audio_bytes rs + audio_bytes ss
  audio_bytes-append [] ss = omega arith
  audio_bytes-append (ok audio ∷ rs) ss = omega (arith, audio_bytes-append rs ss)
  audio_bytes-append (err e ∷ rs) ss = audio_bytes-append rs ss

  total_length-append :
      (xs ys : List Bytes) → total_length (xs ++ ys) ≡ total_length xs + total_length ys
  total_length-append [] ys = omega arith
  total_length-append (x ∷ xs) ys = omega (arith, total_length-append xs ys)

  pub record Accounted (j : Job k) : Type 0 where
    -- while the client is there, each result is with it, in the channel or in the thread's hand
    pub delivered :
        (j.client ≡ false)
        ⊎ (j.was_decoded ≡ j.was_received ++ (j.output ++ result_in_hand k j.worker.pc))
    pub input_room : length j.input ≤ channel_size
    pub output_room : length j.output ≤ channel_size
    pub output_counted : j.worker.output_bytes ≡ audio_bytes j.was_decoded
    pub input_counted :
        j.worker.input_bytes ≡ total_length j.was_taken + total_length (chunk_in_hand k j.worker.pc)

  read_input-Accounted :
      (input : List Bytes) (j : Job k)
      → j.worker.pc ≡ reading
      → j.input ≡ input
      → Accounted j
      → Accounted (read_input k input j)
  unfolding read_input
  read_input-Accounted [] j at e v = ground arith
  read_input-Accounted ([] ∷ rest) j at e v = ground arith
  read_input-Accounted ((b ∷ chunk) ∷ rest) j at e v = ground arith

  on_push-Accounted :
      (chunk : Bytes) (j : Job k) (r : Send k.Handle)
      → j.worker.pc ≡ sending chunk
      → Accounted j
      → Accounted (on_push k chunk j r)
  unfolding on_push
  on_push-Accounted chunk j (sent h) at v =
      ground (arith, total_length-append j.was_taken (chunk ∷ []))
  on_push-Accounted chunk j (refused e h) at v = ground arith

  take_result-Accounted :
      (final : Bool) (r : Decoded k) (h : k.Handle) (j : Job k)
      → result_in_hand k j.worker.pc ≡ []
      → chunk_in_hand k j.worker.pc ≡ []
      → Accounted j
      → Accounted (take_result k final r h j)
  take_result-Accounted final (ok audio) h j e f v = ground (
    arith,
    audio_bytes-append j.was_decoded (ok audio ∷ []),
    append-nil j.output,
    append_assoc j.was_received j.output (ok audio ∷ []),
  )
  take_result-Accounted final (err x) h j e f v = ground (
    arith,
    audio_bytes-append j.was_decoded (err x ∷ []),
    append-nil j.output,
    append_assoc j.was_received j.output (err x ∷ []),
  )

  on_try_recv-Accounted :
      (j : Job k) (r : Receive a.Audio k.Handle)
      → j.worker.pc ≡ draining
      → Accounted j
      → Accounted (on_try_recv k j r)
  unfolding on_try_recv
  on_try_recv-Accounted j (received r h) at v =
      take_result-Accounted false r h j (ap (result_in_hand k) at) (ap (chunk_in_hand k) at) v
  on_try_recv-Accounted j (finished h) at v = ground arith

  on_recv-Accounted :
      (j : Job k) (r : Receive a.Audio k.Handle)
      → j.worker.pc ≡ finishing
      → Accounted j
      → Accounted (on_recv k j r)
  unfolding on_recv
  on_recv-Accounted j (received r h) at v =
      take_result-Accounted true r h j (ap (result_in_hand k) at) (ap (chunk_in_hand k) at) v
  on_recv-Accounted j (finished h) at v = ground arith

  deliver-Accounted :
      (final : Bool) (r : Decoded k) (j : Job k)
      → j.worker.pc ≡ delivering final r
      → Accounted j
      → Accounted (deliver k final r j)
  unfolding deliver
  deliver-Accounted final r j at v =
      ground (arith, append-nil (j.output ++ r ∷ []), length-append {0} j.output (r ∷ []))

  step_worker-Accounted :
      (pc : Pc k) (j : Job k) → j.worker.pc ≡ pc → Accounted j → Accounted (step_worker k pc j)
  unfolding step_worker
  step_worker-Accounted reading j at v = ground (arith, read_input-Accounted j.input j at refl)
  step_worker-Accounted (sending chunk) j at v = on_push-Accounted chunk j _ at v
  step_worker-Accounted draining j at v = on_try_recv-Accounted j _ at v
  step_worker-Accounted (delivering final r) j at v = deliver-Accounted final r j at v
  step_worker-Accounted finishing j at v = on_recv-Accounted j _ at v
  step_worker-Accounted done j at v = v
  step_worker-Accounted aborted j at v = v

  send-Accounted :
      (chunk : Bytes) (j j' : Job k) → send k chunk j ≡ took j' → Accounted j → Accounted j'
  unfolding send
  send-Accounted chunk j j' e v = ground (arith, length-append {0} j.input (chunk ∷ []))

  receive_from-Accounted :
      (rs : List (Decoded k)) (j j' : Job k) (r : Decoded k)
      → j.output ≡ rs
      → receive_from k rs j ≡ item r j'
      → Accounted j
      → Accounted j'
  unfolding receive_from
  receive_from-Accounted [] j j' r o e v = ground arith
  receive_from-Accounted (x ∷ rs) j j' r o e v =
      ground (arith, append_assoc j.was_received (x ∷ []) (rs ++ result_in_hand k j.worker.pc))

  leave-Accounted : (j : Job k) → Accounted j → Accounted (leave k j)
  leave-Accounted j v = ground arith

  on_drop-Accounted :
      (j j' : Job k) (r : ClientSend k)
      → send k [] j ≡ r
      → on_drop k j r ≡ some j'
      → Accounted j
      → Accounted j'
  unfolding on_drop
  on_drop-Accounted j j' (took i) e f v =
      subst Accounted (some-injective _ _ f) (leave-Accounted i (send-Accounted [] j i e v))
  on_drop-Accounted j j' (gone x) e f v =
      subst Accounted (some-injective _ _ f) (leave-Accounted j v)
  on_drop-Accounted j j' waits e f v = cc

  Step-Accounted : {j j' : Job k} → Step k j j' → Accounted j → Accounted j'
  unfolding process_job try_recv drop_decoder
  Step-Accounted {j} works v = step_worker-Accounted j.worker.pc j refl v
  Step-Accounted {j} {j'} (sends chunk alive e) v = send-Accounted chunk j j' e v
  Step-Accounted {j} {j'} (receives r alive e) v = receive_from-Accounted j.output j j' r refl e v
  Step-Accounted {j} {j'} (drops alive e) v = on_drop-Accounted j j' (send k [] j) refl e v

-- However thread and client interleave: as long as the client holds the decoder, the results that came
-- out of the pipeline are those that it received, those in the channel and the one in the thread's hand,
-- in order; neither channel holds more than 32 entries; and the two byte counts of the metrics are those
-- of the chunks read and of the audio decoded.
pub Reach-Accounted :
    {a : AudioOps} (k : Pipeline a) {options : DecodeOptions} {j : Job k}
    → Reach k options j
    → Accounted k j
unfolding new_job
Reach-Accounted k here = record {
  delivered = inr refl;
  input_room = omega arith;
  output_room = omega arith;
  output_counted = refl;
  input_counted = refl;
}
Reach-Accounted k (next r st) = Step-Accounted k st (Reach-Accounted k r)
