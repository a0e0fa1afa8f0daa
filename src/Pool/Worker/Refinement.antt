-- ===== src/Pool/Worker/Refinement.antt =====
-- The thread, its loops and its two bounded channels do what `Pipe` says.
use media_api.Base.{
  ◌≡◌, ◌⊎◌, inl, inr, refl, subst, sym, ap, Bool, true, false, List, [], ◌∷◌, ◌++◌, All,
  append_assoc, append-nil, Bytes, some, if◌then◌else◌, arith,
}
use media_api.Soundkit.{
  DecodeOptions, AudioOps, Receive, received, finished, Send, sent, refused, Pipeline, item,
}
use media_api.Pool.Worker
use media_api.Pool.Worker.{
  Decoded, Pc, reading, sending, draining, delivering, finishing, done, aborted, Job, new_job,
  read_input, on_push, on_try_recv, on_recv, deliver, step_worker, process_job, send, receive_from,
  try_recv, on_drop, drop_decoder, ClientSend, took, gone, waits, Step, works, sends, drops, Reach,
  channel_size, has_ended, goto, end_input,
}
use media_api.Pool.Worker.Final.{is_final, IsFinal, Reach-IsFinal}
use media_api.Pool.Worker.Chunks.{chunk_in_hand, OnlyData, IsData}
use media_api.Pool.Worker.Flow.{InFlow, Reach-input, result_in_hand}
use media_api.Pool.Pipe.{
  Pipe, fresh, PipeStep, submits, takes, refuses, ends, ends_alone, gives, has_none, gives_last,
  finishes, leaves, leaves_with_end, PipeReach,
}
use media_api.Pool.Pipe

module _ {a : AudioOps} (k : Pipeline a) where
  -- What a job is as a `Pipe`: what the thread holds belongs to the queues.
  abbrev pub pipe_of : Job k → Pipe k
  pipe_of j = record {
    inbox = chunk_in_hand k j.worker.pc ++ j.input;
    handle = j.worker.pipeline;
    ended = j.worker.input_done;
    outbox = if j.client then j.output ++ result_in_hand k j.worker.pc else [];
    client = j.client;
    was_sent = j.was_sent;
    was_received = j.was_received;
  }

  -- A step of the job is a step of the pipe, or none.
  abbrev Refines : Job k → Job k → Type 0
  Refines j j' = (pipe_of j' ≡ pipe_of j) ⊎ PipeStep k (pipe_of j) (pipe_of j')

  by_step : (j j' : Job k) (s : Pipe k) → PipeStep k (pipe_of j) s → pipe_of j' ≡ s → Refines j j'
  by_step j j' s st e = inr (subst (PipeStep k (pipe_of j)) (sym e) st)

  if-Refines :
      (j : Job k) (b : Bool) (x y : Job k)
      → (b ≡ true → Refines j x)
      → (b ≡ false → Refines j y)
      → Refines j (if b then x else y)
  if-Refines j true x y h h' = h refl
  if-Refines j false x y h h' = h' refl

  read_input-Refines :
      (input : List Bytes) (j : Job k)
      → j.worker.pc ≡ reading
      → j.input ≡ input
      → j.worker.input_done ≡ false
      → Refines j (read_input k input j)
  unfolding read_input
  read_input-Refines [] j at e going =
      if-Refines j j.client (goto k draining j) (end_input k j) (λ there. inl (ground arith))
        (λ left. by_step j (end_input k j) _ (ends_alone going (ground arith) left) (ground arith))
  read_input-Refines ([] ∷ rest) j at e going =
      by_step j (read_input k ([] ∷ rest) j) _ (ends rest going (ground arith)) (ground arith)
  read_input-Refines ((b ∷ chunk) ∷ rest) j at e going = inl (ground arith)

  on_push-Refines :
      (chunk : Bytes) (j : Job k) (r : Send k.Handle)
      → j.worker.pc ≡ sending chunk
      → j.worker.input_done ≡ false
      → IsData k chunk
      → k.send j.worker.pipeline chunk ≡ r
      → Refines j (on_push k chunk j r)
  unfolding on_push
  on_push-Refines chunk j (sent h) at going filled e =
      by_step j (on_push k chunk j (sent h)) _ (takes chunk j.input h going filled (ground arith) e)
        (ground arith)
  on_push-Refines chunk j (refused x h) at going filled e =
      by_step j (on_push k chunk j (refused x h)) _
        (refuses chunk j.input x h going filled (ground arith) e) (ground arith)

  on_try_recv-Refines :
      (j : Job k) (r : Receive a.Audio k.Handle)
      → j.worker.pc ≡ draining
      → k.try_recv j.worker.pipeline ≡ r
      → Refines j (on_try_recv k j r)
  unfolding on_try_recv
  on_try_recv-Refines j (received r h) at e =
      by_step j (on_try_recv k j (received r h)) _ (gives r h e)
        (ground (arith, append-nil j.output))
  on_try_recv-Refines j (finished h) at e =
      by_step j (on_try_recv k j (finished h)) _ (has_none h e) (ground arith)

  on_recv-Refines :
      (j : Job k) (r : Receive a.Audio k.Handle)
      → j.worker.pc ≡ finishing
      → j.worker.input_done ≡ true
      → k.recv j.worker.pipeline ≡ r
      → Refines j (on_recv k j r)
  unfolding on_recv
  on_recv-Refines j (received r h) at over e =
      by_step j (on_recv k j (received r h)) _ (gives_last r h over e)
        (ground (arith, append-nil j.output))
  on_recv-Refines j (finished h) at over e =
      by_step j (on_recv k j (finished h)) _ (finishes h over e) (ground arith)

  deliver-Refines :
      (final : Bool) (r : Decoded k) (j : Job k)
      → j.worker.pc ≡ delivering final r
      → Refines j (deliver k final r j)
  unfolding deliver
  deliver-Refines final r j at = inl (ground (arith, append-nil (j.output ++ r ∷ [])))

  -- A chunk in the thread's hand is before the end of the input.
  sending-going :
      (chunk : Bytes) (j : Job k)
      → j.worker.pc ≡ sending chunk
      → InFlow k j
      → j.worker.input_done ≡ false
  sending-going chunk j at v = ground arith

  sending-IsData :
      (chunk : Bytes) (j : Job k) → j.worker.pc ≡ sending chunk → OnlyData k j → IsData k chunk
  sending-IsData chunk j at (taken, held) =
      (subst (All (IsData k)) (ap (chunk_in_hand k) at) held).0

  step_worker-Refines :
      (pc : Pc k) (j : Job k)
      → j.worker.pc ≡ pc
      → InFlow k j × OnlyData k j
      → IsFinal k j
      → Refines j (step_worker k pc j)
  unfolding step_worker
  step_worker-Refines reading j at flow final =
      if-Refines j j.worker.input_done (goto k draining j) (read_input k j.input j)
        (λ over. inl (ground arith)) (λ going. read_input-Refines j.input j at refl going)
  step_worker-Refines (sending chunk) j at flow final =
      on_push-Refines chunk j (k.send j.worker.pipeline chunk) at (sending-going chunk j at flow.0)
        (sending-IsData chunk j at flow.1) refl
  step_worker-Refines draining j at flow final =
      on_try_recv-Refines j (k.try_recv j.worker.pipeline) at refl
  step_worker-Refines (delivering last r) j at flow final = deliver-Refines last r j at
  step_worker-Refines finishing j at flow final =
      on_recv-Refines j (k.recv j.worker.pipeline) at (final (ap (is_final k) at)) refl
  step_worker-Refines done j at flow final = inl refl
  step_worker-Refines aborted j at flow final = inl refl

  send-Refines :
      (chunk : Bytes) (j j' : Job k) → j.client ≡ true → send k chunk j ≡ took j' → Refines j j'
  unfolding send
  send-Refines chunk j j' there e =
      by_step j j' _ (submits chunk there)
        (ground (arith, append_assoc (chunk_in_hand k j.worker.pc) j.input (chunk ∷ [])))

  receive_from-Refines :
      (output : List (Decoded k)) (j j' : Job k) (r : Decoded k)
      → j.output ≡ output
      → j.client ≡ true
      → receive_from k output j ≡ item r j'
      → Refines j j'
  unfolding receive_from
  receive_from-Refines [] j j' r at there e = absurd (ground arith)
  receive_from-Refines (x ∷ rest) j j' r at there e =
      by_step j j' _ (Pipe.receives x (rest ++ result_in_hand k j.worker.pc) (ground arith))
        (ground arith)

  on_drop-Refines :
      (j j' : Job k) (r : ClientSend k)
      → j.client ≡ true
      → send k [] j ≡ r
      → on_drop k j r ≡ some j'
      → Refines j j'
  unfolding on_drop send
  on_drop-Refines j j' (took i) there e q =
      by_step j j' _ (leaves_with_end there)
        (ground (arith, append_assoc (chunk_in_hand k j.worker.pc) j.input ([] ∷ [])))
  on_drop-Refines j j' (gone x) there e q = by_step j j' _ (leaves there) (ground arith)
  on_drop-Refines j j' waits there e q = absurd (ground arith)

  Step-Refines :
      {j j' : Job k} → InFlow k j × OnlyData k j → IsFinal k j → Step k j j' → Refines j j'
  unfolding process_job try_recv drop_decoder
  Step-Refines {j} flow final works = step_worker-Refines j.worker.pc j refl flow final
  Step-Refines {j} {j'} flow final (sends chunk there e) = send-Refines chunk j j' there e
  Step-Refines {j} {j'} flow final (Worker.receives r there e) =
      receive_from-Refines j.output j j' r refl there e
  Step-Refines {j} {j'} flow final (drops there e) = on_drop-Refines j j' (send k [] j) there refl e

  follow :
      {options : DecodeOptions} (j j' : Job k)
      → PipeReach k options (pipe_of j)
      → Refines j j'
      → PipeReach k options (pipe_of j')
  follow {options} j j' r (inl e) = subst (PipeReach k options) (sym e) r
  follow j j' r (inr st) = PipeReach.next r st

-- Every history of a job is one of the pipe: its chunks in and its results out, as the client sends
-- and receives them, are those of two unbounded first-in first-out queues around the pipeline, into which
-- no empty chunk is sent but at the end of the input, and nothing behind that; the thread, its loops and the bounded channels do
-- not show.
pub Reach-PipeReach :
    {a : AudioOps} (k : Pipeline a) {options : DecodeOptions} {j : Job k}
    → Reach k options j
    → PipeReach k options (pipe_of k j)
unfolding new_job
Reach-PipeReach k Worker.here = PipeReach.here
Reach-PipeReach k (Worker.next {i} {j} r st) =
    follow k i j (Reach-PipeReach k r) (Step-Refines k (Reach-input k r) (Reach-IsFinal k r) st)
