-- ===== src/Pool/Worker/Completion.antt =====
-- How a job ends: the final drain of the pipeline, with a client that receives.
use media_api.Base.{◌≡◌, refl, subst, sym, ◌∙◌, true, List, [], ◌∷◌, ◌++◌, append_assoc, append-nil}
use media_api.Soundkit.{AudioOps, received, finished, Pipeline}
use media_api.Pool.Worker.{
  Decoded, finishing, done, Job, goto, take_result, on_recv, deliver, step_worker, process_job,
  receive_from, try_recv, works, receives, Step,
}

-- What blocking receives get from a pipeline, up to its end.
pub data Gives {a : AudioOps} (k : Pipeline a) : k.Handle → List (Decoded k) → Type 0 where
  at_end : {h h' : k.Handle} → k.recv h ≡ finished h' → Gives k h []
  gives :
      {h h' : k.Handle} {r : Decoded k} {rs : List (Decoded k)}
      → k.recv h ≡ received r h'
      → Gives k h' rs
      → Gives k h (r ∷ rs)

-- The states that steps of the thread and its client lead to.
pub data Later {a : AudioOps} (k : Pipeline a) (start : Job k) : Job k → Type 0 where
  here : Later k start start
  next : {i j : Job k} → Later k start i → Step k i j → Later k start j

module _ {a : AudioOps} (k : Pipeline a) where
  -- The thread is in its final drain, and the client has received all there is.
  pub record Draining (j : Job k) : Type 0 where
    pub at_drain : j.worker.pc ≡ finishing
    pub client_waits : j.client ≡ true
    pub nothing_queued : j.output ≡ []

  -- One result from the pipeline to the client: two steps of the thread and a receive.
  abbrev passed : Decoded k → k.Handle → Job k → Job k
  passed r h j = record (goto k finishing (take_result k true r h j)) {
    output = [];
    was_received = j.was_received ++ r ∷ [];
  }

  abbrev queued : Decoded k → k.Handle → Job k → Job k
  queued r h j = record (goto k finishing (take_result k true r h j)) { output = r ∷ [] }

  take-step :
      (r : Decoded k) (h : k.Handle) (j : Job k)
      → Draining j
      → k.recv j.worker.pipeline ≡ received r h
      → process_job k j ≡ take_result k true r h j
  unfolding process_job step_worker on_recv
  take-step r h j d q = rw (d.at_drain, q) refl

  deliver-step :
      (r : Decoded k) (h : k.Handle) (j : Job k)
      → Draining j
      → process_job k (take_result k true r h j) ≡ queued r h j
  unfolding process_job step_worker deliver
  deliver-step r h j d = rw (d.client_waits, d.nothing_queued) refl

  pass-Later :
      {start : Job k} (r : Decoded k) (h : k.Handle) (j : Job k)
      → Draining j
      → k.recv j.worker.pipeline ≡ received r h
      → Later k start j
      → Later k start (passed r h j)
  unfolding try_recv receive_from
  pass-Later {start} r h j d q reach =
      let taken = subst (Later k start) (take-step r h j d q) (next reach works) in
      let sent = subst (Later k start) (deliver-step r h j d) (next taken works) in
      next sent (receives r d.client_waits refl)

  finish-Later :
      {start : Job k} (h : k.Handle) (j : Job k)
      → Draining j
      → k.recv j.worker.pipeline ≡ finished h
      → Later k start j
      → (j' : Job k) × Later k start j' × (j'.worker.pc ≡ done) × (j'.was_received ≡ j.was_received)
  unfolding process_job step_worker on_recv
  finish-Later h j d q reach =
      (process_job k j, next reach works, rw (d.at_drain, q) refl, rw (d.at_drain, q) refl)

drain_on :
    {a : AudioOps} (k : Pipeline a) {start : Job k} (rs : List (Decoded k)) (j : Job k)
    → Draining k j
    → Gives k j.worker.pipeline rs
    → Later k start j
    → (j' : Job k) × Later k start j'
      × (j'.worker.pc ≡ done)
      × (j'.was_received ≡ j.was_received ++ rs)
drain_on k [] j d (at_end {h' = h'} q) later =
    let (j', later', pc, same) = finish-Later k h' j d q later in
    (j', later', pc, same ∙ sym (append-nil j.was_received))
drain_on k (r ∷ rs) j d (gives {h' = h'} q more) later =
    let d' : Draining k (passed k r h' j) = record {
      at_drain = refl;
      client_waits = d.client_waits;
      nothing_queued = refl;
    } in
    let (j', later', pc, all) =
      drain_on k rs (passed k r h' j) d' more (pass-Later k r h' j d q later) in
    (j', later', pc, all ∙ append_assoc j.was_received (r ∷ []) rs)

-- A job in its final drain can come to its end: if the pipeline gives some results and then ends, then
-- from any state in which the thread drains it and the client waits, with no result on its way, steps
-- of the two lead to a state where the thread is done and the client has received exactly those
-- results more, in order.
pub Draining-done :
    {a : AudioOps} (k : Pipeline a) (rs : List (Decoded k)) (j : Job k)
    → Draining k j
    → Gives k j.worker.pipeline rs
    → (j' : Job k) × Later k j j' × (j'.worker.pc ≡ done) × (j'.was_received ≡ j.was_received ++ rs)
Draining-done k rs j d g = drain_on k rs j d g here
