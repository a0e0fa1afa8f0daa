-- ===== src/Pool/Worker/Deadlock.antt =====
-- When a client that waits in `send` and the thread wait for each other.
use media_api.Base.{
  ℕ, ◌≤◌, ◌<◌, ◌≡◌, ◌≢◌, ◌⊎◌, ◌↔◌, inl, inr, refl, ap, sym, subst, ◌∙◌, Bool, true, false, none,
  some, List, [], ◌∷◌, ◌++◌, Bytes, length, ltb, if◌then◌else◌, arith,
}
use media_api.Soundkit.{
  AudioOps, DecodeOptions, Receive, received, finished, Send, sent, refused, Pipeline, item,
}
use media_api.Pool.Worker.{
  channel_size, Decoded, Pc, reading, sending, draining, delivering, finishing, done, aborted, Job,
  goto, read_input, on_push, on_try_recv, on_recv, deliver, step_worker, process_job, has_ended,
  took, waits, send, on_drop, drop_decoder, Reach, Step, works, sends, receives, drops, try_recv,
}
use media_api.Pool.Worker.Accounts.{Reach-Accounted}

module _ {a : AudioOps} (k : Pipeline a) where
  -- A number for each kind of place in `process_job`.
  abbrev place : Pc k → ℕ
  place reading = 0
  place (sending chunk) = 1
  place draining = 2
  place (delivering final r) = 3
  place finishing = 4
  place done = 5
  place aborted = 6

  -- The thread holds a result, and there is no room for it.
  abbrev pub Full : Job k → Type 0
  Full j =
      (final : Bool) × (r : Decoded k) × (j.worker.pc ≡ delivering final r)
      × (length j.output ≡ channel_size)

  -- The thread holds a chunk that the pipeline refuses, and stays as it is.
  abbrev pub Refused : Job k → Type 0
  Refused j =
      (chunk : Bytes) × (e : Bytes) × (j.worker.pc ≡ sending chunk)
      × (k.send j.worker.pipeline chunk ≡ refused e j.worker.pipeline)

  send-waits :
      (chunk : Bytes) (j : Job k)
      → send k chunk j ≡ waits
      → (has_ended k j.worker.pc ≡ false) × (channel_size ≤ length j.input)
  unfolding send
  send-waits chunk j e = ground arith

  moved : (j j' : Job k) (m n : ℕ) → place j'.worker.pc ≡ m → place j.worker.pc ≡ n → m ≢ n → j' ≢ j
  moved j j' m n p q ne e = ne (sym p ∙ (ap (λ i. place i.worker.pc) e ∙ q))

  -- A test that leaves things as they are has failed, if passing it would not.
  test_failed : (b : Bool) (x j : Job k) → x ≢ j → (if b then x else j) ≡ j → b ≡ false
  test_failed true x j ne e = absurd (ne e)
  test_failed false x j ne e = refl

  read_input-moves : (input : List Bytes) (j : Job k) → 0 < place (read_input k input j).worker.pc
  unfolding read_input
  read_input-moves [] j = ground arith
  read_input-moves ([] ∷ rest) j = omega arith
  read_input-moves ((b ∷ chunk) ∷ rest) j = omega arith

  reading-moves :
      (b : Bool) (j : Job k)
      → 0 < place (if b then goto k draining j else read_input k j.input j).worker.pc
  reading-moves true j = omega arith
  reading-moves false j = read_input-moves j.input j

  on_push-same :
      (chunk : Bytes) (j : Job k) (r : Send k.Handle)
      → k.send j.worker.pipeline chunk ≡ r
      → j.worker.pc ≡ sending chunk
      → on_push k chunk j r ≡ j
      → Refused j
  unfolding on_push
  on_push-same chunk j (sent h) q at e =
      absurd (moved j _ 2 1 refl (ap place at) (λ x. omega arith) e)
  on_push-same chunk j (refused x h) q at e =
      (chunk, x, at, q ∙ ap (refused x) (ap (λ i. i.worker.pipeline) e))

  on_try_recv-moves :
      (j : Job k) (r : Receive a.Audio k.Handle) → place (on_try_recv k j r).worker.pc ≢ 2
  unfolding on_try_recv
  on_try_recv-moves j (received r h) = λ e. omega arith
  on_try_recv-moves j (finished h) = λ e. ground arith

  on_recv-moves : (j : Job k) (r : Receive a.Audio k.Handle) → place (on_recv k j r).worker.pc ≢ 4
  unfolding on_recv
  on_recv-moves j (received r h) = λ e. omega arith
  on_recv-moves j (finished h) = λ e. omega arith

  -- The job behind a delivery, and its place.
  abbrev after_delivery : Bool → Decoded k → Job k → Job k
  after_delivery final r j = record j {
    worker = record j.worker { pc = if final then finishing else draining };
    output = j.output ++ r ∷ [];
  }

  delivery-moves : (final : Bool) → place (if final then finishing else draining) ≢ 3
  delivery-moves true = λ e. omega arith
  delivery-moves false = λ e. omega arith

  deliver-same :
      (final : Bool) (r : Decoded k) (j : Job k)
      → j.client ≡ true
      → j.worker.pc ≡ delivering final r
      → deliver k final r j ≡ j
      → ltb (length j.output) channel_size ≡ false
  unfolding deliver
  deliver-same final r j there at e =
      test_failed (ltb (length j.output) channel_size) (after_delivery final r j) j
        (moved j (after_delivery final r j) _ 3 refl (ap place at) (delivery-moves final))
        (subst
          (λ c.
            (if c
              then (if ltb (length j.output) channel_size then after_delivery final r j else j)
              else goto k aborted j)
            ≡ j)
          there e)

  on_off : true ≢ false
  on_off e = cc

  -- Where the thread does not move, and has not ended.
  stays :
      (pc : Pc k) (j : Job k)
      → j.worker.pc ≡ pc
      → j.client ≡ true
      → length j.output ≤ channel_size
      → has_ended k pc ≡ false
      → step_worker k pc j ≡ j
      → Full j ⊎ Refused j
  unfolding step_worker
  stays reading j at there room on e =
      absurd
        (moved j _ _ 0 refl (ap place at) (λ x. nonzero (reading-moves j.worker.input_done j) x) e)
    where
      nonzero : {n : ℕ} → 0 < n → n ≢ 0
      nonzero h q = omega arith
  stays (sending chunk) j at there room on e =
      inr (on_push-same chunk j (k.send j.worker.pipeline chunk) refl at e)
  stays draining j at there room on e =
      absurd
        (moved j _ _ 2 refl (ap place at) (on_try_recv-moves j (k.try_recv j.worker.pipeline)) e)
  stays (delivering final r) j at there room on e =
      inl (final, r, at, ground (arith, deliver-same final r j there at e))
  stays finishing j at there room on e =
      absurd (moved j _ _ 4 refl (ap place at) (on_recv-moves j (k.recv j.worker.pipeline)) e)
  stays done j at there room on e = absurd (on_off on)
  stays aborted j at there room on e = absurd (on_off on)

  stuck : (j : Job k) → j.client ≡ true → Full j ⊎ Refused j → process_job k j ≡ j
  unfolding process_job step_worker deliver on_push
  stuck j there (inl (final, r, at, full)) = rw at (rw there (rw no_room refl))
    where
      no_room : ltb (length j.output) channel_size ≡ false
      no_room = ground arith
  stuck j there (inr (chunk, e, at, q)) = rw at (rw q refl)

  -- Whether `send` waits does not depend on the chunk.
  send-waits_all :
      (chunk other : Bytes) (j : Job k) → send k chunk j ≡ waits → send k other j ≡ waits
  unfolding send
  send-waits_all chunk other j e = ground arith

  drop-waits : (chunk : Bytes) (j : Job k) → send k chunk j ≡ waits → drop_decoder k j ≡ none
  unfolding drop_decoder on_drop
  drop-waits chunk j e = ap (on_drop k j) (send-waits_all chunk [] j e)

  -- While `send` waits, a step is the thread's or a receive.
  only_receives :
      (chunk : Bytes) (j j' : Job k)
      → send k chunk j ≡ waits
      → Step k j j'
      → (j' ≡ process_job k j) ⊎ ((r : Decoded k) × (try_recv k j ≡ item r j'))
  only_receives chunk j _ e works = inl refl
  only_receives chunk j j' e (sends other there q) =
      absurd (not_took (sym (send-waits_all chunk other j e) ∙ q))
    where
      not_took : {i : Job k} → waits ≢ took i
      not_took p = cc
  only_receives chunk j j' e (receives r there q) = inr (r, q)
  only_receives chunk j j' e (drops there q) = absurd (not_some (sym (drop-waits chunk j e) ∙ q))
    where
      not_some : {i : Job k} → none ≢ some i
      not_some p = cc

-- While a client that still holds its decoder waits in `send`, in whatever state of a job, each step is one
-- of the thread or a receive, and the thread does not move exactly if it holds a result and the
-- channel of results is full, or it holds a chunk that the pipeline refuses without a change. In the
-- first case only a receive helps: the client in `send` and the thread wait for each other.
pub send_deadlock_iff :
    {a : AudioOps} (k : Pipeline a) {options : DecodeOptions} {j j' : Job k} (chunk : Bytes)
    → Reach k options j
    → j.client ≡ true
    → send k chunk j ≡ waits
    → Step k j j'
    → ((process_job k j ≡ j) ↔ (Full k j ⊎ Refused k j))
      × ((j' ≡ process_job k j) ⊎ ((r : Decoded k) × (try_recv k j ≡ item r j')))
unfolding process_job
send_deadlock_iff k {options} {j} {j'} chunk r there e step =
    let (on, full) = send-waits k chunk j e in
    (
      (stays k j.worker.pc j refl there (Reach-Accounted k r).output_room on, stuck k j there),
      only_receives k chunk j j' e step,
    )
