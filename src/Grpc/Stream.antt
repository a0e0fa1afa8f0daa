-- ===== src/Grpc/Stream.antt =====
-- The task that `decode` of src/grpc.rs spawns for one request stream: its loop over the messages,
-- with `drain_decoder_sync`. When the task stops early its decoder is dropped with it, unlogged.
pub mod Owed
pub mod Responses
pub mod Payloads
pub mod Forward
pub mod Total
pub mod Asked
use media_api.Base.{
  ℕ, zero, suc, ◌+◌, ◌*◌, Bool, true, false, ◌||◌, Option, none, some, List, [], ◌∷◌, ◌++◌, Bytes,
  Result, ok, err, is_empty, ltb, if◌then◌else◌,
}
use media_api.Soundkit.{
  DecodeOptions, AudioOps, Poll, item, pending, closed, Send, sent, refused, Decoders,
}
use media_api.Effects.{Run, ret, fail, ◌>>=◌, ◌>>◌}
use media_api.Grpc.Options.{OptionsMessage, DecodeRequest, merge_options}

-- What the task sends to the client: `PcmData`, or the status `resource_exhausted`.
pub data Response : Type 0 where
  pcm_data : Bytes → Response
  resource_exhausted : Bytes → Response

-- How the messages end: the client is done, the stream fails, or the service shuts down.
pub data Ending : Type 0 where
  stream_end stream_error cancelled : Ending

-- Why the task stops before its end.
pub data Stop : Type 0 where
  client_gone no_decoder shutdown : Stop
  -- a loop of the model used up its fuel
  out_of_fuel : Stop

-- `client_takes` says whether a response gets through after those sent before.
module _ (a : AudioOps) (p : Decoders a) (client_takes : List Response → Bool) where
  open p use {Decoder}

  pub data Call : Type 0 where
    acquired : DecodeOptions → Call
    not_acquired : Bytes → Call
    fed : Bytes → Call
    got : a.Audio → Call
    dropped : Call

  -- The responses sent and the decoder calls, newest first.
  pub record Task : Type 0 where
    pub responses : List Response
    pub calls : List Call
    pub acquisitions : ℕ

  pub record Locals : Type 0 where
    pub current_decoder : Option Decoder
    pub current_options : DecodeOptions

  abbrev pub M {ℓ} : Type ℓ → Type ℓ
  M A = Task → Run Task Stop A

  abbrev pub note : Call → M (Unit {0})
  note x t = ret tt (record t { calls = x ∷ t.calls })

  -- What an answer of the decoder adds to the history.
  abbrev pub heard : Poll a.Audio Decoder → List Call → List Call
  heard (item (ok audio) d) cs = got audio ∷ cs
  heard (item (err e) d) cs = cs
  heard (pending d) cs = cs
  heard (closed d) cs = cs

  -- `decoder.try_recv`: the history has the answer, whatever becomes of it.
  abbrev pub try_recv : Decoder → M (Poll a.Audio Decoder)
  try_recv d t = let r = p.try_recv d in ret r (record t { calls = heard r t.calls })

  -- `tx.send(…).await`, and the early return if it fails.
  unfoldable pub send_response : Response → M (Unit {0})
  send_response r t =
      if client_takes t.responses
      then ret tt (record t { responses = r ∷ t.responses })
      else fail client_gone t

  pub send_chunks : List Bytes → M (Unit {0})
  unfolding send_response
  send_chunks [] = ret tt
  send_chunks (pcm ∷ chunks) = do send_response (pcm_data pcm); send_chunks chunks

  abbrev pub after_send : Send Decoder → Decoder
  after_send (sent d) = d
  after_send (refused e d) = d

  -- One round of the loop of `drain_decoder_sync`; the first argument is the rest of the loop.
  pub on_drain_poll :
      (ℕ → Decoder → List Bytes → M (List Bytes))
      → ℕ
      → List Bytes
      → Poll a.Audio Decoder
      → M (List Bytes)
  on_drain_poll again tries chunks (item (ok audio) d) = again 0 d (chunks ++ a.bytes audio ∷ [])
  on_drain_poll again tries chunks (item (err e) d) = again tries d chunks
  on_drain_poll again tries chunks (pending d) =
      let more = again (suc tries) d chunks in if ltb 10 (suc tries) then ret chunks else more
  on_drain_poll again tries chunks (closed d) = ret chunks

  pub drain_loop : ℕ → ℕ → Decoder → List Bytes → M (List Bytes)
  unfolding on_drain_poll
  drain_loop zero tries d chunks = fail out_of_fuel
  drain_loop (suc f) tries d chunks = do r ← try_recv d; on_drain_poll (drain_loop f) tries chunks r

  -- Between two results the loop makes at most eleven rounds.
  abbrev pub drain_fuel : Decoder → ℕ
  drain_fuel d = suc (p.backlog d * 12 + 11)

  unfoldable pub drain_decoder_sync : Decoder → M (List Bytes)
  unfolding drain_loop
  drain_decoder_sync d =
      let d' = after_send (p.send d []) in note (fed []) >> drain_loop (drain_fuel d') 0 d' []

  -- The output of the decoder that a new segment replaces, which is dropped.
  pub flush_current : Option Decoder → M (List Bytes)
  unfolding drain_decoder_sync
  flush_current none = ret []
  flush_current (some d) = do chunks ← drain_decoder_sync d; note dropped; ret chunks

  abbrev pub update_options : DecodeOptions → Option OptionsMessage → DecodeOptions → DecodeOptions
  update_options default none current = current
  update_options default (some o) current = merge_options default o

  -- The status for the client may fail to be sent: the result is dropped.
  abbrev pub offer : Response → Task → Task
  offer r t = if client_takes t.responses then record t { responses = r ∷ t.responses } else t

  pub on_acquire : DecodeOptions → Result Decoder Bytes → M Locals
  on_acquire options (ok d) t =
      ret (record { current_decoder = some d; current_options = options })
        (record t { calls = acquired options ∷ t.calls; acquisitions = suc t.acquisitions })
  on_acquire options (err e) t =
      fail no_decoder (offer (resource_exhausted e) (record t { calls = not_acquired e ∷ t.calls }))

  pub acquire : DecodeOptions → M Locals
  unfolding on_acquire
  acquire options t = on_acquire options (p.acquire t.acquisitions options) t

  pub start_segment : DecodeOptions → DecodeRequest → Locals → M Locals
  unfolding flush_current send_chunks acquire
  start_segment default msg s = do
    chunks ← flush_current s.current_decoder
    send_chunks chunks
    acquire (update_options default msg.options s.current_options)

  -- What the loop over the available output leaves.
  pub record Collected : Type 0 where
    pub decoder : Decoder
    pub chunks : List Bytes
    pub decoder_closed : Bool

  pub on_collect_poll :
      (Decoder → List Bytes → M Collected) → List Bytes → Poll a.Audio Decoder → M Collected
  on_collect_poll again chunks (item (ok audio) d) = again d (chunks ++ a.bytes audio ∷ [])
  on_collect_poll again chunks (item (err e) d) = again d chunks
  on_collect_poll again chunks (pending d) =
      ret (record { decoder = d; chunks = chunks; decoder_closed = false })
  on_collect_poll again chunks (closed d) =
      ret (record { decoder = d; chunks = chunks; decoder_closed = true })

  pub collect : ℕ → Decoder → List Bytes → M Collected
  unfolding on_collect_poll
  collect zero d chunks = fail out_of_fuel
  collect (suc f) d chunks = do r ← try_recv d; on_collect_poll (collect f) chunks r

  -- `current_decoder = None` if the decoder has closed.
  pub keep_decoder : Collected → Locals → M Locals
  keep_decoder r s =
      if r.decoder_closed
      then note dropped >> ret (record s { current_decoder = none })
      else ret (record s { current_decoder = some r.decoder })

  pub collect_and_send : Decoder → Locals → M Locals
  unfolding collect send_chunks keep_decoder
  collect_and_send d s = do
    r ← collect (suc (p.backlog d)) d []
    send_chunks r.chunks
    keep_decoder r s

  pub on_send : Locals → Send Decoder → M Locals
  unfolding collect_and_send
  on_send s (sent d) = collect_and_send d s
  on_send s (refused e d) = note dropped >> ret (record s { current_decoder = none })

  pub feed : Bytes → Option Decoder → Locals → M Locals
  unfolding on_send
  feed chunk none s = ret s
  feed chunk (some d) s =
      if is_empty chunk
      then collect_and_send d s
      else (note (fed chunk) >> on_send s (p.send d chunk))

  abbrev pub is_none : Option Decoder → Bool
  is_none none = true
  is_none (some d) = false

  pub on_message : DecodeOptions → DecodeRequest → Locals → M Locals
  unfolding start_segment feed
  on_message default msg s = do
    s' ←
        (if msg.new_segment || is_none s.current_decoder
          then start_segment default msg s
          else ret s)
    feed msg.payload s'.current_decoder s'

  -- The end of the loop: the final drain, or the return of a cancelled stream. The source drops the
  -- drained decoder with the task, behind the last responses; the history has it before them.
  pub finish : Ending → Locals → M (Unit {0})
  unfolding flush_current send_chunks
  finish cancelled s = fail shutdown
  finish _ s = do chunks ← flush_current s.current_decoder; send_chunks chunks

  pub stream_loop : DecodeOptions → Ending → List DecodeRequest → Locals → M (Unit {0})
  unfolding on_message finish
  stream_loop default last [] s = finish last s
  stream_loop default last (msg ∷ msgs) s = do
    s' ← on_message default msg s
    stream_loop default last msgs s'

  abbrev pub new_task : Task
  new_task = record { responses = []; calls = []; acquisitions = 0 }

  unfoldable pub decode : DecodeOptions → Ending → List DecodeRequest → Run Task Stop (Unit {0})
  unfolding stream_loop
  decode default last msgs =
      stream_loop default last msgs (record { current_decoder = none; current_options = default })
        new_task
