-- ===== src/Router/Stream.antt =====
-- `handle_decode_stream` of src/router.rs. The body is the list of its chunks with its end, and the
-- times at which the guard is made and dropped are arguments.
pub mod Output
pub mod Input
pub mod Total
pub mod Asked
use media_api.Base.{
  ℕ, zero, suc, Bool, true, false, Option, none, some, List, [], ◌∷◌, Bytes, Result, ok, err,
  is_empty, if◌then◌else◌,
}
use media_api.Soundkit.{
  DecodeOptions, AudioOps, Poll, item, pending, closed, Send, sent, refused, Decoders,
}
use media_api.Effects.{Run, ret, fail, ◌>>=◌, ◌>>◌}
use media_api.Config.{MediaApiConfig}
use media_api.Decode.{parse_decode_options}
use media_api.Stats.{Stats, connection_start, connection_end}
use media_api.Router.{
  merge_options, ServerError, not_found, unsupported, no_decoder, write_failed, out_of_fuel,
}

-- What the handler asks of the stream writer.
pub data Written : Type 0 where
  -- the response's head, with status 200
  response_head : Written
  data_chunk : Bytes → Written
  end_of_stream : Written

-- `writes` says whether a call of the writer succeeds after those before.
module _ (a : AudioOps) (p : Decoders a) (writes : List Written → Written → Bool) where
  open p use {Decoder}

  pub data Call : Type 0 where
    acquired : DecodeOptions → Call
    fed : Bytes → Call
    got : a.Audio → Call

  -- The writer's successful calls and those of the decoder, newest first.
  pub record Conn : Type 0 where
    pub written : List Written
    pub calls : List Call

  abbrev pub M {ℓ} : Type ℓ → Type ℓ
  M A = Conn → Run Conn ServerError A

  abbrev pub note : Call → M (Unit {0})
  note x c = ret tt (record c { calls = x ∷ c.calls })

  -- What an answer of the decoder adds to the history.
  abbrev pub heard : Poll a.Audio Decoder → List Call → List Call
  heard (item (ok audio) d) cs = got audio ∷ cs
  heard (item (err e) d) cs = cs
  heard (pending d) cs = cs
  heard (closed d) cs = cs

  -- `decoder.try_recv`: the history has the answer, whatever becomes of it.
  abbrev pub try_recv : Decoder → M (Poll a.Audio Decoder)
  try_recv d c = let r = p.try_recv d in ret r (record c { calls = heard r c.calls })

  unfoldable pub write : Written → M (Unit {0})
  write w c =
      if writes c.written w
      then ret tt (record c { written = w ∷ c.written })
      else fail write_failed c

  -- One round of the loop over the available output; the first argument is the rest of the loop.
  pub on_poll : (Decoder → M Decoder) → Poll a.Audio Decoder → M Decoder
  on_poll again (item (ok audio) d) = do write (data_chunk (a.bytes audio)); again d
  on_poll again (item (err e) d) = again d
  on_poll again (pending d) = ret d
  on_poll again (closed d) = ret d

  pub drain : ℕ → Decoder → M Decoder
  unfolding on_poll
  drain zero d = fail out_of_fuel
  drain (suc f) d = do r ← try_recv d; on_poll (drain f) r

  abbrev pub after_send : Send Decoder → Decoder
  after_send (sent d) = d
  after_send (refused e d) = d

  -- A refused chunk ends the loop over the body.
  pub on_send : (Decoder → M Decoder) → Send Decoder → M Decoder
  unfolding drain
  on_send rest (sent d) = do d' ← drain (suc (p.backlog d)) d; rest d'
  on_send rest (refused e d) = ret d

  -- The loop over the body; its end and a body error are left alike.
  pub feed : List Bytes → Decoder → M Decoder
  unfolding on_send
  feed [] d = ret d
  feed (chunk ∷ chunks) d =
      let rest = feed chunks in
      if is_empty chunk then rest d else (note (fed chunk) >> on_send rest (p.send d chunk))

  -- One round of the last loop, which polls on until the decoder closes.
  pub on_flush_poll : (Decoder → M (Unit {0})) → Poll a.Audio Decoder → M (Unit {0})
  on_flush_poll again (item (ok audio) d) = do write (data_chunk (a.bytes audio)); again d
  on_flush_poll again (item (err e) d) = again d
  on_flush_poll again (pending d) = again d
  on_flush_poll again (closed d) = ret tt

  pub flush : ℕ → Decoder → M (Unit {0})
  unfolding on_flush_poll
  flush zero d = fail out_of_fuel
  flush (suc f) d = do r ← try_recv d; on_flush_poll (flush f) r

  -- The handler behind the acquisition.
  pub serve : ℕ → List Bytes → Decoder → M (Unit {0})
  unfolding feed flush
  serve fuel chunks d = do
    write response_head
    d' ← feed chunks d
    note (fed [])
    flush fuel (after_send (p.send d' []))
    write end_of_stream

  pub on_acquire : ℕ → DecodeOptions → List Bytes → Result Decoder Bytes → M (Unit {0})
  unfolding serve
  on_acquire fuel options chunks (ok d) = note (acquired options) >> serve fuel chunks d
  on_acquire fuel options chunks (err e) = fail (no_decoder e)

  -- The handler inside its guard; `fuel` bounds the polls of the last loop.
  unfoldable pub decode_body : ℕ → MediaApiConfig → Option Bytes → List Bytes → M (Unit {0})
  unfolding on_acquire
  decode_body fuel config query chunks =
      let options = merge_options config (parse_decode_options query) in
      on_acquire fuel options chunks (p.acquire zero options)

  abbrev pub no_calls : Conn
  no_calls = record { written = []; calls = [] }

  -- The guard's drop: on the return and on each error, while a handler that has not come to its end
  -- still holds it.
  pub drop_guard : ℕ → Run Conn ServerError (Unit {0}) → Stats → Stats
  drop_guard later (ret x c) stats = connection_end later stats
  drop_guard later (fail (no_decoder e) c) stats = connection_end later stats
  drop_guard later (fail write_failed c) stats = connection_end later stats
  drop_guard later (fail not_found c) stats = connection_end later stats
  drop_guard later (fail unsupported c) stats = connection_end later stats
  drop_guard later (fail out_of_fuel c) stats = stats

  -- `connection_start`, the handler, and the guard's drop when it leaves.
  unfoldable pub handle_decode_stream :
      ℕ
      → MediaApiConfig
      → ℕ
      → ℕ
      → Stats
      → Option Bytes
      → List Bytes
      → Run Conn ServerError (Unit {0}) × Stats
  unfolding decode_body drop_guard
  handle_decode_stream fuel config now later stats query chunks =
      let stats' = connection_start now stats in
      let r = decode_body fuel config query chunks no_calls in (r, drop_guard later r stats')
