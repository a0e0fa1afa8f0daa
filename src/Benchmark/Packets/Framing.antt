-- ===== src/Benchmark/Packets/Framing.antt =====
-- What one half of the benchmark writes, the other half reads.
use media_api.Base.{
  ℕ, zero, suc, ◌*◌, ◌/◌, ◌%◌, ◌^◌, ◌≤◌, ◌<◌, ◌≡◌, refl, ap, ◌∙◌, false, List, [], ◌∷◌, ◌++◌, Bytes,
  Result, ok, err, take, drop, length, length-append, replicate, is_empty, ltb, ◌==◌, if◌then◌else◌,
  append_assoc, append-nil, All, arith, Bool-cases, inl, inr,
}
use media_api.Base.Integers.{ℤ, pos}
use media_api.Benchmark.Packets.{
  Opus, Failure, failed, to_le_bytes, from_le_bytes, chunks, padded, on_encoded, encode_chunks,
  encode_with, on_decoded, on_length, decode_packets, decode_with, max_frame_samples,
}

-- A packet behind its length, and a stream of packets.
abbrev pub framed : Bytes → Bytes
framed packet = to_le_bytes (length packet) ++ packet

abbrev pub stream : List Bytes → Bytes
stream [] = []
stream (packet ∷ packets) = framed packet ++ stream packets

abbrev pub IsPacket : Bytes → Type 0
IsPacket packet = (0 < length packet) × (length packet ≤ 1500)

take-append_exact : (p rest : Bytes) → take (length p) (p ++ rest) ≡ p
take-append_exact [] rest = refl
take-append_exact (x ∷ p) rest = ap (λ t. x ∷ t) (take-append_exact p rest)

drop-append_exact : (p rest : Bytes) → drop (length p) (p ++ rest) ≡ rest
drop-append_exact [] rest = refl
drop-append_exact (x ∷ p) rest = drop-append_exact p rest

le_bytes :
    (n : ℕ)
    → n < 2 ^ 32
    → from_le_bytes (n % 256) (n / 2 ^ 8 % 256) (n / 2 ^ 16 % 256) (n / 2 ^ 24 % 256) ≡ n
le_bytes n h = omega arith

module _ (o : Opus) where
  -- A packet before those that follow, if it is not empty.
  abbrev pub keep_packet : Bytes → Result (List Bytes) Failure → Result (List Bytes) Failure
  keep_packet packet (err x) = err x
  keep_packet packet (ok packets) = ok (if is_empty packet then packets else packet ∷ packets)

  abbrev pub gather :
      (Bytes → Bytes)
      → (o.Encoder → Result (List Bytes) Failure)
      → Result (Bytes × o.Encoder) Bytes
      → Result (List Bytes) Failure
  gather message rest (err x) = err (failed (message x))
  gather message rest (ok (packet, e)) = keep_packet packet (rest e)

  -- The packets that the encoder makes of the frames, without the empty ones.
  abbrev pub encode_all :
      (Bytes → Bytes) → ℕ → List (List ℤ) → o.Encoder → Result (List Bytes) Failure
  encode_all message n [] e = ok []
  encode_all message n (chunk ∷ rest) e =
      gather message (encode_all message n rest) (o.encode e (padded o n chunk))

  -- The decoder on each packet in turn, with no bytes between.
  abbrev pub decode_all :
      (Bytes → Bytes) → ℕ → List Bytes → o.Decoder → List ℤ → List ℤ → Result (List ℤ) Failure
  decode_all message channels [] d scratch decoded = ok decoded
  decode_all message channels (packet ∷ packets) d scratch decoded =
      on_decoded o message channels (decode_all message channels packets) decoded
        (o.decode d packet scratch)

  -- The packets behind a successful run of the loop.
  abbrev Encoded : (Bytes → Bytes) → ℕ → List (List ℤ) → o.Encoder → Bytes → Bytes → Type 0
  Encoded message n cs e packets s =
      (ps : List Bytes) × (encode_all message n cs e ≡ ok ps)
      × (s ≡ packets ++ stream ps)
      × All IsPacket ps

  on_encoded-Encoded :
      (message : Bytes → Bytes) (n : ℕ) (chunk : List ℤ) (cs : List (List ℤ)) (e : o.Encoder)
      (packets s : Bytes) (r : Result (Bytes × o.Encoder) Bytes)
      → o.encode e (padded o n chunk) ≡ r
      → ((e' : o.Encoder) (packets' : Bytes)
          → encode_chunks o message n cs e' packets' ≡ ok s
          → Encoded message n cs e' packets' s)
      → on_encoded o message (encode_chunks o message n cs) packets r ≡ ok s
      → Encoded message n (chunk ∷ cs) e packets s
  unfolding on_encoded
  on_encoded-Encoded message n chunk cs e packets s (err x) q k h = absurd cc
  on_encoded-Encoded message n chunk cs e packets s (ok ([], e')) q k h =
      let (ps, all, s_is, hs) = k e' packets h in
      (ps, ap (gather message (encode_all message n cs)) q ∙ ap (keep_packet []) all, s_is, hs)
  on_encoded-Encoded message n chunk cs e packets s (ok (b ∷ bs, e')) q k h =
      let (ps, all, s_is, hs) = k e' ((packets ++ to_le_bytes (length (b ∷ bs))) ++ b ∷ bs) h in
      (
        (b ∷ bs) ∷ ps,
        ap (gather message (encode_all message n cs)) q ∙ ap (keep_packet (b ∷ bs)) all,
        s_is
            ∙ ap (λ t. t ++ stream ps)
                (append_assoc packets (to_le_bytes (length (b ∷ bs))) (b ∷ bs))
            ∙ append_assoc packets (framed (b ∷ bs)) (stream ps),
        ((omega arith, o.encode-fits e e' (padded o n chunk) (b ∷ bs) q), hs),
      )

  encode_chunks-Encoded :
      (message : Bytes → Bytes) (n : ℕ) (cs : List (List ℤ)) (e : o.Encoder) (packets s : Bytes)
      → encode_chunks o message n cs e packets ≡ ok s
      → Encoded message n cs e packets s
  unfolding encode_chunks
  encode_chunks-Encoded message n [] e packets s h =
      ([], refl, ground (arith, append-nil packets), tt)
  encode_chunks-Encoded message n (chunk ∷ cs) e packets s h =
      on_encoded-Encoded message n chunk cs e packets s (o.encode e (padded o n chunk)) refl
        (λ e' packets'. encode_chunks-Encoded message n cs e' packets' s) h

  on_decoded-cong :
      (message : Bytes → Bytes) (channels : ℕ)
      (next next' : o.Decoder → List ℤ → List ℤ → Result (List ℤ) Failure) (decoded : List ℤ)
      (r : Result (ℕ × List ℤ × o.Decoder) Bytes)
      → ((d : o.Decoder) (scratch decoded : List ℤ)
          → next d scratch decoded ≡ next' d scratch decoded)
      → on_decoded o message channels next decoded r ≡ on_decoded o message channels next' decoded r
  unfolding on_decoded
  on_decoded-cong message channels next next' decoded (err x) k = refl
  on_decoded-cong message channels next next' decoded (ok (count, scratch, d)) k =
      rw (k d scratch (decoded ++ take (count * channels) scratch)) refl

  on_length-packet :
      (message : Bytes → Bytes) (channels : ℕ)
      (again : Bytes → o.Decoder → List ℤ → List ℤ → Result (List ℤ) Failure) (p rest : Bytes)
      (d : o.Decoder) (scratch decoded : List ℤ)
      → 0 < length p
      → on_length o message channels again (length p) (p ++ rest) d scratch decoded
        ≡ on_decoded o message channels (again rest) decoded (o.decode d p scratch)
  unfolding on_length
  on_length-packet message channels again p rest d scratch decoded nonzero =
      let some_bytes : (length p == 0) ≡ false = ground arith in
      let enough : ltb (length (p ++ rest)) (length p) ≡ false =
        ground (arith, length-append {0} p rest) in
      rw (some_bytes, enough, take-append_exact p rest, drop-append_exact p rest) refl

  decode_packets-stream :
      (message : Bytes → Bytes) (channels f : ℕ) (ps : List Bytes) (d : o.Decoder)
      (scratch decoded : List ℤ)
      → All IsPacket ps
      → length (stream ps) < f
      → decode_packets o message channels f (stream ps) d scratch decoded
        ≡ decode_all message channels ps d scratch decoded
  unfolding decode_packets
  decode_packets-stream message channels zero ps d scratch decoded hs h = absurd (omega arith)
  decode_packets-stream message channels (suc f) [] d scratch decoded hs h = refl
  decode_packets-stream message channels (suc f) (p ∷ ps) d scratch decoded ((nonzero, short), hs)
        h =
      ap
        (λ n.
          on_length o message channels (decode_packets o message channels f) n (p ++ stream ps) d
            scratch decoded)
        (le_bytes (length p) (omega arith))
      ∙ on_length-packet message channels (decode_packets o message channels f) p (stream ps) d
          scratch decoded nonzero
      ∙ on_decoded-cong message channels _ _ decoded (o.decode d p scratch) (λ d' scratch' decoded'.
        decode_packets-stream message channels f ps d' scratch' decoded' hs
          (omega (arith, length-append {0} p (stream ps))))

  -- A stream that one half of the benchmark writes is read back by the other packet by packet: the
  -- decoder is given exactly the packets of the encoder that are not empty, in order, and the result
  -- is that of decoding them.
  pub decode_with-encode_with :
      (encode_message decode_message : Bytes → Bytes) (e : o.Encoder) (d : o.Decoder)
      (channels frame_size : ℕ) (pcm : List ℤ) (packets : Bytes)
      → encode_with o encode_message e channels frame_size pcm ≡ ok packets
      → (ps : List Bytes) × (encode_all encode_message
            (frame_size * channels)
            (chunks o (suc (length pcm)) (frame_size * channels) pcm)
            e
          ≡ ok ps)
        × (decode_with o decode_message d channels packets
            ≡ decode_all decode_message channels ps d
                (replicate (max_frame_samples * channels) (pos 0))
                [])
  unfolding encode_with decode_with
  decode_with-encode_with em dm e d channels frame_size pcm packets h =
      let n = frame_size * channels in
      elim (Bool-cases (n == 0)) [
        | inl none ↦ absurd (ground arith)
        | inr some ↦
            let (ps, all, s_is, hs) =
              encode_chunks-Encoded em n (chunks o (suc (length pcm)) n pcm) e [] packets
                (ground arith) in
            (
              ps,
              all,
              ap
                    (λ s.
                      decode_packets o dm channels (suc (length s)) s d
                        (replicate (max_frame_samples * channels) (pos 0)) [])
                    s_is
                  ∙ decode_packets-stream dm channels (suc (length (stream ps))) ps d _ [] hs
                      (omega arith),
            )
      ]
