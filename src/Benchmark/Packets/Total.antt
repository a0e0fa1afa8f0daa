-- ===== src/Benchmark/Packets/Total.antt =====
-- Reading a packet stream comes to an end, whatever the bytes.
use media_api.Base.{
  ℕ, zero, suc, ◌*◌, ◌≤◌, ◌<◌, ◌≢◌, List, [], ◌∷◌, Bytes, Result, ok, err, drop, length,
  length-drop, is_empty, arith, ltb, ◌==◌, Bool-cases, inl, inr, take,
}
use media_api.Base.Integers.{ℤ}
use media_api.Benchmark.Packets.{
  Opus, Failure, out_of_fuel, padded, on_encoded, encode_chunks, encode_with, on_decoded, on_length,
  decode_packets, decode_with, from_le_bytes,
}

module _ (o : Opus) where
  -- The rest of a loop, where it ends.
  abbrev Ends : (o.Decoder → List ℤ → List ℤ → Result (List ℤ) Failure) → Type 0
  Ends next = (d : o.Decoder) (scratch decoded : List ℤ) → next d scratch decoded ≢ err out_of_fuel

  on_decoded-Ends :
      (message : Bytes → Bytes) (channels : ℕ)
      (next : o.Decoder → List ℤ → List ℤ → Result (List ℤ) Failure) (decoded : List ℤ)
      (r : Result (ℕ × List ℤ × o.Decoder) Bytes)
      → Ends next
      → on_decoded o message channels next decoded r ≢ err out_of_fuel
  unfolding on_decoded
  on_decoded-Ends message channels next decoded (err x) k = λ h. cc
  on_decoded-Ends message channels next decoded (ok (count, scratch, d)) k =
      elim (Bool-cases (ltb (length scratch) (count * channels))) [
        | inl short ↦ rw short (λ h. cc)
        | inr enough ↦ rw enough (k d scratch _)
      ]

  on_length-Ends :
      (message : Bytes → Bytes) (channels : ℕ)
      (again : Bytes → o.Decoder → List ℤ → List ℤ → Result (List ℤ) Failure) (packet_len : ℕ)
      (rest : Bytes)
      → ((bytes : Bytes) → length bytes ≤ length rest → Ends (again bytes))
      → Ends (on_length o message channels again packet_len rest)
  unfolding on_length
  on_length-Ends message channels again packet_len rest k d scratch decoded =
      elim (Bool-cases (packet_len == 0)) [
        | inl none ↦ rw none (k rest (omega arith) d scratch decoded)
        | inr some ↦ rw some elim (Bool-cases (ltb (length rest) packet_len)) [
          | inl short ↦ rw short (λ h. cc)
          | inr enough ↦ rw enough (
              on_decoded-Ends message channels (again (drop packet_len rest)) decoded
                (o.decode d (take packet_len rest) scratch)
                (k (drop packet_len rest) (omega (arith, length-drop {0} packet_len rest))))
        ]
      ]

  decode_packets-Ends :
      (message : Bytes → Bytes) (channels f : ℕ) (packets : Bytes)
      → length packets < f
      → Ends (decode_packets o message channels f packets)
  unfolding decode_packets
  decode_packets-Ends message channels zero packets h d scratch decoded = absurd (omega arith)
  decode_packets-Ends message channels (suc f) (a ∷ b ∷ c ∷ e ∷ rest) h d scratch decoded =
      on_length-Ends message channels (decode_packets o message channels f) (from_le_bytes a b c e)
        rest (λ bytes le. decode_packets-Ends message channels f bytes (omega arith)) d scratch
        decoded
  decode_packets-Ends message channels (suc f) packets h d scratch decoded = λ q. cc

  -- The reader's loop comes to an end on every byte string, whatever the decoder answers.
  pub decode_with-Ends :
      (message : Bytes → Bytes) (d : o.Decoder) (channels : ℕ) (packets : Bytes)
      → decode_with o message d channels packets ≢ err out_of_fuel
  unfolding decode_with
  decode_with-Ends message d channels packets =
      decode_packets-Ends message channels (suc (length packets)) packets (omega arith) d _ []

  on_encoded-Ends :
      (message : Bytes → Bytes) (next : o.Encoder → Bytes → Result Bytes Failure) (packets : Bytes)
      (r : Result (Bytes × o.Encoder) Bytes)
      → ((e : o.Encoder) (packets : Bytes) → next e packets ≢ err out_of_fuel)
      → on_encoded o message next packets r ≢ err out_of_fuel
  unfolding on_encoded
  on_encoded-Ends message next packets (err x) k = λ q. cc
  on_encoded-Ends message next packets (ok (encoded, e)) k = elim (Bool-cases (is_empty encoded)) [
    | inl b ↦ rw b (k e _)
    | inr b ↦ rw b (k e _)
  ]

  encode_chunks-Ends :
      (message : Bytes → Bytes) (n : ℕ) (cs : List (List ℤ)) (e : o.Encoder) (packets : Bytes)
      → encode_chunks o message n cs e packets ≢ err out_of_fuel
  unfolding encode_chunks
  encode_chunks-Ends message n [] e packets = λ q. cc
  encode_chunks-Ends message n (chunk ∷ cs) e packets =
      on_encoded-Ends message (encode_chunks o message n cs) packets (o.encode e (padded o n chunk))
        (encode_chunks-Ends message n cs)

  -- So does the writer's loop, on every track.
  pub encode_with-Ends :
      (message : Bytes → Bytes) (e : o.Encoder) (channels size : ℕ) (pcm : List ℤ)
      → encode_with o message e channels size pcm ≢ err out_of_fuel
  unfolding encode_with
  encode_with-Ends message e channels size pcm = elim (Bool-cases (size * channels == 0)) [
    | inl b ↦ rw b (λ q. cc)
    | inr b ↦ rw b (encode_chunks-Ends message (size * channels) _ e [])
  ]
