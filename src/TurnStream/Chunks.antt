-- ===== src/TurnStream/Chunks.antt =====
-- How the stream is cut into reads does not matter, and the read buffer does not fill up.
use csqtt_antinet_module.ArrayQueue.{ArrayQueue}
use csqtt_antinet_module.Packet.Pool.{PacketPool}
use csqtt_antinet_module.TurnStream.{
  StreamError, FrameKind, control, channel_data, TurnStreamFrame, frame_start, Decoded, decode_kind,
  decode_frame, copied, copy_channel_data, ReadFrame, read_frame,
}
use csqtt_antinet_module.Prelude.{
  ℕ, ◌+◌, ◌≤◌, ◌<◌, ◌≡◌, refl, ap, ◌∙◌, ◌≢◌, ◌⊎◌, inl, inr, false, Option, none, some, List, [],
  ◌∷◌, ◌++◌, arith, ltb, leb, ◌==◌, ltb→lt, ltb→le, Bool-cases, length, take, drop, length-append,
  length-drop, All, Bytes, slice, byte, drop-append-le, take-append-le, get_or-append-lt,
}
use mathlib.Core.List.{append-nil, append_assoc}

byte-append : (p q : Bytes) (i : ℕ) → i < length p → byte (p ++ q) i ≡ byte p i
byte-append p q i h = get_or-append-lt p q i 0 h

frame_start-short : (bytes : Bytes) → length bytes < 4 → frame_start bytes ≡ inr none
unfolding frame_start
frame_start-short bytes h = ground arith

slice-append : (p q : Bytes) → 8 ≤ length p → slice (p ++ q) 4 8 ≡ slice p 4 8
slice-append p q h =
    ap (λ (t : Bytes). take 4 t) (drop-append-le 4 p q (omega arith))
    ∙ take-append-le 4 (drop 4 p) q (omega (arith, length-drop 4 p))

frame_start-long :
    (bytes more : Bytes)
    → 4 ≤ length bytes
    → (frame_start bytes ≡ inr none) ⊎ (frame_start (bytes ++ more) ≡ frame_start bytes)
unfolding frame_start
frame_start-long bytes more four =
    let b0 = byte-append bytes more 0 (omega arith) in
    let b2 = byte-append bytes more 2 (omega arith) in
    let b3 = byte-append bytes more 3 (omega arith) in
    ground (arith, b0, b2, b3, length-append bytes more, slice-append bytes more)

-- Once it is known how a frame starts, or that none does, more bytes do not change it.
frame_start-append :
    (bytes more : Bytes)
    → (frame_start bytes ≡ inr none) ⊎ (frame_start (bytes ++ more) ≡ frame_start bytes)
frame_start-append bytes more = elim (Bool-cases (ltb (length bytes) 4)) [
  | inl short ↦ inl (frame_start-short bytes (ltb→lt (length bytes) 4 short))
  | inr four ↦ frame_start-long bytes more (ltb→le (length bytes) 4 four)
]

-- The frames that `frame_start` announces are short.
frame_start-bound :
    (bytes : Bytes)
    → (frame_start bytes ≡ inr none → length bytes < 8)
      × ((n : ℕ) → frame_start bytes ≡ inr (some (control n)) → n ≤ 4096)
      × ((n p : ℕ) → frame_start bytes ≡ inr (some (channel_data n p)) → n + p ≤ 2240)
unfolding frame_start
frame_start-bound bytes = (λ e. ground arith, λ n e. ground arith, λ n p e. ground arith)

module _ (queue : ArrayQueue Bytes) (blank : Bytes) where
  abbrev pub with_more : Bytes → Decoded queue blank → Decoded queue blank
  with_more more d = record d { buffer = d.buffer ++ more }

  copied-append :
      (rest more : Bytes) (x : (StreamError ⊎ TurnStreamFrame) × PacketPool queue)
      → copied queue blank (rest ++ more) x ≡ with_more more (copied queue blank rest x)
  copied-append rest more (inl e, pool) = refl
  copied-append rest more (inr f, pool) = refl

  decode_kind-append :
      (k : StreamError ⊎ Option FrameKind) (bytes more : Bytes) (pool : PacketPool queue)
      → ((decode_kind queue blank k bytes pool).result ≡ inr none)
        ⊎ (decode_kind queue blank k (bytes ++ more) pool
            ≡ with_more more (decode_kind queue blank k bytes pool))
  decode_kind-append (inl e) bytes more pool = inr refl
  decode_kind-append (inr none) bytes more pool = inl refl
  decode_kind-append (inr (some (control n))) bytes more pool =
      elim (Bool-cases (ltb (length bytes) n)) [
        | inl short ↦ inl (rw short refl)
        | inr enough ↦
            let le = ltb→le (length bytes) n enough in
            let still : ltb (length (bytes ++ more)) n ≡ false =
              ground (arith, length-append bytes more, le) in
            inr (
              rw (enough, still, take-append-le n bytes more le, drop-append-le n bytes more le)
                refl)
      ]
  decode_kind-append (inr (some (channel_data n p))) bytes more pool =
      elim (Bool-cases (ltb (length bytes) (n + p))) [
        | inl short ↦ inl (rw short refl)
        | inr enough ↦
            let le = ltb→le (length bytes) (n + p) enough in
            let still : ltb (length (bytes ++ more)) (n + p) ≡ false =
              ground (arith, length-append bytes more, le) in
            inr (
              rw
                (
                  enough,
                  still,
                  take-append-le (n + p) bytes more le,
                  drop-append-le (n + p) bytes more le,
                )
                (copied-append (drop (n + p) bytes) more
                  (copy_channel_data queue blank (take (n + p) bytes) pool)))
      ]

  -- Bytes that arrive after a frame, or after a fault, stay in the buffer and change nothing else.
  pub decode_frame-append :
      (bytes more : Bytes) (pool : PacketPool queue)
      → ((decode_frame queue blank bytes pool).result ≡ inr none)
        ⊎ (decode_frame queue blank (bytes ++ more) pool
            ≡ with_more more (decode_frame queue blank bytes pool))
  unfolding decode_frame
  decode_frame-append bytes more pool = elim (frame_start-append bytes more) [
    | inl nothing ↦ inl (rw nothing refl)
    | inr same ↦ rw same (decode_kind-append (frame_start bytes) bytes more pool)
  ]

  copied_done :
      (rest : Bytes) (x : (StreamError ⊎ TurnStreamFrame) × PacketPool queue)
      → (copied queue blank rest x).result ≢ inr none
  copied_done rest (inl e, pool) = λ h. absurd cc
  copied_done rest (inr f, pool) = λ h. absurd cc

  decode_kind-more :
      (k : StreamError ⊎ Option FrameKind) (bytes : Bytes) (pool : PacketPool queue)
      → frame_start bytes ≡ k
      → (decode_kind queue blank k bytes pool).result ≡ inr none
      → (length bytes < 4096)
        × (decode_kind queue blank k bytes pool
            ≡ record { result = inr none; buffer = bytes; pool = pool })
  decode_kind-more (inl e) bytes pool k h = absurd cc
  decode_kind-more (inr none) bytes pool k h =
      let short = (frame_start-bound bytes).0 k in (omega arith, refl)
  decode_kind-more (inr (some (control n))) bytes pool k h =
      let small = (frame_start-bound bytes).1 n k in
      elim (Bool-cases (ltb (length bytes) n)) [
        | inl short ↦ (omega (arith, ltb→lt (length bytes) n short), rw short refl)
        | inr enough ↦ let g = rw enough at h in absurd cc
      ]
  decode_kind-more (inr (some (channel_data n p))) bytes pool k h =
      let small = (frame_start-bound bytes).2 n p k in
      elim (Bool-cases (ltb (length bytes) (n + p))) [
        | inl short ↦ (omega (arith, ltb→lt (length bytes) (n + p) short), rw short refl)
        | inr enough ↦ absurd (
            copied_done (drop (n + p) bytes)
              (copy_channel_data queue blank (take (n + p) bytes) pool) (rw enough at h))
      ]

  -- When more bytes are needed the buffer holds fewer than its limit, and nothing has changed.
  decode_frame-more :
      (bytes : Bytes) (pool : PacketPool queue)
      → (decode_frame queue blank bytes pool).result ≡ inr none
      → (length bytes < 4096)
        × (decode_frame queue blank bytes pool
            ≡ record { result = inr none; buffer = bytes; pool = pool })
  unfolding decode_frame
  decode_frame-more bytes pool h = decode_kind-more (frame_start bytes) bytes pool refl h

  unfoldable pub concat : List Bytes → Bytes
  concat [] = []
  concat (read ∷ reads) = read ++ concat reads

  read_frame-done :
      (buffer : Bytes) (reads : List Bytes) (pool : PacketPool queue) {f : TurnStreamFrame}
      → (decode_frame queue blank buffer pool).result ≡ inr (some f)
      → read_frame queue blank buffer reads pool ≡ record {
        result = inr f;
        buffer = (decode_frame queue blank buffer pool).buffer;
        reads = reads;
        pool = (decode_frame queue blank buffer pool).pool;
      }
  unfolding read_frame
  read_frame-done buffer [] pool e = rw (e, read_frame) refl
  read_frame-done buffer (read ∷ reads) pool e = rw (e, read_frame) refl

  read_frame-more :
      (buffer read : Bytes) (reads : List Bytes) (pool : PacketPool queue)
      → (decode_frame queue blank buffer pool).result ≡ inr none
      → 0 < length read
      → read_frame queue blank buffer (read ∷ reads) pool
        ≡ read_frame queue blank (buffer ++ read) reads pool
  unfolding read_frame
  read_frame-more buffer read reads pool e filled =
      let (short, same) = decode_frame-more buffer pool e in
      let room : leb 4096 (length buffer) ≡ false = ground (arith, short) in
      let goes_on : (length read == 0) ≡ false = ground (arith, filled) in
      let kept : (decode_frame queue blank buffer pool).buffer ≡ buffer =
        ap (λ (d : Decoded queue blank). d.buffer) same in
      let untouched : (decode_frame queue blank buffer pool).pool ≡ pool =
        ap (λ (d : Decoded queue blank). d.pool) same in
      rw (e, kept, untouched, room, goes_on, read_frame) refl

  -- What is read is the frame that `d` has, and what is left is what `d` leaves.
  abbrev pub Reads : ReadFrame queue blank → TurnStreamFrame → Decoded queue blank → Type 0
  Reads r f d = (r.result ≡ inr f) × (r.buffer ++ concat r.reads ≡ d.buffer) × (r.pool ≡ d.pool)

  -- A frame that the bytes in the buffer and in the reads to come start with is read, however
  -- they are cut into reads: the bytes after it are left, and the hard limit is not met.
  pub read_frame_lem :
      (buffer : Bytes) (reads : List Bytes) (pool : PacketPool queue) {f : TurnStreamFrame}
      → All (λ (r : Bytes). 0 < length r) reads
      → (decode_frame queue blank (buffer ++ concat reads) pool).result ≡ inr (some f)
      → Reads
          (read_frame queue blank buffer reads pool)
          f
          (decode_frame queue blank (buffer ++ concat reads) pool)
  unfolding concat
  read_frame_lem buffer [] pool filled e = elim (decode_frame-append buffer [] pool) [
    | inr same ↦ rw (read_frame-done buffer [] pool (rw same at e), same) (refl, refl, refl)
    | inl nothing ↦ let g = rw (append-nil buffer) at e in absurd cc
  ]
  read_frame_lem buffer (read ∷ reads) pool filled e =
      let regroup = append_assoc buffer read (concat reads) in
      elim (decode_frame-append buffer (read ++ concat reads) pool) [
        | inr same ↦
            rw (read_frame-done buffer (read ∷ reads) pool (rw same at e), same) (refl, refl, refl)
        | inl nothing ↦
            rw (read_frame-more buffer read reads pool nothing filled.0, ← regroup)
              (read_frame_lem (buffer ++ read) reads pool filled.1 (rw (← regroup) at e))
      ]
