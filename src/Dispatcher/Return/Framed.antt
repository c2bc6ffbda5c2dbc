-- ===== src/Dispatcher/Return/Framed.antt =====
-- What is framed on the way out is unframed on the way back.
mod Tests
use csqtt_antinet_module.Dispatcher.Return.{
  write_header, frame_outbound_packet, ReturnReorder, push_framed, push,
}
use csqtt_antinet_module.FlowFrame.Header.{frame_len, FrameHeader, header_bytes, decode, InRange}
use csqtt_antinet_module.FlowFrame.Header.RoundTrip.{
  decode-header_bytes, encode-fits, length-header_bytes,
}
use csqtt_antinet_module.FlowFrame.Sequencer.{FlowSequencer, next}
use csqtt_antinet_module.Packet.Buf.{PacketBuf, as_slice, overwrite, prepend, trim_front, len}
use csqtt_antinet_module.Packet.Buf.Ranges.{
  IsValid, slice-overwrite_front, length-overwrite, prepend-fits, trim_front-fits,
}
use csqtt_antinet_module.Prelude.{
  ℕ, ◌+◌, ◌-◌, ◌≤◌, ◌≡◌, refl, sym, ap, ◌∙◌, Option, some, ◌++◌, arith, length, take, drop,
  drop-length-append, Bytes, slice, drop-drop, length-slice, drop-take,
}

-- The rest of a range without its first bytes.
slice-trimmed :
    (storage : Bytes) (from to n : ℕ) → slice storage (from + n) to ≡ drop n (slice storage from to)
slice-trimmed storage from to n =
    let count : to - (from + n) ≡ to - from - n = omega arith in
    ap (λ (k : ℕ). take k (drop (from + n) storage)) count
    ∙ sym (
        drop-take n (to - from) (drop from storage)
        ∙ ap (λ (b : Bytes). take (to - from - n) b) (drop-drop n from storage))

write_header-fits :
    (h : FrameHeader) (p : PacketBuf)
    → IsValid p
    → frame_len ≤ len p
    → write_header h p ≡ some (record p { storage = overwrite p.storage p.start (header_bytes h) })
unfolding write_header
write_header-fits h p v room =
    let size : length (slice p.storage p.start (p.start + frame_len)) ≡ frame_len =
      length-slice p.storage p.start (p.start + frame_len) (omega arith) (omega arith)
      ∙ omega arith in
    rw (encode-fits h (slice p.storage p.start (p.start + frame_len)) size, write_header) refl

frame_outbound_packet-steps :
    (s after : FlowSequencer) (p : PacketBuf) {h : FrameHeader} {q r : PacketBuf}
    → next s (as_slice p) ≡ (some h, after)
    → prepend frame_len p ≡ some q
    → write_header h q ≡ some r
    → frame_outbound_packet s p ≡ (some r, after)
unfolding frame_outbound_packet
frame_outbound_packet-steps s after p {h} {q} {r} e f g =
    let header : (next s (as_slice p)).0 ≡ some h =
      ap (λ (x : Option FrameHeader × FlowSequencer). x.0) e in
    let later : (next s (as_slice p)).1 ≡ after =
      ap (λ (x : Option FrameHeader × FlowSequencer). x.1) e in
    rw (header, f, g, frame_outbound_packet) (ap (λ (k : FlowSequencer). (some r, k)) later)

push-steps :
    (p : PacketBuf) (now_ms : ℕ) (r : ReturnReorder) {h : FrameHeader} {rest : Bytes}
    {t : PacketBuf}
    → decode (as_slice p) ≡ some (h, rest)
    → trim_front frame_len p ≡ some t
    → push p now_ms r ≡ push_framed h t now_ms r
unfolding push
push-steps p now_ms r e f = rw (e, f, push) refl

-- A packet that is framed on the way out, with headroom for the frame, is given to the reassembler
-- by the other side's `push` under the number it was framed with, its content the one it had.
pub frame_outbound_packet-push :
    (s after : FlowSequencer) (p : PacketBuf) (now_ms : ℕ) (r : ReturnReorder) {h : FrameHeader}
    → IsValid p
    → frame_len ≤ p.start
    → next s (as_slice p) ≡ (some h, after)
    → InRange h
    → (q : PacketBuf) × (t : PacketBuf) × (frame_outbound_packet s p ≡ (some q, after))
      × (push q now_ms r ≡ push_framed h t now_ms r)
      × (as_slice t ≡ as_slice p)
      × IsValid t
frame_outbound_packet-push s after p now_ms r {h} v room numbered range =
    let moved : PacketBuf = record p { start = p.start - frame_len } in
    let moved-IsValid : IsValid moved = record {
      storage = v.storage;
      ordered = omega arith;
      inside = v.inside;
    } in
    let size = length-header_bytes h in
    let framed : Bytes = overwrite p.storage (p.start - frame_len) (header_bytes h) in
    let q : PacketBuf = record p { storage = framed; start = p.start - frame_len } in
    let t : PacketBuf = record p { storage = framed; start = p.start - frame_len + frame_len } in
    let back : p.start - frame_len + length (header_bytes h) ≡ p.start = omega (arith, size) in
    let whole : length framed ≡ length p.storage =
      length-overwrite p.storage (p.start - frame_len) (header_bytes h) (omega (arith, size)) in
    let content : as_slice q ≡ header_bytes h ++ as_slice p =
      slice-overwrite_front p.storage (p.start - frame_len) p.end (header_bytes h)
        (omega (arith, size)) (omega (arith, v.storage, v.inside))
      ∙ ap (λ (k : ℕ). header_bytes h ++ slice p.storage k p.end) back in
    let unframed : drop frame_len (header_bytes h ++ as_slice p) ≡ as_slice p =
      ap (λ (k : ℕ). drop k (header_bytes h ++ as_slice p)) (sym size)
      ∙ drop-length-append (header_bytes h) (as_slice p) in
    (
      q,
      t,
      frame_outbound_packet-steps s after p numbered (prepend-fits frame_len p room)
          (write_header-fits h moved moved-IsValid (omega arith)),
      push-steps q now_ms r {rest = as_slice p}
          (rw content (decode-header_bytes h (as_slice p) range))
          (trim_front-fits frame_len q (omega arith)),
      slice-trimmed framed (p.start - frame_len) p.end frame_len
          ∙ ap (λ (b : Bytes). drop frame_len b) content
          ∙ unframed,
      record { storage = whole ∙ v.storage; ordered = omega arith; inside = v.inside },
    )
