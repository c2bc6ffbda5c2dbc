-- ===== src/Packet/Buf/Ranges.antt =====
-- The range of a buffer stays inside the storage, and what the operations do to the bytes in it.
mod Tests
use csqtt_antinet_module.Packet.Buf.{
  packet_capacity, PacketBuf, as_slice, overwrite, set_read_len, prepend, extend_tail, trim_front,
  truncate, set_range, fill_front, fill_tail,
}
use csqtt_antinet_module.Prelude.{
  ℕ, ◌+◌, ◌-◌, ◌≤◌, ◌<◌, ◌≡◌, refl, ap, ◌∙◌, true, false, Option, none, some, ◌++◌, arith, ltb,
  length, take, drop, length-append, length-take, length-drop, drop-length-append, Bytes, slice,
  length-slice, drop-append-le, take-append-add, drop-take,
}
use mathlib.Core.List.{append-nil}

-- `&self.storage[self.range]` does not panic.
pub record IsValid (p : PacketBuf) : Type 0 where
  pub storage : length p.storage ≡ packet_capacity
  pub ordered : p.start ≤ p.end
  pub inside : p.end ≤ packet_capacity

pub data Op : Type 0 where
  read_len front tail trim cut : ℕ → Op
  range : ℕ → ℕ → Op

abbrev pub apply : Op → PacketBuf → Option PacketBuf
apply (Op.read_len n) p = set_read_len n p
apply (Op.front n) p = prepend n p
apply (Op.tail n) p = extend_tail n p
apply (Op.trim n) p = trim_front n p
apply (Op.cut n) p = truncate n p
apply (Op.range a b) p = set_range a b p

-- No operation moves the range out of the storage or turns it round.
pub apply-IsValid :
    (op : Op) (p : PacketBuf) {q : PacketBuf} → IsValid p → apply op p ≡ some q → IsValid q
unfolding set_read_len prepend extend_tail trim_front truncate set_range
apply-IsValid (Op.read_len n) p v e = ground arith
apply-IsValid (Op.front n) p v e = ground arith
apply-IsValid (Op.tail n) p v e = ground arith
apply-IsValid (Op.trim n) p v e = ground arith
apply-IsValid (Op.cut n) p v e = ground arith
apply-IsValid (Op.range a b) p v e = ground arith

pub length-overwrite :
    (storage : Bytes) (at : ℕ) (bytes : Bytes)
    → at + length bytes ≤ length storage
    → length (overwrite storage at bytes) ≡ length storage
length-overwrite storage at bytes h = omega (
  arith,
  length-append (take at storage) (bytes ++ drop (at + length bytes) storage),
  length-append bytes (drop (at + length bytes) storage),
  length-take at storage,
  length-drop (at + length bytes) storage,
)

-- Bytes written in front of a range are in front of it.
pub slice-overwrite_front :
    (storage : Bytes) (at end : ℕ) (bytes : Bytes)
    → at + length bytes ≤ end
    → end ≤ length storage
    → slice (overwrite storage at bytes) at end ≡ bytes ++ slice storage (at + length bytes) end
slice-overwrite_front storage at end bytes le h =
    let rest = drop (at + length bytes) storage in
    let cut : drop at (overwrite storage at bytes) ≡ bytes ++ rest =
      skip_front at (take at storage) (bytes ++ rest) (omega (arith, length-take at storage)) in
    let count : end - at ≡ length bytes + (end - (at + length bytes)) = omega arith in
    ap (λ (t : Bytes). take (end - at) t) cut
    ∙ ap (λ (k : ℕ). take k (bytes ++ rest)) count
    ∙ take-append-add bytes rest (end - (at + length bytes))
  where
    skip_front : (n : ℕ) (p q : Bytes) → length p ≡ n → drop n (p ++ q) ≡ q
    skip_front n p q e = rw (← e) (drop-length-append p q)

-- Bytes written behind a range are behind it.
slice-overwrite_tail :
    (storage : Bytes) (start end : ℕ) (bytes : Bytes)
    → start ≤ end
    → end + length bytes ≤ length storage
    → slice (overwrite storage end bytes) start (end + length bytes)
      ≡ slice storage start end ++ bytes
slice-overwrite_tail storage start end bytes le h =
    let rest = drop (end + length bytes) storage in
    let cut : drop start (overwrite storage end bytes)
        ≡ slice storage start end ++ (bytes ++ rest) =
      drop-append-le start (take end storage) (bytes ++ rest)
        (omega (arith, length-take end storage))
      ∙ ap (λ (t : Bytes). t ++ (bytes ++ rest)) (drop-take start end storage) in
    let count : end + length bytes - start ≡ length (slice storage start end) + (length bytes + 0) =
      omega (arith, length-slice storage start end le (omega arith)) in
    ap (λ (t : Bytes). take (end + length bytes - start) t) cut
    ∙ ap (λ (k : ℕ). take k (slice storage start end ++ (bytes ++ rest))) count
    ∙ take-append-add (slice storage start end) (bytes ++ rest) (length bytes + 0)
    ∙ ap (λ (t : Bytes). slice storage start end ++ t)
        (take-append-add bytes rest 0 ∙ append-nil bytes)

extend_tail-fits :
    (n : ℕ) (p : PacketBuf)
    → p.end + n ≤ packet_capacity
    → extend_tail n p ≡ some (record p { end = p.end + n })
unfolding extend_tail
extend_tail-fits n p h = ground arith

extend_tail-over : (n : ℕ) (p : PacketBuf) → packet_capacity < p.end + n → extend_tail n p ≡ none
unfolding extend_tail
extend_tail-over n p h = ground arith

-- Prepending bytes to a buffer with headroom for them puts them in front of its content; without
-- that much headroom the buffer is refused.
pub fill_front_lem :
    (bytes : Bytes) (p : PacketBuf)
    → IsValid p
    → (length bytes ≤ p.start
        → (q : PacketBuf) × (fill_front bytes p ≡ some q)
          × (as_slice q ≡ bytes ++ as_slice p)
          × (q.end ≡ p.end)
          × IsValid q)
      × (p.start < length bytes → fill_front bytes p ≡ none)
unfolding fill_front prepend
fill_front_lem bytes p v = (
  λ room.
      let at = p.start - length bytes in
      let back : at + length bytes ≡ p.start = omega arith in
      (
        record p { storage = overwrite p.storage at bytes; start = at },
        let fits : ltb p.start (length bytes) ≡ false = ground arith in rw (fits, fill_front) refl,
        slice-overwrite_front p.storage at p.end bytes (omega arith) (omega arith)
            ∙ ap (λ (k : ℕ). bytes ++ slice p.storage k p.end) back,
        refl,
        omega (arith, length-overwrite p.storage at bytes),
      ),
  λ short.
      let over : ltb p.start (length bytes) ≡ true = ground arith in rw (over, fill_front) refl,
)

-- Bytes written to the tail of a buffer with room for them stand behind its content; without that
-- much room the buffer is refused.
pub fill_tail_lem :
    (bytes : Bytes) (p : PacketBuf)
    → IsValid p
    → (p.end + length bytes ≤ packet_capacity
        → (q : PacketBuf) × (fill_tail bytes p ≡ some q)
          × (as_slice q ≡ as_slice p ++ bytes)
          × (q.start ≡ p.start)
          × (q.end ≡ p.end + length bytes)
          × IsValid q)
      × (packet_capacity < p.end + length bytes → fill_tail bytes p ≡ none)
unfolding fill_tail
fill_tail_lem bytes p v = (
  λ room. (
    record p { storage = overwrite p.storage p.end bytes; end = p.end + length bytes },
    rw (extend_tail-fits (length bytes) p room, fill_tail) refl,
    slice-overwrite_tail p.storage p.start p.end bytes v.ordered (omega arith),
    refl,
    refl,
    omega (arith, length-overwrite p.storage p.end bytes),
  ),
  λ short. rw (extend_tail-over (length bytes) p short, fill_tail) refl,
)

pub prepend-fits :
    (n : ℕ) (p : PacketBuf) → n ≤ p.start → prepend n p ≡ some (record p { start = p.start - n })
unfolding prepend
prepend-fits n p h = ground arith

pub trim_front-fits :
    (n : ℕ) (p : PacketBuf)
    → n ≤ p.end - p.start
    → trim_front n p ≡ some (record p { start = p.start + n })
unfolding trim_front
trim_front-fits n p h = ground arith
