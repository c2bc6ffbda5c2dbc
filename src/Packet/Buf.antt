-- ===== src/Packet/Buf.antt =====
-- `PacketBuf` of packet.rs: a range in 2304 bytes of storage. The slice that an operation hands out
-- is written by its caller; `fill_front` and `fill_tail` are such writes.
pub mod Ranges
use csqtt_antinet_module.Prelude.{
  ℕ, ◌+◌, ◌-◌, ◌||◌, Option, none, some, ◌++◌, ltb, leb, if◌then◌else◌, length, take, drop, Bytes,
  u64_max, slice,
}

abbrev pub packet_headroom : ℕ
packet_headroom = 64

abbrev pub packet_capacity : ℕ
packet_capacity = 2304

pub record PacketBuf : Type 0 where
  pub storage : Bytes
  pub start : ℕ
  pub end : ℕ

-- A buffer as `try_acquire` hands it out.
pub fresh : Bytes → PacketBuf
fresh storage = record { storage = storage; start = packet_headroom; end = packet_headroom }

-- `self.range.len()`: 0 for a range that runs backwards.
abbrev pub len : PacketBuf → ℕ
len p = p.end - p.start

abbrev pub as_slice : PacketBuf → Bytes
as_slice p = slice p.storage p.start p.end

-- `storage[at..at + bytes.len()].copy_from_slice(bytes)`
abbrev pub overwrite : Bytes → ℕ → Bytes → Bytes
overwrite storage at bytes = take at storage ++ (bytes ++ drop (at + length bytes) storage)

pub set_read_len : ℕ → PacketBuf → Option PacketBuf
set_read_len n p =
    if ltb (packet_capacity - packet_headroom) n
    then none
    else some (record p { start = packet_headroom; end = packet_headroom + n })

pub prepend : ℕ → PacketBuf → Option PacketBuf
prepend n p = if ltb p.start n then none else some (record p { start = p.start - n })

-- `checked_add` of `usize`
abbrev pub checked_add : ℕ → ℕ → Option ℕ
checked_add a b = if leb (a + b) u64_max then some (a + b) else none

pub extend_tail : ℕ → PacketBuf → Option PacketBuf
extend_tail n p = elim (checked_add p.end n) [
  | none ↦ none
  | some end ↦ if ltb packet_capacity end then none else some (record p { end = end })
]

pub trim_front : ℕ → PacketBuf → Option PacketBuf
trim_front n p = if ltb (len p) n then none else some (record p { start = p.start + n })

pub truncate : ℕ → PacketBuf → Option PacketBuf
truncate n p = if ltb (len p) n then none else some (record p { end = p.start + n })

pub set_range : ℕ → ℕ → PacketBuf → Option PacketBuf
set_range start end p =
    if ltb end start || ltb packet_capacity end
    then none
    else some (record p { start = start; end = end })

-- `prepend(n)?.copy_from_slice(bytes)` and `extend_tail(n)?.copy_from_slice(bytes)`, for as many bytes.
pub fill_front : Bytes → PacketBuf → Option PacketBuf
fill_front bytes p = elim (prepend (length bytes) p) [
  | none ↦ none
  | some q ↦ some (record q { storage = overwrite q.storage q.start bytes })
]

pub fill_tail : Bytes → PacketBuf → Option PacketBuf
fill_tail bytes p = elim (extend_tail (length bytes) p) [
  | none ↦ none
  | some q ↦ some (record q { storage = overwrite q.storage p.end bytes })
]
