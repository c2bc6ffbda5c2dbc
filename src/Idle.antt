-- ===== src/Idle.antt =====
-- idle.rs: how many workers are kept while there is no traffic, and the epochs that the server is
-- told of. The clock is an argument; the notifications that wake the tasks are left out.
pub mod Epoch
pub mod Losses
mod Alone
mod Tests
use csqtt_antinet_module.Prelude.{
  ℕ, zero, suc, [], ◌∷◌, ◌+◌, ◌-◌, ◌*◌, ◌/◌, ◌%◌, bit_and, Bool, true, false, not, ◌&&◌, ◌||◌, none,
  some, List, ltb, leb, ◌==◌, if◌then◌else◌, length, get_elem?, set, replicate, Bytes, u64_mod,
  u64_max, saturating_add, byte,
}

abbrev pub exit_packets : ℕ
exit_packets = 12

abbrev pub exit_packets_window_ms : ℕ
exit_packets_window_ms = 1000

abbrev pub exit_syns : ℕ
exit_syns = 3

abbrev pub exit_syns_window_ms : ℕ
exit_syns_window_ms = 3000

abbrev pub joined_slots : ℕ
joined_slots = 127

-- The statics of the module.
pub record Idle : Type 0 where
  pub limit : ℕ
  pub active : Bool
  pub total_workers : ℕ
  pub declared : ℕ
  pub gen_offset : ℕ
  pub announce : ℕ
  pub packet_start : ℕ
  pub packet_count : ℕ
  pub syn_start : ℕ
  pub syn_count : ℕ
  pub joined : List ℕ

-- `fetch_add(1)`
abbrev pub bumped : ℕ → ℕ
bumped n = (n + 1) % u64_mod

pub reset : ℕ → Idle → Idle
reset total_workers s = record s {
  total_workers = total_workers;
  declared = total_workers;
  limit = u64_max;
  active = false;
  gen_offset = 0;
  announce = 0;
  joined = replicate joined_slots 0;
}

pub note_path_joined : (worker_id offset : ℕ) → Idle → Idle
note_path_joined worker_id offset s = elim (get_elem? s.joined worker_id) [
  | none ↦ s
  | some j ↦
      if worker_id == 0
      then s
      else record s { joined = set s.joined worker_id (saturating_add offset 1) }
]

pub allows : Idle → ℕ → Bool
allows s worker_id = leb worker_id s.limit

-- Between which of its atomic operations a call of `note_path_lost` is: `called` before `allows`,
-- `admitted` before it loads the slot, `loaded` before it loads `GEN_OFFSET`, `expecting` before the
-- compare-exchange, `opened` before it clears the slot, `cleared` before it bumps `ANNOUNCE`.
pub data LostStage : Type 0 where
  called admitted : LostStage
  loaded : (joined : ℕ) → LostStage
  expecting : (current : ℕ) → LostStage
  opened cleared returned : LostStage

pub record LostCall : Type 0 where
  pub worker_id : ℕ
  pub stage : LostStage

-- `GEN_OFFSET.compare_exchange(current, new, ...)`, and whether it succeeds.
pub compare_exchange : (current new : ℕ) → Idle → Bool × Idle
compare_exchange current new s =
    if s.gen_offset == current then (true, record s { gen_offset = new }) else (false, s)

-- One atomic operation of a call, with the tests up to the next one.
pub lost_step : (worker_id : ℕ) → LostStage → Idle → LostStage × Idle
lost_step worker_id called s = (if not (allows s worker_id) then returned else admitted, s)
lost_step worker_id admitted s = elim (get_elem? s.joined worker_id) [
  | none ↦ (returned, s)
  | some joined ↦ (if joined == 0 then returned else loaded joined, s)
]
lost_step worker_id (loaded joined) s =
    (if not (joined - 1 == s.gen_offset) then returned else expecting s.gen_offset, s)
lost_step worker_id (expecting current) s =
    let (won, t) = compare_exchange current (saturating_add current 1) s in
    (if won then opened else returned, t)
lost_step worker_id opened s = (cleared, record s { joined = set s.joined worker_id 0 })
lost_step worker_id cleared s = (returned, record s { announce = bumped s.announce })
lost_step worker_id returned s = (returned, s)

pub lost_steps : (steps worker_id : ℕ) → LostStage → Idle → LostStage × Idle
lost_steps zero worker_id stage s = (stage, s)
lost_steps (suc steps) worker_id stage s =
    let (next, t) = lost_step worker_id stage s in lost_steps steps worker_id next t

-- A call that no other task comes between: it has six operations at most.
pub note_path_lost : ℕ → Idle → Idle
note_path_lost worker_id s = (lost_steps 6 worker_id called s).1

-- Calls that run at the same time: a schedule says which one does its next operation.
pub interleaved : (schedule : List ℕ) → List LostCall → Idle → List LostCall × Idle
interleaved [] calls s = (calls, s)
interleaved (i ∷ schedule) calls s = elim (get_elem? calls i) [
  | none ↦ interleaved schedule calls s
  | some c ↦
      let (next, t) = lost_step c.worker_id c.stage s in
      interleaved schedule (set calls i (record c { stage = next })) t
]

pub declared_count : Idle → ℕ
declared_count s = if s.declared == 0 then s.total_workers else s.declared

pub generation : ℕ → Idle → ℕ
generation base s = saturating_add base s.gen_offset

pub enter : ℕ → Idle → Idle
enter keep s =
    if (keep == 0) || (s.total_workers == 0) || leb s.total_workers keep
    then s
    else if s.active
    then s
    else record s {
      active = true;
      limit = keep;
      declared = keep;
      gen_offset = bumped s.gen_offset;
      announce = bumped s.announce;
      packet_count = 0;
      syn_count = 0;
    }

pub exit : Idle → Idle
exit s = if not s.active then s else record s {
  active = false;
  limit = u64_max;
  declared = s.total_workers;
  announce = bumped s.announce;
}

pub is_tcp_syn : Bytes → Bool
is_tcp_syn packet =
    let ihl = byte packet 0 % 16 * 4 in
    let flags = byte packet (ihl + 13) in
    if ltb (length packet) 20 || not (byte packet 0 / 16 == 4) || not (byte packet 9 == 6)
    then false
    else if ltb ihl 20 || ltb (length packet) (ihl + 14)
    then false
    else not (bit_and flags 0x02 == 0) && (bit_and flags 0x10 == 0)

-- The window's start and count afterwards, and whether the limit is reached.
pub window_hit : (start count now_ms window_ms limit : ℕ) → (ℕ × ℕ) × Bool
window_hit start count now_ms window_ms limit =
    if ltb window_ms (now_ms - start)
    then ((now_ms, 1), leb limit 1)
    else ((start, bumped count), leb limit (bumped count))

-- The window over every packet.
abbrev pub note_packet : (now_ms : ℕ) → Idle → Idle
note_packet now_ms s =
    let (window, hit) =
      window_hit s.packet_start s.packet_count now_ms exit_packets_window_ms exit_packets in
    let t : Idle = record s { packet_start = window.0; packet_count = window.1 } in
    if hit then exit t else t

pub note_uplink : (packet : Bytes) (now_ms : ℕ) → Idle → Idle
note_uplink packet now_ms s =
    let (window, hit) = window_hit s.syn_start s.syn_count now_ms exit_syns_window_ms exit_syns in
    let t : Idle = record s { syn_start = window.0; syn_count = window.1 } in
    if not s.active
    then s
    else if not (is_tcp_syn packet)
    then note_packet now_ms s
    else if hit
    then exit t
    else note_packet now_ms t

pub should_enter : (quiet_for after : ℕ) → Bool → Bool
should_enter quiet_for after active = not active && leb after quiet_for
