-- ===== src/Dispatcher/FastPath.antt =====
-- `FastPathScheduler`: a round robin over the workers for each class of packets.
pub mod Fair
use csqtt_antinet_module.Scheduler.Classes.{
  PacketClass, small, medium, bulk, stream_chunk, DispatchTicket, packet_class,
}
use csqtt_antinet_module.Prelude.{
  ℕ, ◌+◌, ◌-◌, not, Option, none, some, List, [], ◌==◌, if◌then◌else◌, length, Bytes,
}

pub record RoundRobinCursor : Type 0 where
  pub current_worker : ℕ
  pub remaining : ℕ

abbrev pub start : RoundRobinCursor
start = record { current_worker = 0; remaining = 0 }

-- `[RoundRobinCursor; 3]`, by `PacketClass::index`.
pub record Cursors : Type 0 where
  pub of_small : RoundRobinCursor
  pub of_medium : RoundRobinCursor
  pub of_bulk : RoundRobinCursor

abbrev pub start_cursors : Cursors
start_cursors = record { of_small = start; of_medium = start; of_bulk = start }

unfoldable pub cursor : PacketClass → Cursors → RoundRobinCursor
cursor small cs = cs.of_small
cursor medium cs = cs.of_medium
cursor bulk cs = cs.of_bulk

unfoldable pub set_cursor : PacketClass → RoundRobinCursor → Cursors → Cursors
set_cursor small c cs = record cs { of_small = c }
set_cursor medium c cs = record cs { of_medium = c }
set_cursor bulk c cs = record cs { of_bulk = c }

-- `begin_for_class` on the cursor of the class, for at least one worker.
abbrev pub advance : (worker_count chunk : ℕ) → RoundRobinCursor → RoundRobinCursor
advance worker_count chunk c =
    let remaining = (if c.remaining == 0 then chunk else c.remaining) - 1 in
    let following = c.current_worker + 1 in
    record {
      current_worker =
          if not (remaining == 0)
          then c.current_worker
          else if following == worker_count
          then 0
          else following;
      remaining = remaining;
    }

module _ (W : Type 0) where
  pub record FastPathScheduler : Type 0 where
    pub workers : List W
    pub worker_count : ℕ
    pub cursors : Cursors

  abbrev pub new : FastPathScheduler
  new = record { workers = []; worker_count = 0; cursors = start_cursors }

  pub sync_worker_count : ℕ → FastPathScheduler → FastPathScheduler
  sync_worker_count count s =
      if s.worker_count == count
      then s
      else record s { worker_count = count; cursors = start_cursors }

  pub begin_for_class :
      ℕ → PacketClass → FastPathScheduler → Option DispatchTicket × FastPathScheduler
  begin_for_class count class s =
      let t = sync_worker_count count s in
      let c = cursor class t.cursors in
      if count == 0 then (none, s) else (
        some (record { start_slot = c.current_worker; class = class }),
        record t { cursors = set_cursor class (advance count (stream_chunk class) c) t.cursors },
      )

  -- `begin`: the workers are read again only when a chunk starts.
  pub begin : List W → Bytes → FastPathScheduler → Option DispatchTicket × FastPathScheduler
  begin source packet s =
      let class = packet_class packet in
      let t =
        if (cursor class s.cursors).remaining == 0
        then sync_worker_count (length source) (record s { workers = source })
        else s in
      begin_for_class t.worker_count class t
