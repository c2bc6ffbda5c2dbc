-- ===== src/Protocol.antt =====
-- protocol.rs: what the server sends on the control path, and the two stream commands in it.
pub mod Commands
mod Tests
use csqtt_antinet_module.Prelude.{
  ℕ, ◌*◌, Bool, true, false, not, ◌||◌, Option, none, some, List, [], ◌∷◌, ltb, ◌==◌, if◌then◌else◌,
  length, drop, Bytes, slice, byte, be16, be16_at, from_be, starts_with, bytes_eq,
}

-- b"\xffCSQTT_STREAM_REPAIR_V1" and b"\xffCSQTT_STREAM_ALIVE_V1"
abbrev pub stream_repair_prefix : Bytes
stream_repair_prefix =
    0xff ∷ 67 ∷ 83 ∷ 81 ∷ 84 ∷ 84 ∷ 95 ∷ 83 ∷ 84 ∷ 82 ∷ 69 ∷ 65 ∷ 77 ∷ 95 ∷ 82 ∷ 69 ∷ 80 ∷ 65 ∷ 73
    ∷ 82 ∷ 95 ∷ 86 ∷ 49 ∷ []

abbrev pub stream_alive_prefix : Bytes
stream_alive_prefix =
    0xff ∷ 67 ∷ 83 ∷ 81 ∷ 84 ∷ 84 ∷ 95 ∷ 83 ∷ 84 ∷ 82 ∷ 69 ∷ 65 ∷ 77 ∷ 95 ∷ 65 ∷ 76 ∷ 73 ∷ 86 ∷ 69
    ∷ 95 ∷ 86 ∷ 49 ∷ []

-- b"\xffCSQTT_PANEL_RESTART_V1\x00\x91\x7d\x03\xa8"
abbrev pub panel_restart_notice : Bytes
panel_restart_notice =
    0xff ∷ 67 ∷ 83 ∷ 81 ∷ 84 ∷ 84 ∷ 95 ∷ 80 ∷ 65 ∷ 78 ∷ 69 ∷ 76 ∷ 95 ∷ 82 ∷ 69 ∷ 83 ∷ 84 ∷ 65 ∷ 82
    ∷ 84 ∷ 95 ∷ 86 ∷ 49 ∷ 0 ∷ 0x91 ∷ 0x7d ∷ 0x03 ∷ 0xa8 ∷ []

-- b"TUNCONF:", b"NOCONF", b"DENIED:", b"READY_OK" and b"OK:disconnected"
abbrev pub tunconf : Bytes
tunconf = 84 ∷ 85 ∷ 78 ∷ 67 ∷ 79 ∷ 78 ∷ 70 ∷ 58 ∷ []

abbrev pub noconf : Bytes
noconf = 78 ∷ 79 ∷ 67 ∷ 79 ∷ 78 ∷ 70 ∷ []

abbrev pub denied : Bytes
denied = 68 ∷ 69 ∷ 78 ∷ 73 ∷ 69 ∷ 68 ∷ 58 ∷ []

abbrev pub ready_ok : Bytes
ready_ok = 82 ∷ 69 ∷ 65 ∷ 68 ∷ 89 ∷ 95 ∷ 79 ∷ 75 ∷ []

abbrev pub disconnected : Bytes
disconnected =
    79 ∷ 75 ∷ 58 ∷ 100 ∷ 105 ∷ 115 ∷ 99 ∷ 111 ∷ 110 ∷ 110 ∷ 101 ∷ 99 ∷ 116 ∷ 101 ∷ 100 ∷ []

abbrev pub max_stream_workers : ℕ
max_stream_workers = 126

unfoldable pub any_prefix : List Bytes → Bytes → Bool
any_prefix [] response = false
any_prefix (prefix ∷ prefixes) response =
    starts_with response prefix || any_prefix prefixes response

pub is_config_response : Bytes → Bool
is_config_response response = any_prefix (tunconf ∷ noconf ∷ denied ∷ []) response

pub is_panel_restart_notice : Bytes → Bool
is_panel_restart_notice response = bytes_eq response panel_restart_notice

pub is_control_response : Bytes → Bool
is_control_response response =
    if is_panel_restart_notice response
    then true
    else any_prefix
        (tunconf ∷ noconf ∷ denied ∷ ready_ok ∷ disconnected ∷ stream_repair_prefix
          ∷ stream_alive_prefix ∷ [])
        response

pub record StreamRepairCommand : Type 0 where
  pub sequence : ℕ
  pub desired_count : ℕ
  pub worker_ids : List ℕ

-- The loop over `chunks_exact(2)`; a last odd byte is left out.
unfoldable pub read_ids : (desired_count : ℕ) → Bytes → Option (List ℕ)
read_ids desired_count [] = some []
read_ids desired_count (b ∷ []) = some []
read_ids desired_count (hi ∷ lo ∷ ids) =
    let rest = read_ids desired_count ids in
    if (be16 hi lo == 0) || ltb desired_count (be16 hi lo)
    then none
    else elim rest [ none ↦ none | some worker_ids ↦ some (be16 hi lo ∷ worker_ids) ]

-- `parse_stream_command` behind its prefix.
pub parse_command : Bytes → Option StreamRepairCommand
parse_command rest =
    let desired_count = be16_at rest 8 in
    let sequence = from_be (slice rest 0 8) in
    let ids = drop 11 rest in
    if ltb (length rest) 11
    then none
    else if (sequence == 0)
        || (desired_count == 0)
        || ltb max_stream_workers desired_count
        || not (length ids == byte rest 10 * 2)
    then none
    else elim (read_ids desired_count ids) [
      | none ↦ none
      | some worker_ids ↦
          if length worker_ids == 0
          then none
          else some (record {
            sequence = sequence;
            desired_count = desired_count;
            worker_ids = worker_ids;
          })
    ]

pub parse_stream_command : (payload prefix : Bytes) → Option StreamRepairCommand
parse_stream_command payload prefix =
    if starts_with payload prefix then parse_command (drop (length prefix) payload) else none

pub parse_stream_repair : Bytes → Option StreamRepairCommand
parse_stream_repair payload = parse_stream_command payload stream_repair_prefix

pub parse_stream_alive : Bytes → Option StreamRepairCommand
parse_stream_alive payload = parse_stream_command payload stream_alive_prefix
