-- ===== src/Protocol/Commands.antt =====
-- A stream command is read back as it is written, and what is read is in range.
use csqtt_antinet_module.Prelude.{to_be, from_be-to_be}
use csqtt_antinet_module.Protocol.{
  StreamRepairCommand, read_ids, parse_command, parse_stream_command, max_stream_workers,
}
use csqtt_antinet_module.Prelude.{
  ℕ, ◌*◌, ◌/◌, ◌%◌, ◌≤◌, ◌<◌, ◌≡◌, refl, ap, true, false, some, List, [], ◌∷◌, ◌++◌, arith, ltb,
  ◌==◌, ==_iff, length, drop, drop-length-append, All, Bytes, u64_mod, slice, byte, be16, be16_at,
  from_be, starts_with,
}

-- The worker is one of the desired ones.
abbrev pub IsWorker : ℕ → ℕ → Type 0
IsWorker desired_count id = (0 < id) × (id ≤ desired_count)

pub record IsCommand (c : StreamRepairCommand) : Type 0 where
  pub sequence : (0 < c.sequence) × (c.sequence < u64_mod)
  pub desired : (0 < c.desired_count) × (c.desired_count ≤ 126)
  pub workers : All (IsWorker c.desired_count) c.worker_ids
  pub count : (0 < length c.worker_ids) × (length c.worker_ids ≤ 255)

unfoldable pub id_bytes : List ℕ → Bytes
id_bytes [] = []
id_bytes (id ∷ ids) = (id / 256) ∷ (id % 256) ∷ id_bytes ids

-- A command on the wire, behind its prefix.
abbrev pub command_bytes : StreamRepairCommand → Bytes
command_bytes c =
    to_be 8 c.sequence
    ++ ((c.desired_count / 256)
        ∷ (c.desired_count % 256)
        ∷ length c.worker_ids
        ∷ id_bytes c.worker_ids)

read_ids-id_bytes :
    (d : ℕ) (ids : List ℕ) → All (IsWorker d) ids → read_ids d (id_bytes ids) ≡ some ids
unfolding id_bytes read_ids
read_ids-id_bytes d [] h = refl
read_ids-id_bytes d (id ∷ ids) h =
    let value : be16 (id / 256) (id % 256) ≡ id = omega arith in
    let positive : (id == 0) ≡ false = ground (arith, h.0.0) in
    let within : ltb d id ≡ false = ground (arith, h.0.1) in
    rw (value, positive, within, read_ids-id_bytes d ids h.1) (ap (λ (k : ℕ). some (k ∷ ids)) value)

length-id_bytes : (ids : List ℕ) → length (id_bytes ids) ≡ length ids * 2
unfolding id_bytes
length-id_bytes [] = refl
length-id_bytes (id ∷ ids) = omega (arith, length-id_bytes ids)

starts_with-append : (p q : Bytes) → starts_with (p ++ q) p ≡ true
unfolding starts_with
starts_with-append [] q = refl
starts_with-append (b ∷ p) q = rw ((==_iff b b).1 refl) (starts_with-append p q)

parse_command-fields :
    (rest : Bytes) (c : StreamRepairCommand)
    → IsCommand c
    → 11 ≤ length rest
    → from_be (slice rest 0 8) ≡ c.sequence
    → be16_at rest 8 ≡ c.desired_count
    → byte rest 10 ≡ length c.worker_ids
    → drop 11 rest ≡ id_bytes c.worker_ids
    → parse_command rest ≡ some c
unfolding parse_command
parse_command-fields rest c v long s d n ids =
    let (s_low, s_high) = v.sequence in
    let (d_low, d_high) = v.desired in
    let (n_low, n_high) = v.count in
    let enough : ltb (length rest) 11 ≡ false = ground (arith, long) in
    let s_ok : (from_be (slice rest 0 8) == 0) ≡ false = ground (arith, s, s_low) in
    let d_ok : (be16_at rest 8 == 0) ≡ false = ground (arith, d, d_low) in
    let d_fits : ltb max_stream_workers (be16_at rest 8) ≡ false = ground (arith, d, d_high) in
    let size : (length (drop 11 rest) == byte rest 10 * 2) ≡ true =
      ground (arith, ap length ids, length-id_bytes c.worker_ids, n) in
    let some_ids : (length c.worker_ids == 0) ≡ false = ground (arith, n_low) in
    let read : read_ids (be16_at rest 8) (drop 11 rest) ≡ some c.worker_ids =
      rw (d, ids) (read_ids-id_bytes c.desired_count c.worker_ids v.workers) in
    rw (enough, s_ok, d_ok, d_fits, size, read, some_ids, s, d, parse_command) refl

parse_command-command_bytes :
    (c : StreamRepairCommand) → IsCommand c → parse_command (command_bytes c) ≡ some c
unfolding to_be
parse_command-command_bytes c v =
    let (s_low, s_high) = v.sequence in
    let (d_low, d_high) = v.desired in
    parse_command-fields (command_bytes c) c v (omega arith)
      (from_be-to_be 8 c.sequence (omega (arith, s_high))) (omega arith) refl refl

-- A command with its prefix in front is read back, by the reader of that prefix.
pub parse_stream_command-command_bytes :
    (prefix : Bytes) (c : StreamRepairCommand)
    → IsCommand c
    → parse_stream_command (prefix ++ command_bytes c) prefix ≡ some c
unfolding parse_stream_command
parse_stream_command-command_bytes prefix c v =
    rw (starts_with-append prefix (command_bytes c), drop-length-append prefix (command_bytes c))
      (parse_command-command_bytes c v)
