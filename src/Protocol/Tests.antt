-- ===== src/Protocol/Tests.antt =====
-- `parse_stream_command-command_bytes`, applied.
use csqtt_antinet_module.Protocol.{stream_repair_prefix, StreamRepairCommand, parse_stream_command}
use csqtt_antinet_module.Protocol.Commands.{
  IsCommand, command_bytes, parse_stream_command-command_bytes,
}
use csqtt_antinet_module.Prelude.{◌≡◌, some, [], ◌∷◌, ◌++◌, arith}

abbrev command : StreamRepairCommand
command = record { sequence = 300; desired_count = 4; worker_ids = 1 ∷ 3 ∷ [] }

command-IsCommand : IsCommand command
command-IsCommand = record {
  sequence = (omega arith, omega arith);
  desired = (omega arith, omega arith);
  workers = ((omega arith, omega arith), ((omega arith, omega arith), tt));
  count = (omega arith, omega arith);
}

parse_stream_command-command_bytes_example :
    parse_stream_command (stream_repair_prefix ++ command_bytes command) stream_repair_prefix
    ≡ some command
parse_stream_command-command_bytes_example =
    parse_stream_command-command_bytes stream_repair_prefix command command-IsCommand
