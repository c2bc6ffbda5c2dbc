-- ===== src/Packet/Buf/Ranges/Tests.antt =====
-- The theorems on packet buffers, applied.
use csqtt_antinet_module.Packet.Buf.{PacketBuf, prepend}
use csqtt_antinet_module.Packet.Buf.Ranges.{IsValid, Op, apply-IsValid}
use csqtt_antinet_module.Prelude.{ℕ, refl, arith, replicate, length-replicate}

buffer : PacketBuf
buffer = record { storage = replicate 2304 0; start = 64; end = 69 }

buffer-IsValid : IsValid buffer
unfolding buffer
buffer-IsValid = record {
  storage = length-replicate {A = ℕ} 2304 0;
  ordered = omega arith;
  inside = omega arith;
}

moved : PacketBuf
moved = record buffer { start = 60 }

apply-IsValid_example : IsValid moved
unfolding prepend moved buffer
apply-IsValid_example = apply-IsValid (Op.front 4) buffer {q = moved} buffer-IsValid refl
