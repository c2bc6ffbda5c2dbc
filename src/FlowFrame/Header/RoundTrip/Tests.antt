-- ===== src/FlowFrame/Header/RoundTrip/Tests.antt =====
-- The theorems on frames, applied.
use csqtt_antinet_module.FlowFrame.Header.{
  frame_len, FrameHeader, header_bytes, encode, decode, payload, InRange,
}
use csqtt_antinet_module.FlowFrame.Header.RoundTrip.{decode-encode}
use csqtt_antinet_module.Prelude.{to_be}
use csqtt_antinet_module.Prelude.{
  ◌≤◌, ◌<◌, ◌≡◌, ◌⊎◌, true, false, some, [], ◌∷◌, ◌++◌, arith, length, drop, replicate, Bytes,
  IsBytes,
}

abbrev sample : FrameHeader
sample = record { sender_id = 7; flow_id = 9; sequence = 4294967295 }

sample-InRange : InRange sample
sample-InRange = record { sender = omega arith; flow = omega arith; seq = omega arith }

abbrev room : Bytes
room = replicate 26 1

abbrev written : Bytes
written = header_bytes sample ++ (1 ∷ 1 ∷ [])

decode-encode_example :
    ((frame_len ≤ length room)
      × ((encode sample room).1 ≡ true)
      × (decode (encode sample room).0 ≡ some (sample, drop frame_len room))
      × (payload (encode sample room).0 ≡ drop frame_len room))
    ⊎ ((length room < frame_len) × (encode sample room ≡ (room, false)))
decode-encode_example = decode-encode sample room sample-InRange

written-IsBytes : IsBytes written
unfolding header_bytes to_be
written-IsBytes = (
  omega arith,
  (
    omega arith,
    (
      omega arith,
      (
        omega arith,
        (
          omega arith,
          (
            omega arith,
            (
              omega arith,
              (
                omega arith,
                (
                  omega arith,
                  (
                    omega arith,
                    (
                      omega arith,
                      (
                        omega arith,
                        (
                          omega arith,
                          (
                            omega arith,
                            (
                              omega arith,
                              (
                                omega arith,
                                (
                                  omega arith,
                                  (
                                    omega arith,
                                    (
                                      omega arith,
                                      (
                                        omega arith,
                                        (
                                          omega arith,
                                          (
                                            omega arith,
                                            (
                                              omega arith,
                                              (omega arith, (omega arith, (omega arith, tt))),
                                            ),
                                          ),
                                        ),
                                      ),
                                    ),
                                  ),
                                ),
                              ),
                            ),
                          ),
                        ),
                      ),
                    ),
                  ),
                ),
              ),
            ),
          ),
        ),
      ),
    ),
  ),
)
