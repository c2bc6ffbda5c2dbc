-- ===== src/FlowFrame/Reassembler/Flows/Tests.antt =====
-- The theorems on the reassembler, applied.
use csqtt_antinet_module.FlowFrame.Reassembler.{
  tracked, release_expired, has_sequence, store, shed_flow, settle, append_pending, deliver,
  drain_contiguous, drain, position, swap_remove,
}
use csqtt_antinet_module.FlowFrame.Header.{FrameHeader}
use csqtt_antinet_module.FlowFrame.Reassembler.{
  max_pending_total, FlowReassembler, Work, push_flow, lookup_flow, push_at,
}
use csqtt_antinet_module.FlowFrame.Reassembler.Bounds.{Pushed}
use csqtt_antinet_module.FlowFrame.Reassembler.Flows.{
  IsValid, Call, run, arrivals, run-Pushed, push_at-IsValid, push_at-independent,
}
use csqtt_antinet_module.Prelude.{ℕ, ◌≤◌, ◌≡◌, refl, inr, none, some, List, [], ◌∷◌, arith}

-- A flow of which number 2 waits for number 1.
abbrev waiting_work : Work ℕ
waiting_work = record {
  state = record {
    expected = 1;
    gap_started_ms = some 5;
    pending = record { sequence = 2; value = 20 } ∷ [];
  };
  pending_total = 1;
  output = [];
}

abbrev calls : List (Call ℕ)
calls =
    record { sequence = 3; value = 30; now_ms = 6 }
    ∷ record { sequence = 1; value = 10; now_ms = 7 }
    ∷ []

-- Number 1 releases all three.
run_test : (run calls waiting_work).output ≡ 10 ∷ 20 ∷ 30 ∷ []
unfolding push_flow tracked release_expired has_sequence store shed_flow settle append_pending
    deliver drain_contiguous drain position swap_remove
run_test = refl

run-Pushed_example :
    Pushed (arrivals calls waiting_work) waiting_work (run calls waiting_work)
    × ((run calls waiting_work).pending_total ≤ max_pending_total)
run-Pushed_example = run-Pushed calls waiting_work 0 refl (omega arith)

abbrev two_flows : FlowReassembler ℕ
two_flows = record {
  flows =
      (
        record { sender_id = 1; flow_id = 1 },
        record {
          expected = 1;
          gap_started_ms = some 5;
          pending = record { sequence = 2; value = 20 } ∷ [];
        },
      )
      ∷ (
        record { sender_id = 1; flow_id = 2 },
        record { expected = 4; gap_started_ms = none; pending = [] },
      )
      ∷ [];
  pending_total = 1;
}

two_flows-IsValid : IsValid two_flows
two_flows-IsValid = record { tracked_flows = omega arith; exact = refl; bounded = omega arith }

abbrev header : FrameHeader
header = record { sender_id = 1; flow_id = 1; sequence = 1 }

push_at-IsValid_example : IsValid (push_at header 10 7 two_flows []).0
push_at-IsValid_example = push_at-IsValid header 10 7 two_flows [] two_flows-IsValid

push_at-independent_example :
    lookup_flow (record { sender_id = 1; flow_id = 2 }) (push_at header 10 7 two_flows []).0.flows
    ≡ lookup_flow (record { sender_id = 1; flow_id = 2 }) two_flows.flows
unfolding lookup_flow
push_at-independent_example =
    push_at-independent header 10 7 two_flows [] (record { sender_id = 1; flow_id = 2 })
      (omega arith) (inr (omega arith))
