-- ===== src/Recovery.antt =====
-- worker.rs: `RecoveryLogGate`, which gathers the messages on lost workers into a few reports. A
-- call is one step: a compare-exchange that fails only goes around the loop again.
pub mod Reports
use csqtt_antinet_module.Prelude.{
  ℕ, ◌+◌, ◌%◌, max, not, ◌&&◌, Option, none, some, ltb, ◌==◌, if◌then◌else◌, u64_mod,
  saturating_add,
}

abbrev pub recovery_log_interval_ms : ℕ
recovery_log_interval_ms = 10000

pub record RecoveryLogGate : Type 0 where
  pub pending : ℕ
  pub next_report_ms : ℕ

abbrev pub new : RecoveryLogGate
new = record { pending = 0; next_report_ms = 0 }

-- What is to be reported, and the gate after.
pub observe : (now_ms : ℕ) → RecoveryLogGate → Option ℕ × RecoveryLogGate
observe now_ms g =
    let counted = (g.pending + 1) % u64_mod in
    if not (g.next_report_ms == 0) && ltb now_ms g.next_report_ms
    then (none, record g { pending = counted })
    else (
      some counted,
      record {
        pending = 0;
        next_report_ms = max (saturating_add now_ms recovery_log_interval_ms) 1;
      },
    )
