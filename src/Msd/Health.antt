-- ===== src/Msd/Health.antt =====
-- src/msd/monitor.rs, `MsdHealthMonitor`. The throttler thins out log lines and is left out.
use one_kvm_stream_box.Base.{ℕ, ◌+◌, Bool, true, false, Option, none, some, u32}
use Prim.Native.String.{String}

pub data MsdHealthStatus : Type 0 where
  healthy : MsdHealthStatus
  error : (reason error_code : String) → MsdHealthStatus

pub record MsdHealthMonitor : Type 0 where
  pub status : MsdHealthStatus
  pub error_count : ℕ
  pub last_error_code : Option String

abbrev pub new_monitor : MsdHealthMonitor
new_monitor = record { status = healthy; error_count = 0; last_error_code = none }

unfoldable pub report_error : String → String → MsdHealthMonitor → MsdHealthMonitor
report_error reason error_code m = record {
  status = error reason error_code;
  error_count = u32 (m.error_count + 1);
  last_error_code = some error_code;
}

abbrev pub recovered_from : MsdHealthStatus → MsdHealthMonitor → MsdHealthMonitor
recovered_from healthy m = m
recovered_from (error reason error_code) m = new_monitor

unfoldable pub report_recovered : MsdHealthMonitor → MsdHealthMonitor
report_recovered m = recovered_from m.status m

abbrev pub error_of : MsdHealthStatus → Bool
error_of healthy = false
error_of (error reason error_code) = true

unfoldable pub is_error : MsdHealthMonitor → Bool
is_error m = error_of m.status

abbrev message_of : MsdHealthStatus → Option String
message_of healthy = none
message_of (error reason error_code) = some reason

unfoldable pub error_message : MsdHealthMonitor → Option String
error_message m = message_of m.status
