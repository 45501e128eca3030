-- ===== src/Session/Errors.antt =====
-- Errors of the session manager (`ManagerError` in bin/longtrader-worker/src/session/mod.rs).
-- A `Complaint` stands for the text of an `InvalidArgument`, with the values that the text names.
use longtrader.Prelude.{String, List, Option}
use longtrader.Prelude.Int.{ℤ}
use longtrader.Ports.{PortError}
use longtrader.Session.State.{SessionState}
use longtrader.Session.Lease.{LeaseError}

pub data Complaint : Type 0 where
  bad_lease : LeaseError → Complaint
  unknown_scope : ℤ → Complaint
  session_is_terminal : String → Complaint
  session_has_invalid_state : String → Complaint
  attached_by_other : String → String → String → String → Complaint
  cannot_begin : String → SessionState → Complaint
  cannot_complete : String → SessionState → Complaint

-- One refused or timed-out cancel: the order id, and the venue's error if it answered.
pub record CancelFailure : Type 0 where
  pub coid : String
  pub reason : Option PortError

pub data ManagerError : Type 0 where
  not_found : String → ManagerError
  unauthenticated : ManagerError
  invalid_argument : Complaint → ManagerError
  sync_in_progress : String → Option SessionState → ManagerError
  cancels_failed : String → Option SessionState → List CancelFailure → ManagerError
  port : PortError → ManagerError
