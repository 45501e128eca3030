-- ===== src/Session/Proxy/Errors.antt =====
-- The errors of the proxies (bin/longtrader-worker/src/session/proxy.rs). The reading of a gRPC status
-- number is the RPC crate's, a parameter; the text of an error that the proxy renders itself is left out.
use longtrader.Prelude.{ℕ, Option, none, some, String}
use longtrader.Ports.{
  PortError, transport, rpc, unsupported, missing_field, invalid_argument, not_found, decimal,
}
use Prim.Native.String.{◌++◌ as str_append}

-- `connectrpc::ErrorCode`
pub data ErrorCode : Type 0 where
  code_canceled code_unknown code_invalid_argument code_deadline_exceeded code_not_found : ErrorCode
  code_already_exists code_permission_denied code_resource_exhausted : ErrorCode
  code_failed_precondition code_aborted code_out_of_range code_unimplemented : ErrorCode
  code_internal code_unavailable code_data_loss code_unauthenticated : ErrorCode

pub record ConnectError : Type 0 where
  pub code : ErrorCode
  pub message : Option String

abbrev pub refuse : ErrorCode → String → ConnectError
refuse code message = record { code = code; message = some message }

-- `out_of_range` has no constructor of its own, and an unknown status is an internal error.
unfoldable pub rpc_code_to_connect : (ℕ → Option ErrorCode) → ℕ → String → ConnectError
rpc_code_to_connect from_grpc_code number message = elim (from_grpc_code number) [
  | none ↦ refuse code_internal message
  | some code_unknown ↦ refuse code_internal message
  | some code_out_of_range ↦ refuse code_invalid_argument message
  | some code_canceled ↦ refuse code_canceled message
  | some code_invalid_argument ↦ refuse code_invalid_argument message
  | some code_deadline_exceeded ↦ refuse code_deadline_exceeded message
  | some code_not_found ↦ refuse code_not_found message
  | some code_already_exists ↦ refuse code_already_exists message
  | some code_permission_denied ↦ refuse code_permission_denied message
  | some code_resource_exhausted ↦ refuse code_resource_exhausted message
  | some code_failed_precondition ↦ refuse code_failed_precondition message
  | some code_aborted ↦ refuse code_aborted message
  | some code_unimplemented ↦ refuse code_unimplemented message
  | some code_internal ↦ refuse code_internal message
  | some code_unavailable ↦ refuse code_unavailable message
  | some code_data_loss ↦ refuse code_data_loss message
  | some code_unauthenticated ↦ refuse code_unauthenticated message
]

unfoldable pub map_port : (ℕ → Option ErrorCode) → PortError → ConnectError
unfolding rpc_code_to_connect
map_port from_grpc_code (invalid_argument m) = refuse code_invalid_argument m
map_port from_grpc_code (missing_field m) =
    refuse code_invalid_argument (str_append "missing required field: " m)
map_port from_grpc_code (not_found m) = refuse code_not_found m
map_port from_grpc_code (unsupported m) = refuse code_unimplemented m
map_port from_grpc_code (rpc number m) = rpc_code_to_connect from_grpc_code number m
map_port from_grpc_code (transport m) = record { code = code_internal; message = none }
map_port from_grpc_code (decimal e) = record { code = code_internal; message = none }

unfoldable pub not_implemented : String → ConnectError
not_implemented what = refuse code_unimplemented (
    str_append "this backend does not expose '"
      (str_append what "'; use the mock backend or a venue-native daemon"))
