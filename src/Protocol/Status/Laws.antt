-- ===== src/Protocol/Status/Laws.antt =====
-- Which exception a status line becomes.
use dflockd_client_py.Base.{◌≡◌, ◌≢◌, true, Str, codes, arith}
use dflockd_client_py.Errors.{
  ErrorClass, dflockd_error, auth_error, max_locks_error, max_waiters_error, limit_mismatch_error,
  not_queued_error, already_queued_error, lease_expired_error, draining_error, failed, raised,
  class_of, is_subclass,
}
use dflockd_client_py.Protocol.Status.{status_error}

-- The status words that the protocol documents.
pub data Code : Type 0 where
  auth max_locks max_waiters limit_mismatch not_enqueued : Code
  already_enqueued lease_expired draining : Code

pub wire : Code → Str
wire auth = codes "error_auth"
wire max_locks = codes "error_max_locks"
wire max_waiters = codes "error_max_waiters"
wire limit_mismatch = codes "error_limit_mismatch"
wire not_enqueued = codes "error_not_enqueued"
wire already_enqueued = codes "error_already_enqueued"
wire lease_expired = codes "error_lease_expired"
wire draining = codes "error_draining"

pub documented : Code → ErrorClass
documented auth = auth_error
documented max_locks = max_locks_error
documented max_waiters = max_waiters_error
documented limit_mismatch = limit_mismatch_error
documented not_enqueued = not_queued_error
documented already_enqueued = already_queued_error
documented lease_expired = lease_expired_error
documented draining = draining_error

status_error-wire :
    (op : Str) (c : Code) → status_error op (wire c) ≡ raised (documented c) (failed op (wire c))
unfolding wire documented status_error
status_error-wire op auth = ground arith
status_error-wire op _ = ground arith

-- `status_error` makes of each of the eight documented status words the exception of its class
-- and of every other line a `DflockdError`; the message has the operation and the line.
pub status_error_classes :
    (op resp : Str)
    → ((c : Code) → resp ≡ wire c → status_error op resp ≡ raised (documented c) (failed op resp))
      × (((c : Code) → resp ≢ wire c)
          → status_error op resp ≡ raised dflockd_error (failed op resp))
unfolding status_error wire
status_error_classes op resp = (
  λ c e. rw e (status_error-wire op c),
  λ h. ground (
    arith,
    h auth,
    h max_locks,
    h max_waiters,
    h limit_mismatch,
    h not_enqueued,
    h already_enqueued,
    h lease_expired,
    h draining,
  ),
)

-- Whatever the line, the exception is a `DflockdError`.
pub status_error-dflockd :
    (op resp : Str) → is_subclass (class_of (status_error op resp)) dflockd_error ≡ true
unfolding status_error is_subclass
status_error-dflockd op resp = ground arith
