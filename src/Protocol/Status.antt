-- ===== src/Protocol/Status.antt =====
-- The exception for a response line that is no grant.
pub mod Laws
use dflockd_client_py.Base.{List, [], ◌∷◌, Str, codes, ◌=?◌, if◌then◌else◌}
use dflockd_client_py.Errors.{
  ErrorClass, dflockd_error, auth_error, max_locks_error, max_waiters_error, limit_mismatch_error,
  not_queued_error, already_queued_error, lease_expired_error, draining_error, permission_error,
  failed, Error, raised, Result, err,
}

-- `_STATUS_ERRORS`, in the order of the source.
abbrev pub status_errors : List (Str × ErrorClass)
status_errors =
    (codes "error_auth", auth_error)
    ∷ (codes "error_max_locks", max_locks_error)
    ∷ (codes "error_max_waiters", max_waiters_error)
    ∷ (codes "error_limit_mismatch", limit_mismatch_error)
    ∷ (codes "error_not_enqueued", not_queued_error)
    ∷ (codes "error_already_enqueued", already_queued_error)
    ∷ (codes "error_lease_expired", lease_expired_error)
    ∷ (codes "error_draining", draining_error)
    ∷ []

-- `d.get(key, default)`
unfoldable pub get_class : List (Str × ErrorClass) → Str → ErrorClass → ErrorClass
get_class [] key default = default
get_class ((k, c) ∷ d) key default = if key =? k then c else get_class d key default

unfoldable pub status_error : Str → Str → Error
unfolding get_class
status_error operation resp =
    raised (get_class status_errors resp dflockd_error) (failed operation resp)

unfoldable pub raise_status_error : {A : Type 0} → Str → Str → Result A
unfolding status_error
raise_status_error operation resp = err (status_error operation resp)

unfoldable pub raise_auth_error : {A : Type 0} → Str → Result A
raise_auth_error resp =
    if resp =? codes "error_draining"
    then err (raised draining_error (failed (codes "authentication") resp))
    else err (raised permission_error (failed (codes "authentication") resp))
