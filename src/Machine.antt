-- ===== src/Machine.antt =====
-- What a lock object promises, whichever client it is of: a machine of three states, and the moves
-- that each call may make in it.
pub mod Moves
pub mod Sync
pub mod Async
use dflockd_client_py.Base.{
  if◌then◌else◌, ◌≡◌, refl, Bool, true, false, Option, none, some, ℕ, Str, List, [], ◌∷◌,
}
use dflockd_client_py.Errors.{Error, Result, ok, err, exception, is_subclass, class_of}
use dflockd_client_py.Protocol.Decode.{Enqueued, acquired, queued}

-- The object neither holds nor waits, or it waits in the server's queue, or it has a token.
pub data View : Type 0 where
  free waiting held : View

-- The state of an object with that connection and that token.
abbrev pub view_of : Option ℕ → Option Str → View
view_of none token = free
view_of (some i) none = waiting
view_of (some i) (some token) = held

pub data Call : Type 0 where
  acquire enqueue wait release close round : Call

-- What the caller sees: a grant or a release that was sent, the absence of it, an `Exception`, or
-- an exception that is none.
pub data Outcome : Type 0 where
  yes no raised interrupted : Outcome

abbrev pub of_error : Error → Outcome
of_error e = if is_subclass (class_of e) exception then raised else interrupted

abbrev pub of_bool : Result Bool → Outcome
of_bool (ok true) = yes
of_bool (ok false) = no
of_bool (err e) = of_error e

abbrev pub of_enqueued : Result Enqueued → Outcome
of_enqueued (ok (acquired token lease)) = yes
of_enqueued (ok queued) = no
of_enqueued (err e) = of_error e

abbrev pub of_unit : Result (Unit {0}) → Outcome
of_unit (ok _) = yes
of_unit (err e) = of_error e

pub of_error-interrupted :
    (e : Error) → is_subclass (class_of e) exception ≡ false → of_error e ≡ interrupted
of_error-interrupted e h = rw h refl

-- The moves of both clients. An exception of any class ends an `acquire` or an `enqueue` free, and
-- a `wait` that waits.
pub data Move : Call → Outcome → View → View → Type 0 where
  acquire_granted : (v : View) → Move acquire yes v held
  acquire_timed_out : (v : View) → Move acquire no v free
  acquire_fails : (e : Error) (v : View) → Move acquire (of_error e) v free
  granted_at_once : (v : View) → Move enqueue yes v held
  put_in_queue : (v : View) → Move enqueue no v waiting
  enqueue_fails : (e : Error) (v : View) → Move enqueue (of_error e) v free
  already_held : Move wait yes held held
  wait_granted : Move wait yes waiting held
  wait_timed_out : Move wait no waiting free
  wait_fails : (e : Error) → Move wait (of_error e) waiting free
  not_waiting : (e : Error) → Move wait (of_error e) free free
  released : Move release yes held free
  not_released : (v : View) → Move release no v free
  closed : (v : View) → Move close yes v free
  renewed : (v : View) → Move round yes v v
  lost : Move round yes held free

-- The calls of a run with their outcomes.
pub data Run (M : Call → Outcome → View → View → Type 0)
    : View → List (Call × Outcome) → View → Type 0 where
  stop : {v : View} → Run M v [] v
  then :
      {c : Call} {o : Outcome} {u v w : View} {xs : List (Call × Outcome)}
      → M c o u v
      → Run M v xs w
      → Run M u ((c, o) ∷ xs) w
