-- ===== src/Sync/Invariant/Touch.antt =====
-- What the `_proto_*` methods and `authenticate` change in an object.
use dflockd_client_py.Protocol.Decode.{
  parse_grant_response, parse_release_response, parse_renew_response, parse_enqueue_response,
  parse_auth_response,
}
use dflockd_client_py.Sync.Conn.Wire.{command_open}
use dflockd_client_py.Base.{ℕ, ◌≡◌, inl, inr, false, Str, arith, [], Option, none, some, codes}
use dflockd_client_py.Errors.{Error, Result, ok, err, Result-cases}
use dflockd_client_py.Action.{lift, continue}
use dflockd_client_py.Protocol.Validate.{Scalar}
use dflockd_client_py.Sync.Conn.{SyncConn, command}
use dflockd_client_py.Sync.State.{SyncBase, update, command_at, Kind, lock, semaphore}
use dflockd_client_py.Sync.Commands.Requests.{
  acquire_sends, renew_sends, enqueue_sends, wait_sends, release_sends, authenticate_sends,
}
use dflockd_client_py.Sync.Hooks.{
  proto_acquire, proto_release, proto_renew, proto_enqueue, proto_wait,
}
use dflockd_client_py.Sync.Commands.{authenticate, acquire, release, renew, enqueue, wait}

-- How a call on the connection `i` ended, and in which state. A result is what `parse` makes of
-- some response line.
pub data Touches (i : ℕ) (s : SyncBase) {A : Type 0} (parse : Str → Str → Result A)
    (x : Result A × SyncBase) : Type 0 where
  refused : (e : Error) → x ≡ (err e, s) → Touches i s parse x
  sent :
      (c : SyncConn)
      → x.1 ≡ record s { conns = update s.conns i c }
      → ((a : A) → x.0 ≡ ok a → (c.closed ≡ false) × ((resp op : Str) × (parse resp op ≡ ok a)))
      → Touches i s parse x

-- A response that is parsed after a command.
parsed-Touches :
    {A : Type 0} (i : ℕ) (cmd key arg : Str) (t : ℕ) (parse : Str → Str → Result A) (op : Str)
    (s : SyncBase)
    → Touches i s parse (continue (command_at i cmd key arg t s) (λ resp. lift (parse resp op)))
unfolding command_at
parsed-Touches i cmd key arg t parse op s =
    elim (Result-cases (command cmd key arg t (s.conns i)).0) [
      | inl (line, got) ↦
          sent (command cmd key arg t (s.conns i)).1 (rw got)
            (λ a h. (command_open cmd key arg t (s.conns i) got, (line, op, rw got at h)))
      | inr (e, failed) ↦
          sent (command cmd key arg t (s.conns i)).1 (rw failed) (λ a h. absurd (ground arith))
    ]

-- ----- the command functions, on a connection of an object

module _ (i : ℕ) (s : SyncBase) where
  acquire-Touches :
      (key : Str) (timeout : Scalar) (lease : Option Scalar) (prefix : Str) (limit : Option Scalar)
      → Touches i s parse_grant_response (acquire (command_at i) key timeout lease prefix limit s)
  acquire-Touches key timeout lease prefix limit =
      elim (acquire_sends (command_at i) key timeout lease prefix limit s) [
        | inl (e, q, rejected) ↦ refused e q
        | inr (arg, a, b, c, q) ↦ rw q (parsed-Touches i _ _ _ _ parse_grant_response _ s)
      ]

  renew-Touches :
      (key token : Str) (lease : Option Scalar) (prefix : Str) (t : ℕ)
      → Touches i s parse_renew_response (renew (command_at i) key token lease prefix t s)
  renew-Touches key token lease prefix t =
      elim (renew_sends (command_at i) key token lease prefix t s) [
        | inl (e, q, rejected) ↦ refused e q
        | inr (arg, a, b, c, q) ↦ rw q (parsed-Touches i _ _ _ _ parse_renew_response _ s)
      ]

  enqueue-Touches :
      (key : Str) (lease : Option Scalar) (prefix : Str) (limit : Option Scalar)
      → Touches i s parse_enqueue_response (enqueue (command_at i) key lease prefix limit s)
  enqueue-Touches key lease prefix limit =
      elim (enqueue_sends (command_at i) key lease prefix limit s) [
        | inl (e, q, rejected) ↦ refused e q
        | inr (arg, a, b, c, q) ↦ rw q (parsed-Touches i _ _ _ _ parse_enqueue_response _ s)
      ]

  wait-Touches :
      (key : Str) (timeout : Scalar) (prefix : Str)
      → Touches i s parse_grant_response (wait (command_at i) key timeout prefix s)
  wait-Touches key timeout prefix = elim (wait_sends (command_at i) key timeout prefix s) [
    | inl (e, q, rejected) ↦ refused e q
    | inr (arg, a, b, c, q) ↦ rw q (parsed-Touches i _ _ _ _ parse_grant_response _ s)
  ]

  release-Touches :
      (key token prefix : Str)
      → Touches i s parse_release_response (release (command_at i) key token prefix s)
  release-Touches key token prefix = elim (release_sends (command_at i) key token prefix s) [
    | inl (e, q, rejected) ↦ refused e q
    | inr (a, b, c, q) ↦ rw q (parsed-Touches i _ _ _ _ parse_release_response _ s)
  ]

pub proto_acquire-Touches :
    (k : Kind) (i : ℕ) (s : SyncBase) → Touches i s parse_grant_response (proto_acquire k i s)
unfolding proto_acquire
proto_acquire-Touches lock i s = acquire-Touches i s _ _ _ [] none
proto_acquire-Touches (semaphore limit) i s = acquire-Touches i s _ _ _ (codes "s") (some limit)

pub proto_release-Touches :
    (k : Kind) (i : ℕ) (token : Str) (s : SyncBase)
    → Touches i s parse_release_response (proto_release k i token s)
unfolding proto_release
proto_release-Touches lock i token s = release-Touches i s _ token []
proto_release-Touches (semaphore limit) i token s = release-Touches i s _ token (codes "s")

pub proto_renew-Touches :
    (k : Kind) (i : ℕ) (token : Str) (s : SyncBase)
    → Touches i s parse_renew_response (proto_renew k i token s)
unfolding proto_renew
proto_renew-Touches lock i token s = renew-Touches i s _ token _ [] _
proto_renew-Touches (semaphore limit) i token s = renew-Touches i s _ token _ (codes "s") _

pub proto_enqueue-Touches :
    (k : Kind) (i : ℕ) (s : SyncBase) → Touches i s parse_enqueue_response (proto_enqueue k i s)
unfolding proto_enqueue
proto_enqueue-Touches lock i s = enqueue-Touches i s _ _ [] none
proto_enqueue-Touches (semaphore limit) i s = enqueue-Touches i s _ _ (codes "s") (some limit)

pub proto_wait-Touches :
    (k : Kind) (i : ℕ) (t : Scalar) (s : SyncBase)
    → Touches i s parse_grant_response (proto_wait k i t s)
unfolding proto_wait
proto_wait-Touches lock i t s = wait-Touches i s _ t []
proto_wait-Touches (semaphore limit) i t s = wait-Touches i s _ t (codes "s")

pub authenticate-Touches :
    (i : ℕ) (auth_token : Str) (s : SyncBase)
    → Touches i s (λ resp op. parse_auth_response resp) (authenticate (command_at i) auth_token s)
authenticate-Touches i auth_token s = elim (authenticate_sends (command_at i) auth_token s) [
  | inl (e, q, rejected) ↦ refused e q
  | inr (a, q) ↦ rw q (parsed-Touches i _ _ _ _ (λ resp op. parse_auth_response resp) [] s)
]
