-- ===== src/Tests/Overflow.antt =====
-- The theorem on an acquire timeout that the socket does not take, at a concrete state.
use dflockd_client_py.Base.{refl, ◌++◌, [], ◌∷◌, Str, Bytes, codes, arith, ◌≡◌}
use dflockd_client_py.Base.Int.{pos}
use dflockd_client_py.Text.Decimal.{show_int}
use dflockd_client_py.Text.Utf8.{encode}
use dflockd_client_py.Errors.{ok}
use dflockd_client_py.Protocol.Validate.{Scalar}
use dflockd_client_py.Protocol.Encode.{encode_lines}
use dflockd_client_py.Protocol.Encode.Args.{make_acquire_arg-timeout, show_int-IsSendable}
use dflockd_client_py.Protocol.Encode.Sendable.{IsSendable, encode_lines-built, key-IsSendable}
use dflockd_client_py.Sync.State.{Config, Dial, SyncBase, initial}
use dflockd_client_py.Sync.Lifecycle.{acquire_unlocked}
use dflockd_client_py.Sync.Grant.{IsReady}
use dflockd_client_py.Sync.Grant.Overflow.{Overflows, acquire_unlocked-Overflows}
use dflockd_client_py.Sync.Hooks.{pick_server}
use dflockd_client_py.Sharding as Sharding
use dflockd_client_py.Sharding.{validate_shard_index}
use dflockd_client_py.Tests.Object.{demo, demo_key, demo_endpoint, demo-IsReady}

-- A valid acquire timeout, and the most that is valid.
abbrev patient : Config
patient = record demo { acquire_timeout_s = Scalar.int (pos 9223372036) }

abbrev arg : Str
arg = show_int (pos 9223372036)

word_l-IsSendable : IsSendable (codes "l")
unfolding encode
word_l-IsSendable = (ground arith, (codes "l", refl))

patient_frame : (frame : Bytes) × (encode_lines (codes "l" ∷ codes "job" ∷ arg ∷ []) ≡ ok frame)
patient_frame = encode_lines-built (codes "l" ∷ codes "job" ∷ arg ∷ []) (
  word_l-IsSendable,
  (key-IsSendable (codes "job") demo_key, (show_int-IsSendable 9223372036, tt)),
)

patient_picked :
    pick_server patient ≡ ok (Sharding.Host.text (codes "127.0.0.1"), Scalar.int (pos 6388))
unfolding pick_server validate_shard_index
patient_picked = refl

patient-IsReady : IsReady patient arg patient_frame.0
patient-IsReady = record {
  a_lock = refl;
  no_auth = refl;
  key_valid = demo_key;
  arg_built = make_acquire_arg-timeout 9223372036 (omega arith);
  frame_built = patient_frame.1;
  timeout_valid = demo-IsReady.timeout_valid;
  host = Sharding.Host.text (codes "127.0.0.1");
  port = Scalar.int (pos 6388);
  picked = patient_picked;
  address = (codes "127.0.0.1", pos 6388);
  endpoint_valid = demo_endpoint;
}

abbrev new : SyncBase
new = initial patient (Dial.connected (codes "ok t 33" ++ (10 ∷ [])) [] ∷ [])

overflow_example : Overflows 0 (codes "ok t 33" ++ (10 ∷ [])) (acquire_unlocked new)
overflow_example =
    acquire_unlocked-Overflows new arg patient_frame.0 (codes "ok t 33" ++ (10 ∷ [])) [] []
      patient-IsReady (omega arith) refl
