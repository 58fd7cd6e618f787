-- ===== src/Tests/Wire.antt =====
-- The theorems on one connection and on the command functions, at concrete values.
use dflockd_client_py.Base.{◌≡◌, ◌⊎◌, false, none, ◌++◌, List, [], ◌∷◌, Str, Bytes, codes}
use dflockd_client_py.Base.Int.{pos}
use dflockd_client_py.Errors.{ok}
use dflockd_client_py.Action.{lift, continue}
use dflockd_client_py.Protocol.Validate.{Scalar, validate_prefix_limit, validate_key}
use dflockd_client_py.Protocol.Encode.{op_label, make_acquire_arg}
use dflockd_client_py.Protocol.Decode.{parse_grant_response}
use dflockd_client_py.Sync.Conn.{SyncConn, Trouble, command}
use dflockd_client_py.Sync.Conn.Wire.{Exchange, responses}
use dflockd_client_py.Sync.Commands.{acquire}
use dflockd_client_py.Sync.Commands.Requests.{Refused, acquire_sends}

abbrev key : Str
key = codes "job"

abbrev frame : Bytes
frame = codes "l" ++ (10 ∷ (codes "job" ++ (10 ∷ (codes "10" ++ (10 ∷ [])))))

abbrev reply : Str
reply = codes "ok t 33"

abbrev conn_with : Bytes → List Trouble → SyncConn
conn_with inbox troubles = record {
  closed = false;
  timeout = 0;
  inbox = inbox;
  outbox = [];
  troubles = troubles;
}

abbrev exchange : Exchange
exchange = record {
  cmd = codes "l";
  key = key;
  arg = codes "10";
  timeout = 40;
  frame = frame;
  resp = reply;
  bytes = reply;
}

abbrev twice : List Exchange
twice = exchange ∷ exchange ∷ []

abbrev full : SyncConn
full = conn_with (responses twice ++ codes "more") []

abbrev ten : Scalar
ten = Scalar.int (pos 10)

acquire_sends_example :
    Refused (acquire command key ten none [] none) full
    ⊎ ((arg : Str) × (validate_prefix_limit [] none ≡ ok tt)
        × (validate_key (codes "key") key ≡ ok tt)
        × (make_acquire_arg ten none none ≡ ok arg)
        × (acquire command key ten none [] none full
            ≡ continue
                (command (codes "l") key arg 40 full)
                (λ resp. lift (parse_grant_response resp (op_label [] (codes "acquire"))))))
acquire_sends_example = acquire_sends command key ten none [] none full
