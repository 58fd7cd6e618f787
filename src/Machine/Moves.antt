-- ===== src/Machine/Moves.antt =====
-- Views from the fields of an object, and the moves that results decide.
use dflockd_client_py.Base.{
  ℕ, ◌≡◌, ◌≢◌, ◌⊎◌, inl, inr, refl, Bool, true, false, Option, none, some, Str, arith,
}
use dflockd_client_py.Base.Int.{ℤ}
use dflockd_client_py.Errors.{Error, Result, ok, err}
use dflockd_client_py.Protocol.Decode.{Enqueued, acquired, queued}
use dflockd_client_py.Machine as Machine
use dflockd_client_py.Machine.{
  View, free, waiting, held, view_of, Outcome, of_bool, of_enqueued, Call, Move,
}

-- ----- views

pub view_of-held :
    {i : ℕ} {t : Str} (conn : Option ℕ) (token : Option Str)
    → conn ≡ some i
    → token ≡ some t
    → view_of conn token ≡ held
view_of-held conn token p q = ground (arith, p, q)

pub view_of-free : (conn : Option ℕ) (token : Option Str) → conn ≡ none → view_of conn token ≡ free
view_of-free conn token p = ground (arith, p)

pub view_of-waiting :
    (conn : Option ℕ) (token : Option Str)
    → conn ≢ none
    → token ≡ none
    → view_of conn token ≡ waiting
view_of-waiting none token p q = absurd (p refl)
view_of-waiting (some i) token p q = ground (arith, q)

-- A token that goes with a connection.
pub view_of-token :
    (conn : Option ℕ) (token : Option Str)
    → (conn ≡ none → token ≡ none)
    → token ≢ none
    → view_of conn token ≡ held
view_of-token none token f p = absurd (p (f refl))
view_of-token (some i) none f p = absurd (p refl)
view_of-token (some i) (some t) f p = refl

-- ----- moves

-- The result true with a grant, or another result with nothing.
abbrev pub Decides : Result Bool → View → Type 0
Decides r w = ((r ≡ ok true) × (w ≡ held)) ⊎ ((r ≢ ok true) × (w ≡ free))

pub acquire-Move :
    (v w : View) (r : Result Bool) → Decides r w → Move Machine.acquire (of_bool r) v w
acquire-Move v w r (inl (p, q)) = rw (p, q) (Move.acquire_granted v)
acquire-Move v w (ok true) (inr (p, q)) = absurd (p refl)
acquire-Move v w (ok false) (inr (p, q)) = rw q (Move.acquire_timed_out v)
acquire-Move v w (err e) (inr (p, q)) = rw q (Move.acquire_fails e v)

pub wait-Move : (w : View) (r : Result Bool) → Decides r w → Move Machine.wait (of_bool r) waiting w
wait-Move w r (inl (p, q)) = rw (p, q) Move.wait_granted
wait-Move w (ok true) (inr (p, q)) = absurd (p refl)
wait-Move w (ok false) (inr (p, q)) = rw q Move.wait_timed_out
wait-Move w (err e) (inr (p, q)) = rw q (Move.wait_fails e)

-- A grant, a place in the queue, or an exception with nothing.
abbrev pub DecidesEnqueue : Result Enqueued → View → Type 0
DecidesEnqueue r w =
    ((token : Str) × (z : ℤ) × (r ≡ ok (acquired token z)) × (w ≡ held))
    ⊎ ((r ≡ ok queued) × (w ≡ waiting))
    ⊎ ((e : Error) × (r ≡ err e) × (w ≡ free))

pub enqueue-Move :
    (v w : View) (r : Result Enqueued)
    → DecidesEnqueue r w
    → Move Machine.enqueue (of_enqueued r) v w
enqueue-Move v w r (inl (token, z, p, q)) = rw (p, q) (Move.granted_at_once v)
enqueue-Move v w r (inr (inl (p, q))) = rw (p, q) (Move.put_in_queue v)
enqueue-Move v w r (inr (inr (e, p, q))) = rw (p, q) (Move.enqueue_fails e v)
