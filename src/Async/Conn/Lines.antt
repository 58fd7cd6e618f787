-- ===== src/Async/Conn/Lines.antt =====
-- A line that `AsyncConn` reads, against the line that `SyncConn` reads.
use dflockd_client_py.Base.{
  ℕ, zero, suc, ◌+◌, ◌≤◌, ◌<◌, ◌≡◌, inl, inr, refl, true, false, Bool-cases, Option, Option-cases,
  none, some, [], ◌∷◌, ◌++◌, Bytes, length, arith, ltb, ◌==◌,
}
use dflockd_client_py.Errors.{runtime_error, Error, class_of, err}
use dflockd_client_py.Protocol.Validate.{max_response_line_bytes}
use dflockd_client_py.Sync.Conn as Sync
use dflockd_client_py.Sync.Conn.{SyncConn, Trouble, fine, send_fails, read_fails}
use dflockd_client_py.Async.Conn as Async
use dflockd_client_py.Async.Conn.{AsyncConn, cut_line, within_limit}

-- ----- reading a line

abbrev joined : Bytes × Option Bytes → Bytes × Bytes
joined (body, none) = (body, [])
joined (body, some rest) = (body ++ (10 ∷ []), rest)

readline-cut_line :
    (n : ℕ) (bs : Bytes) → length (cut_line bs).0 < n → Sync.readline n bs ≡ joined (cut_line bs)
unfolding Sync.readline cut_line
readline-cut_line zero bs h = absurd (omega arith)
readline-cut_line (suc n) [] h = refl
readline-cut_line (suc n) (b ∷ bs) h = elim (Bool-cases (b == 10)) [
  | inl newline ↦ rw newline (ground (arith, newline))
  | inr other ↦ rw other (
      rw (readline-cut_line n bs (ground arith)) (elim (Option-cases (cut_line bs).1) [
        | inl last ↦ ground arith
        | inr (rest, more) ↦ ground arith
      ]))
]

readline_full :
    (n : ℕ) (bs : Bytes) → n ≤ length (cut_line bs).0 → length (Sync.readline n bs).0 ≡ n
unfolding Sync.readline cut_line
readline_full zero bs h = refl
readline_full (suc n) [] h = absurd (omega arith)
readline_full (suc n) (b ∷ bs) h = ground (arith, readline_full n bs)

-- ----- one line

-- The two clients make the same of what was read and leave the same bytes, or both raise with the
-- same class.
pub data SameLine (x : Bytes × Bytes) (y : Option Bytes × Bytes) : Type 0 where
  line_read : Sync.line_of x.0 ≡ Async.line_of y.0 → x.1 ≡ y.1 → SameLine x y
  line_refused :
      (e f : Error)
      → Sync.line_of x.0 ≡ err e
      → Async.line_of y.0 ≡ err f
      → class_of e ≡ class_of f
      → SameLine x y

line_of-eq : (raw : Bytes) → Sync.line_of raw ≡ Async.line_of (some raw)
unfolding Sync.trim_response_line Async.trim_response_line
line_of-eq [] = refl
line_of-eq (b ∷ bs) = refl

line_of_long :
    (raw : Bytes)
    → length raw ≡ max_response_line_bytes + 1
    → (e : Error) × (Sync.line_of raw ≡ err e) × (class_of e ≡ runtime_error)
unfolding Sync.trim_response_line
line_of_long [] h = absurd (omega (arith, h))
line_of_long (b ∷ bs) h =
    let long : ltb max_response_line_bytes (length (b ∷ bs)) ≡ true = ground arith in
    rw long (_, refl, refl)

short-SameLine :
    (x : Bytes × Option Bytes)
    → ltb max_response_line_bytes (length x.0) ≡ false
    → SameLine (joined x) (within_limit x)
short-SameLine (body, none) short = rw short (line_read (line_of-eq body) refl)
short-SameLine (body, some rest) short = rw short (line_read (line_of-eq (body ++ (10 ∷ []))) refl)

long-SameLine :
    (x : Bytes × Option Bytes) (y : Bytes × Bytes)
    → ltb max_response_line_bytes (length x.0) ≡ true
    → length y.0 ≡ max_response_line_bytes + 1
    → SameLine y (within_limit x)
long-SameLine (body, none) y long full =
    let (e, raised, class) = line_of_long y.0 full in rw long (line_refused e _ raised refl class)
long-SameLine (body, some rest) y long full =
    let (e, raised, class) = line_of_long y.0 full in rw long (line_refused e _ raised refl class)

pub readline-SameLine :
    (bs : Bytes) → SameLine (Sync.readline (max_response_line_bytes + 1) bs) (Async.readline bs)
unfolding Async.readline
readline-SameLine bs = elim (Bool-cases (ltb max_response_line_bytes (length (cut_line bs).0))) [
  | inl long ↦
      long-SameLine (cut_line bs) (Sync.readline (max_response_line_bytes + 1) bs) long
        (readline_full (max_response_line_bytes + 1) bs (ground arith))
  | inr short ↦
      rw (readline-cut_line (max_response_line_bytes + 1) bs (ground arith))
        (short-SameLine (cut_line bs) short)
]
