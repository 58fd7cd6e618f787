-- ===== src/Protocol/Encode/Args.antt =====
-- The arguments of `make_*_arg`, taken apart again.
use dflockd_client_py.Base.{
  ℕ, ◌≤◌, ◌≡◌, ◌↔◌, refl, ap, true, Option, none, some, List, [], ◌∷◌, ◌++◌, Str, codes, length,
  arith, All, map, ◌∙◌,
}
use dflockd_client_py.Base.Int.{ℤ, pos}
use dflockd_client_py.Text.Utf8.{encode, encode_char}
use dflockd_client_py.Text.Words.{split}
use dflockd_client_py.Text.Words.Laws.{IsWord, split-word, split-word_space}
use dflockd_client_py.Text.Decimal.{show_int, show_nat, parse_int}
use dflockd_client_py.Text.Decimal.RoundTrip.{
  show_int-IsWord, parse_int-show_int, show_nat-digits, IsDigit, length-show_nat,
}
use dflockd_client_py.Errors.{ok}
use dflockd_client_py.Protocol.Validate.{
  Scalar, validate_lease_ttl_s, validate_protocol_line, max_protocol_seconds,
}
use dflockd_client_py.Protocol.Validate.Laws.{
  validate_timeout_s_iff, validate_protocol_line_iff, IsLineChar,
}
use dflockd_client_py.Protocol.Encode.Sendable.{IsSendable}
use dflockd_client_py.Protocol.Encode.{
  show_scalar, join_spaces, build_acquire_arg, build_wait_arg, build_enqueue_arg, make_acquire_arg,
  make_wait_arg, make_enqueue_arg,
}

split-join_spaces : (ws : List Str) → All IsWord ws → split (join_spaces ws) ≡ ws
unfolding join_spaces
split-join_spaces [] h = unfold split in refl
split-join_spaces (w ∷ []) h = split-word w h.0
split-join_spaces (w ∷ v ∷ ws) h =
    split-word_space w (join_spaces (v ∷ ws)) h.0
    ∙ ap (λ us. w ∷ us) (split-join_spaces (v ∷ ws) h.1)

-- An optional `int` argument as the code passes it, and as the list of its values.
abbrev pub given : Option ℤ → Option Scalar
given none = none
given (some z) = some (Scalar.int z)

abbrev pub listed : Option ℤ → List ℤ
listed none = []
listed (some z) = z ∷ []

All-show_int : (zs : List ℤ) → All IsWord (map show_int zs)
All-show_int [] = tt
All-show_int (z ∷ zs) = (show_int-IsWord z, All-show_int zs)

parse_int-map : (zs : List ℤ) → map parse_int (map show_int zs) ≡ map some zs
parse_int-map [] = refl
parse_int-map (z ∷ zs) = rw (parse_int-show_int z, parse_int-map zs)

-- The numbers in a text of numbers joined by spaces.
numbers-join_spaces :
    (zs : List ℤ) → map parse_int (split (join_spaces (map show_int zs))) ≡ map some zs
numbers-join_spaces zs =
    rw (split-join_spaces (map show_int zs) (All-show_int zs)) (parse_int-map zs)

build_acquire_arg_lem :
    (t : ℤ) (limit lease : Option ℤ)
    → build_acquire_arg (Scalar.int t) (given limit) (given lease)
      ≡ join_spaces (map show_int (t ∷ (listed limit ++ listed lease)))
unfolding build_acquire_arg show_scalar
build_acquire_arg_lem t none none = refl
build_acquire_arg_lem t none (some z) = refl
build_acquire_arg_lem t (some y) none = refl
build_acquire_arg_lem t (some y) (some z) = refl

build_enqueue_arg_lem :
    (limit lease : Option ℤ)
    → build_enqueue_arg (given limit) (given lease)
      ≡ join_spaces (map show_int (listed limit ++ listed lease))
unfolding build_enqueue_arg show_scalar
build_enqueue_arg_lem none none = refl
build_enqueue_arg_lem none (some z) = refl
build_enqueue_arg_lem (some y) none = refl
build_enqueue_arg_lem (some y) (some z) = refl

-- The argument that `make_acquire_arg` accepts for an integer timeout and optional integer limit
-- and lease time, split at whitespace and read as integers, gives the timeout, then the limit and
-- the lease time where they were given.
pub make_acquire_arg-fields :
    (t : ℤ) (limit lease : Option ℤ) {arg : Str}
    → make_acquire_arg (Scalar.int t) (given limit) (given lease) ≡ ok arg
    → map parse_int (split arg) ≡ map some (t ∷ (listed limit ++ listed lease))
unfolding make_acquire_arg
make_acquire_arg-fields t limit lease {arg} h =
    let built : arg ≡ build_acquire_arg (Scalar.int t) (given limit) (given lease) = ground arith in
    rw (built, build_acquire_arg_lem t limit lease)
      (numbers-join_spaces (t ∷ (listed limit ++ listed lease)))

-- The argument that `make_enqueue_arg` accepts for an optional integer limit and lease time,
-- split at whitespace and read as integers, gives the limit and the lease time where they were
-- given.
pub make_enqueue_arg-fields :
    (limit lease : Option ℤ) {arg : Str}
    → make_enqueue_arg (given limit) (given lease) ≡ ok arg
    → map parse_int (split arg) ≡ map some (listed limit ++ listed lease)
unfolding make_enqueue_arg
make_enqueue_arg-fields limit lease {arg} h =
    let built : arg ≡ build_enqueue_arg (given limit) (given lease) = ground arith in
    rw (built, build_enqueue_arg_lem limit lease)
      (numbers-join_spaces (listed limit ++ listed lease))

-- Digits and spaces stand for themselves in UTF-8, and end no line.
abbrev IsArgChar : ℕ → Type 0
IsArgChar c = (32 ≤ c) × (c ≤ 57)

encode-arg : (s : Str) → All IsArgChar s → encode s ≡ some s
unfolding encode encode_char
encode-arg [] h = refl
encode-arg (c ∷ s) h = ground (arith, encode-arg s h.1)

arg-line : (s : Str) → All IsArgChar s → All IsLineChar s
arg-line [] h = tt
arg-line (c ∷ s) h = ((omega arith, omega arith), arg-line s h.1)

digits-arg : (s : Str) → All IsDigit s → All IsArgChar s
digits-arg [] h = tt
digits-arg (c ∷ s) h = ((omega arith, omega arith), digits-arg s h.1)

-- A line of digits and spaces is accepted if it has at most 256 characters.
arg-accepted :
    (name s : Str) → All IsArgChar s → length s ≤ 256 → validate_protocol_line name s true ≡ ok tt
arg-accepted name s h fits =
    (validate_protocol_line_iff name s true).1
      (λ e. absurd (ground arith), arg-line s h, (s, encode-arg s h, fits))

show_scalar_int : (z : ℤ) → build_wait_arg (Scalar.int z) ≡ show_int z
unfolding build_wait_arg show_scalar
show_scalar_int z = refl

show_int-arg : (n : ℕ) → All IsArgChar (show_int (pos n))
unfolding show_int
show_int-arg n = digits-arg (show_nat n) (show_nat-digits n)

short : (n : ℕ) → n ≤ max_protocol_seconds → length (show_int (pos n)) ≤ 256
unfolding show_int
short n h = omega (arith, length-show_nat n 10 (omega arith) (omega arith))

-- `make_wait_arg` returns a text exactly if its value is an `int` from 0 to the limit of the
-- protocol and the text is its decimal print.
pub make_wait_arg_iff :
    (v : Scalar) {arg : Str}
    → (make_wait_arg v ≡ ok arg)
      ↔ ((n : ℕ) × (v ≡ Scalar.int (pos n)) × (n ≤ max_protocol_seconds) × (arg ≡ show_int (pos n)))
unfolding make_wait_arg
make_wait_arg_iff v {arg} = (
  λ h.
      let (n, e, le) = (validate_timeout_s_iff (codes "wait_timeout_s") v).0 (ground arith) in
      (n, e, le, ground (arith, show_scalar_int (pos n))),
  λ (n, e, le, built).
      let timeout = (validate_timeout_s_iff (codes "wait_timeout_s") v).1 (n, e, le) in
      ground (
        arith,
        show_scalar_int (pos n),
        arg-accepted (codes "wait argument") (show_int (pos n)) (show_int-arg n) (short n le),
      ),
)

-- The argument of an acquire with a timeout alone.
pub make_acquire_arg-timeout :
    (n : ℕ)
    → n ≤ max_protocol_seconds
    → make_acquire_arg (Scalar.int (pos n)) none none ≡ ok (show_int (pos n))
unfolding make_acquire_arg validate_lease_ttl_s join_spaces
make_acquire_arg-timeout n le =
    rw
      (
        (validate_timeout_s_iff (codes "acquire_timeout_s") (Scalar.int (pos n))).1 (n, refl, le),
        build_acquire_arg_lem (pos n) none none,
        arg-accepted (codes "acquire argument") (show_int (pos n)) (show_int-arg n) (short n le),
      )
      refl

-- The decimal print of a number can stand in a frame.
pub show_int-IsSendable : (n : ℕ) → IsSendable (show_int (pos n))
show_int-IsSendable n =
    (arg-line _ (show_int-arg n), (show_int (pos n), encode-arg _ (show_int-arg n)))
