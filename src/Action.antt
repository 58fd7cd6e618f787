-- ===== src/Action.antt =====
-- Calls that read and change a state and may raise. What was changed before a raise stays changed.
use dflockd_client_py.Base.{◌≡◌, refl, arith}
use dflockd_client_py.Errors.{Result, ok, err}

abbrev pub Action {ℓ} : Type 0 → Type ℓ → Type ℓ
Action S A = S → Result A × S

abbrev pub pure {ℓ} : {S : Type 0} {A : Type ℓ} → A → Action S A
pure a s = (ok a, s)

-- A call that touches no state.
abbrev pub lift {ℓ} : {S : Type 0} {A : Type ℓ} → Result A → Action S A
lift r s = (r, s)

abbrev pub continue {ℓ κ} :
    {S : Type 0} {A : Type ℓ} {B : Type κ} → Result A × S → (A → Action S B) → Result B × S
continue (ok a, s) f = f a s
continue (err e, s) f = (err e, s)

infixl 5 ◌>>=◌ ◌>>◌
abbrev pub ◌>>=◌ {ℓ κ} :
    {S : Type 0} {A : Type ℓ} {B : Type κ} → Action S A → (A → Action S B) → Action S B
◌>>=◌ m f s = continue (m s) f

abbrev pub ◌>>◌ {ℓ} : {S : Type 0} {B : Type ℓ} → Action S (Unit {0}) → Action S B → Action S B
m >> k = m >>= λ _. k

abbrev pub modify : {S : Type 0} → (S → S) → Action S (Unit {0})
modify f s = (ok tt, f s)

-- What a `with` statement does when its body has ended: an error that `__exit__` raises takes the
-- place of the body's.
abbrev pub leave {ℓ} : {S : Type 0} {A : Type ℓ} → Action S (Unit {0}) → Result A × S → Result A × S
leave exit (r, s) = continue (exit s) (λ _ t. (r, t))

-- `with` an object that has `__enter__` and `__exit__`, whose `__exit__` returns `None`.
abbrev pub with_statement {ℓ} :
    {S : Type 0} {A : Type ℓ} → Action S (Unit {0}) → Action S (Unit {0}) → Action S A → Action S A
with_statement enter exit body s = continue (enter s) (λ _ t. leave exit (body t))

-- A call that goes on after another succeeds only if both do.
pub continue-ok {ℓ κ} :
    {S : Type 0} {A : Type ℓ} {B : Type κ} (x : Result A × S) (f : A → Action S B) {b : B}
    → (continue x f).0 ≡ ok b
    → (a : A) × (x.0 ≡ ok a) × ((f a x.1).0 ≡ ok b)
continue-ok (ok a, s) f q = (a, refl, q)
continue-ok (err e, s) f q = absurd (ground arith)
