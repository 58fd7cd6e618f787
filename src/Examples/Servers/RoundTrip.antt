-- ===== src/Examples/Servers/RoundTrip.antt =====
-- The texts that `parse_servers` reads back.
use dflockd_client_py.Base.{
  ℕ, ◌<◌, ◌≡◌, ◌≢◌, refl, false, none, some, List, [], ◌∷◌, ◌++◌, map, Str, All, arith, append-nil,
  All-append,
}
use dflockd_client_py.Base.Int.{ℤ, pos}
use dflockd_client_py.Errors.{ok}
use dflockd_client_py.Text.Words.{is_space}
use dflockd_client_py.Text.Decimal.{show_nat, show_int}
use dflockd_client_py.Text.Decimal.RoundTrip.{
  int_str-show_nat, show_int-IsWord, show_nat-digits, IsDigit,
}
use dflockd_client_py.Examples.Servers.{
  split_on, rsplit_on, lstrip, rstrip, strip, int_of, unpack, parse_entries, parse_servers,
}

-- `host:port`
abbrev pub endpoint_text : Str × ℕ → Str
endpoint_text (host, port) = host ++ (58 ∷ show_nat port)

abbrev join_tail : List (Str × ℕ) → Str
join_tail [] = []
join_tail (s ∷ ss) = 44 ∷ (endpoint_text s ++ join_tail ss)

-- The endpoints with commas between them.
abbrev pub servers_text : Str × ℕ → List (Str × ℕ) → Str
servers_text s ss = endpoint_text s ++ join_tail ss

-- A host without a comma, which can have colons, and a port.
abbrev pub IsEndpoint : Str × ℕ → Type 0
IsEndpoint (host, port) = All (λ c. c ≢ 44) host × (port < 65536)

abbrev pub parsed : Str × ℕ → Str × ℤ
parsed (host, port) = (host, pos port)

split_on-word : (x : ℕ) (w : Str) → All (λ c. c ≢ x) w → split_on x w ≡ w ∷ []
unfolding split_on
split_on-word x [] h = refl
split_on-word x (c ∷ w) h = ground (arith, split_on-word x w h.1)

split_on-append :
    (x : ℕ) (w s : Str) → All (λ c. c ≢ x) w → split_on x (w ++ (x ∷ s)) ≡ w ∷ split_on x s
unfolding split_on
split_on-append x [] s h = ground arith
split_on-append x (c ∷ w) s h = ground (arith, split_on-append x w s h.1)

rsplit_on-none : (x : ℕ) (w : Str) → All (λ c. c ≢ x) w → rsplit_on x w ≡ none
unfolding rsplit_on
rsplit_on-none x [] h = refl
rsplit_on-none x (c ∷ w) h = ground (arith, rsplit_on-none x w h.1)

rsplit_on-append :
    (x : ℕ) (h t : Str) → All (λ c. c ≢ x) t → rsplit_on x (h ++ (x ∷ t)) ≡ some (h, t)
unfolding rsplit_on
rsplit_on-append x [] t free = ground (arith, rsplit_on-none x t free)
rsplit_on-append x (c ∷ h) t free = rw (rsplit_on-append x h t free) refl

digits_not : (x : ℕ) (s : Str) → ((c : ℕ) → IsDigit c → c ≢ x) → All IsDigit s → All (λ c. c ≢ x) s
digits_not x [] other h = tt
digits_not x (c ∷ s) other h = (other c h.0, digits_not x s other h.1)

port_not : (x n : ℕ) → ((c : ℕ) → IsDigit c → c ≢ x) → All (λ c. c ≢ x) (show_nat n)
port_not x n other = digits_not x (show_nat n) other (show_nat-digits n)

lstrip-word : (w : Str) → All (λ c. is_space c ≡ false) w → lstrip w ≡ w
unfolding lstrip
lstrip-word [] h = refl
lstrip-word (c ∷ w) h = rw (h.0) refl

rstrip-word : (w : Str) → All (λ c. is_space c ≡ false) w → rstrip w ≡ w
unfolding rstrip
rstrip-word [] h = refl
rstrip-word (c ∷ []) h = rw (h.0) refl
rstrip-word (c ∷ d ∷ w) h = rw (rstrip-word (d ∷ w) h.1) refl

int_of-show_nat : (n : ℕ) → n < 65536 → int_of (show_nat n) ≡ ok (pos n)
unfolding int_of strip show_int
int_of-show_nat n lt =
    rw
      (
        lstrip-word (show_nat n) (show_int-IsWord (pos n)).1,
        rstrip-word (show_nat n) (show_int-IsWord (pos n)).1,
        int_str-show_nat n (omega (arith, lt)),
      )
      refl

no_comma : (s : Str × ℕ) → IsEndpoint s → All (λ c. c ≢ 44) (endpoint_text s)
no_comma (host, port) h =
    All-append (λ c. c ≢ 44) host (58 ∷ show_nat port) h.0
      (omega arith, port_not 44 port (λ c d. omega (arith, d.0, d.1)))

unpack-endpoint :
    (s : Str × ℕ) → IsEndpoint s → unpack (rsplit_on 58 (endpoint_text s)) ≡ ok (parsed s)
unpack-endpoint (host, port) h =
    rw
      (
        rsplit_on-append 58 host (show_nat port)
            (port_not 58 port (λ c d. omega (arith, d.0, d.1))),
        int_of-show_nat port h.1,
      )
      refl

-- The entries of the joined text.
split_on-servers_text :
    (s : Str × ℕ) (ss : List (Str × ℕ))
    → IsEndpoint s
    → All IsEndpoint ss
    → split_on 44 (servers_text s ss) ≡ map endpoint_text (s ∷ ss)
split_on-servers_text s [] h hs =
    rw (append-nil (endpoint_text s)) (split_on-word 44 (endpoint_text s) (no_comma s h))
split_on-servers_text s (t ∷ ss) h hs =
    rw
      (
        split_on-append 44 (endpoint_text s) (servers_text t ss) (no_comma s h),
        split_on-servers_text t ss hs.0 hs.1,
      )
      refl

parse_entries-endpoints :
    (ss : List (Str × ℕ))
    → All IsEndpoint ss
    → parse_entries (map endpoint_text ss) ≡ ok (map parsed ss)
unfolding parse_entries
parse_entries-endpoints [] hs = refl
parse_entries-endpoints (s ∷ ss) hs =
    rw (unpack-endpoint s hs.0, parse_entries-endpoints ss hs.1) refl

-- A non-empty list of hosts without commas and ports below 65536, written as `host:port` and
-- joined by commas, is read back by `parse_servers`, also where a host has colons.
pub parse_servers-servers_text :
    (s : Str × ℕ) (ss : List (Str × ℕ))
    → IsEndpoint s
    → All IsEndpoint ss
    → parse_servers (servers_text s ss) ≡ ok (map parsed (s ∷ ss))
unfolding parse_servers
parse_servers-servers_text s ss h hs =
    rw (split_on-servers_text s ss h hs) (parse_entries-endpoints (s ∷ ss) (h, hs))
