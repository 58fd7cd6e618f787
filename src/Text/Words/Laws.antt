-- ===== src/Text/Words/Laws.antt =====
-- `split` on words joined by single spaces.
use dflockd_client_py.Base.{
  Bool-cases, inl, inr, ◌≡◌, ◌≢◌, refl, false, List, [], ◌∷◌, ◌++◌, Str, All, append-nil, length,
  drop, arith, true,
}
use dflockd_client_py.Text.Words.{is_space, cons_word, first_word, split, starts_with}

-- A text with no whitespace in it, and at least one character.
abbrev pub IsWord : Str → Type 0
IsWord w = (w ≢ []) × All (λ c. is_space c ≡ false) w

first_word-word :
    (w s : Str) (ws : List Str)
    → All (λ c. is_space c ≡ false) w
    → first_word s ≡ ([], ws)
    → first_word (w ++ s) ≡ (w, ws)
unfolding first_word
first_word-word [] s ws h e = e
first_word-word (c ∷ w) s ws h e = rw (first_word-word w s ws h.1 e, h.0)

cons_word-ne_nil : (w : Str) (ws : List Str) → w ≢ [] → cons_word w ws ≡ w ∷ ws
cons_word-ne_nil [] ws h = absurd (h refl)
cons_word-ne_nil (c ∷ w) ws h = refl

first_word-space : (s : Str) → first_word (32 ∷ s) ≡ ([], split s)
unfolding first_word split is_space
first_word-space s = refl

pub split-word_space : (w s : Str) → IsWord w → split (w ++ (32 ∷ s)) ≡ w ∷ split s
unfolding split
split-word_space w s h =
    rw (first_word-word w (32 ∷ s) (split s) h.1 (first_word-space s)) (cons_word-ne_nil w _ h.0)

pub split-word : (w : Str) → IsWord w → split w ≡ w ∷ []
unfolding split
split-word w h =
    let e : first_word (w ++ []) ≡ (w, []) =
      first_word-word w [] [] h.1 (unfold first_word in refl) in
    rw (rw append-nil at e) (cons_word-ne_nil w _ h.0)

cons_word-IsWord :
    (w : Str) (ws : List Str)
    → All (λ c. is_space c ≡ false) w
    → All IsWord ws
    → All IsWord (cons_word w ws)
cons_word-IsWord [] ws h k = k
cons_word-IsWord (c ∷ w) ws h k = (((cc), h), k)

first_word-words :
    (s : Str) → All (λ c. is_space c ≡ false) (first_word s).0 × All IsWord (first_word s).1
unfolding first_word
first_word-words [] = (tt, tt)
first_word-words (c ∷ s) =
    let (w, ws) = first_word-words s in
    elim (Bool-cases (is_space c)) [
      | inl space ↦ rw space (tt, cons_word-IsWord (first_word s).0 (first_word s).1 w ws)
      | inr other ↦ rw other ((other, w), ws)
    ]

-- The fields of a split text are words.
pub split-IsWord : (s : Str) → All IsWord (split s)
unfolding split
split-IsWord s =
    let (w, ws) = first_word-words s in cons_word-IsWord (first_word s).0 (first_word s).1 w ws

pub begins-append : (p s : Str) → starts_with p s ≡ true → s ≡ p ++ drop (length p) s
begins-append [] s h = refl
begins-append (c ∷ p) [] h = cc
begins-append (c ∷ p) (d ∷ s) h = ground (arith, begins-append p s)

pub append-begins : (p s : Str) → starts_with p (p ++ s) ≡ true
append-begins [] s = refl
append-begins (c ∷ p) s = ground (arith, append-begins p s)
