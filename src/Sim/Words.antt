-- ===== src/Sim/Words.antt =====
-- Lines of words, and what parse_command of a line of sim.cc finds in them.
use eecs.Prelude.{ℕ, ◌≡◌, ◌≢◌, refl, Bool, true, false, not, ◌&&◌, List, [], ◌∷◌, ◌++◌, ◌==◌, arith}
use eecs.Text.{is_space, skip_space, span_word, next_word, c_string}
use eecs.Sim.{parse_command}

-- The characters of a word: no white space and no zero byte.
abbrev pub AllSolid : List ℕ → Type 0
AllSolid [] = Unit {0}
AllSolid (c ∷ s) = (is_space c ≡ false) × (c ≢ 0) × AllSolid s

abbrev pub IsWordText : List ℕ → Type 0
IsWordText [] = ⊥
IsWordText (c ∷ s) = AllSolid (c ∷ s)

abbrev all_solid : List ℕ → Bool
all_solid [] = true
all_solid (c ∷ s) = not (is_space c) && not (c == 0) && all_solid s

abbrev pub is_word : List ℕ → Bool
is_word [] = false
is_word (c ∷ s) = all_solid (c ∷ s)

all_solid-AllSolid : (s : List ℕ) → all_solid s ≡ true → AllSolid s
all_solid-AllSolid [] h = tt
all_solid-AllSolid (c ∷ s) h = ground (arith, all_solid-AllSolid s)

-- For literals.
pub is_word-IsWordText : (s : List ℕ) → is_word s ≡ true → IsWordText s
is_word-IsWordText [] h = cc
is_word-IsWordText (c ∷ s) h = all_solid-AllSolid (c ∷ s) h

span_word-solid :
    (v s : List ℕ) (c : ℕ) → AllSolid v → is_space c ≡ true → span_word (v ++ c ∷ s) ≡ (v, c ∷ s)
unfolding span_word
span_word-solid [] s c h space = ground (arith, space)
span_word-solid (a ∷ v) s c h space = ground (arith, span_word-solid v s c h.2 space, h.0)

next_word-word :
    (v s : List ℕ) (c : ℕ) → IsWordText v → is_space c ≡ true → next_word (v ++ c ∷ s) ≡ (v, c ∷ s)
unfolding next_word
next_word-word [] s c h space = absurd h
next_word-word (a ∷ v) s c h space =
    let solid : skip_space (a ∷ (v ++ c ∷ s)) ≡ a ∷ (v ++ c ∷ s) =
      unfold skip_space in ground (arith, h.0) in
    rw solid (span_word-solid (a ∷ v) s c h space)

next_word-space : (s : List ℕ) → next_word (32 ∷ s) ≡ next_word s
unfolding next_word skip_space
next_word-space s = refl

next_word-end : next_word (b'\n' ∷ []) ≡ ([], [])
unfolding next_word skip_space span_word
next_word-end = refl

next_word-empty : next_word [] ≡ ([], [])
unfolding next_word skip_space span_word
next_word-empty = refl

c_string-solid : (v s : List ℕ) → AllSolid v → c_string (v ++ s) ≡ v ++ c_string s
unfolding c_string
c_string-solid [] s h = refl
c_string-solid (a ∷ v) s h = ground (arith, c_string-solid v s h.2, h.1)

c_string-space : (c : ℕ) (s : List ℕ) → c ≢ 0 → c_string (c ∷ s) ≡ c ∷ c_string s
unfolding c_string
c_string-space c s h = ground (arith, h)

c_string-end : c_string (b'\n' ∷ []) ≡ b'\n' ∷ []
unfolding c_string
c_string-end = refl

pub c_string-word : (v : List ℕ) → AllSolid v → c_string v ≡ v
unfolding c_string
c_string-word [] h = refl
c_string-word (a ∷ v) h = ground (arith, c_string-word v h.2, h.1)

pub IsWordText-AllSolid : (v : List ℕ) → IsWordText v → AllSolid v
IsWordText-AllSolid [] h = tt
IsWordText-AllSolid (a ∷ v) h = h

module _ (a : List ℕ) (action : IsWordText a) where
  pub parse_command-one :
      parse_command (a ++ b'\n' ∷ []) ≡ record { action = a; key = []; value = [] }
  unfolding parse_command
  parse_command-one =
      rw
        (
          c_string-solid a (b'\n' ∷ []) (IsWordText-AllSolid a action),
          c_string-end,
          next_word-word a [] b'\n' action refl,
          next_word-end,
          next_word-empty,
        )
        refl

  pub parse_command-two :
      (k : List ℕ)
      → IsWordText k
      → parse_command (a ++ 32 ∷ (k ++ b'\n' ∷ [])) ≡ record { action = a; key = k; value = [] }
  unfolding parse_command
  parse_command-two k key =
      rw
        (
          c_string-solid a (32 ∷ (k ++ b'\n' ∷ [])) (IsWordText-AllSolid a action),
          c_string-space 32 (k ++ b'\n' ∷ []) (λ e. omega arith),
          c_string-solid k (b'\n' ∷ []) (IsWordText-AllSolid k key),
          c_string-end,
          next_word-word a (k ++ b'\n' ∷ []) 32 action refl,
          next_word-space,
          next_word-word k [] b'\n' key refl,
          next_word-end,
        )
        refl

  pub parse_command-three :
      (k v : List ℕ)
      → IsWordText k
      → IsWordText v
      → parse_command (a ++ 32 ∷ (k ++ 32 ∷ (v ++ b'\n' ∷ [])))
        ≡ record { action = a; key = k; value = v }
  unfolding parse_command
  parse_command-three k v key value =
      rw
        (
          c_string-solid a (32 ∷ (k ++ 32 ∷ (v ++ b'\n' ∷ []))) (IsWordText-AllSolid a action),
          c_string-space 32 (k ++ 32 ∷ (v ++ b'\n' ∷ [])) (λ e. omega arith),
          c_string-solid k (32 ∷ (v ++ b'\n' ∷ [])) (IsWordText-AllSolid k key),
          c_string-space 32 (v ++ b'\n' ∷ []) (λ e. omega arith),
          c_string-solid v (b'\n' ∷ []) (IsWordText-AllSolid v value),
          c_string-end,
          next_word-word a (k ++ 32 ∷ (v ++ b'\n' ∷ [])) 32 action refl,
          next_word-space,
          next_word-word k (v ++ b'\n' ∷ []) 32 key refl,
          next_word-space,
          next_word-word v [] b'\n' value refl,
        )
        refl
