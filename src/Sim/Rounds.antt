-- ===== src/Sim/Rounds.antt =====
-- The loop of sim.cc over the lines of its input, without fuel, and that the fuel is enough.
use eecs.Prelude.{
  ℕ, zero, suc, ◌<◌, ◌≤◌, ◌≡◌, refl, inl, inr, Bool-cases, List, [], ◌∷◌, ◌++◌, length, ltb, arith,
}
use eecs.Double.{Double}
use eecs.Error.{Error}
use eecs.Block.{Block}
use eecs.Outcome.{Outcome, ok, err, crash, ◌>>=◌}
use eecs.Text.{take_line}
use eecs.Text.Lines.{take_line_below}
use eecs.BTree.{Index}
use eecs.BTree.Display.{Stream}
use eecs.Sim.{Session, step, run}

-- The line that fgets puts into the buffer, and what it leaves of the input.
abbrev line_at : ℕ → List ℕ → List ℕ
line_at c input = (take_line 8191 (c ∷ input)).0

abbrev after_line : ℕ → List ℕ → List ℕ
after_line c input = (take_line 8191 (c ∷ input)).1

module _ {ℓ} {D : Type ℓ} ⦃d : Double D⦄
    (insert : Block D → Block D → Index D → Outcome (Unit {0}) × Index D) (fuel : ℕ) where
  -- The loop ends, with an outcome, after the finitely many rounds of a derivation: at the end of
  -- the input, at a line that overflows the buffer, or at a line whose command has no result.
  pub data Runs : List ℕ → Session D → Outcome (Stream × Session D) → Type ℓ where
    at_end : (s : Session D) → Runs [] s (ok ([], s))
    overflows :
        (c : ℕ) (input : List ℕ) (s : Session D)
        → 1024 ≤ length (line_at c input)
        → Runs (c ∷ input) s crash
    dies :
        (c : ℕ) (input : List ℕ) (s : Session D)
        → step insert fuel (line_at c input) s ≡ crash
        → Runs (c ∷ input) s crash
    fails :
        (c : ℕ) (input : List ℕ) (s : Session D) (e : Error)
        → step insert fuel (line_at c input) s ≡ err e
        → Runs (c ∷ input) s (err e)
    goes_on :
        (c : ℕ) (input : List ℕ) (s s' : Session D) (out : Stream)
        (o : Outcome (Stream × Session D))
        → length (line_at c input) < 1024
        → step insert fuel (line_at c input) s ≡ ok (out, s')
        → Runs (after_line c input) s' o
        → Runs (c ∷ input) s (o >>= λ r. ok (out ++ r.0, r.1))

  -- A round on a line that fits, with the rest of the loop after it.
  round-Runs :
      (rounds c : ℕ) (input : List ℕ) (s : Session D) (o : Outcome (Stream × Session D))
      → length (line_at c input) < 1024
      → ((s' : Session D)
          → Runs (after_line c input) s' (run insert fuel rounds (after_line c input) s'))
      → step insert fuel (line_at c input) s ≡ o
      → Runs (c ∷ input) s (
          o >>= λ r.
          run insert fuel rounds (after_line c input) r.1 >>= λ r'. ok (r.0 ++ r'.0, r'.1))
  round-Runs rounds c input s (ok (out, s')) short more e =
      goes_on c input s s' out (run insert fuel rounds (after_line c input) s') short e (more s')
  round-Runs rounds c input s (err x) short more e = fails c input s x e
  round-Runs rounds c input s crash short more e = dies c input s e

  -- With more rounds than the input has characters, the outcome of the loop of sim is one that
  -- `Runs` derives: the loop ends after finitely many rounds, each on a line that fgets takes from
  -- what the round before has left, and prints what the rounds print, one after the other; it
  -- crashes only at a line that overflows the buffer or in a command.
  pub run-Runs :
      (rounds : ℕ) (input : List ℕ) (s : Session D)
      → length input < rounds
      → Runs input s (run insert fuel rounds input s)
  unfolding run
  run-Runs (suc rounds) [] s h = at_end s
  run-Runs (suc rounds) (c ∷ input) s h = elim (Bool-cases (ltb (length (line_at c input)) 1024)) [
    | inl fits ↦
        let more = λ (s' : Session D).
          run-Runs rounds (after_line c input) s' (take_line_below 8190 c rounds input h) in
        rw fits (
          round-Runs rounds c input s (step insert fuel (line_at c input) s) (ground (arith, fits))
            more refl)
    | inr long ↦ rw long (overflows c input s (ground (arith, long)))
  ]
  run-Runs zero input s h = absurd (omega arith)
