-- ===== src/Disk/Config/Ends.antt =====
-- The loop of GETNEXTVAL of btree_lab/disksystem.cc, without fuel, and that the fuel is enough.
use eecs.Prelude.{
  ℕ, zero, suc, ◌<◌, ◌≡◌, ◌≢◌, refl, inl, inr, Bool-cases, List, [], ◌∷◌, length, ◌==◌, arith,
}
use eecs.Outcome.{Outcome, ok, crash}
use eecs.Text.{fgets}
use eecs.Disk.Config.{Input, accept, get_next_val}
use eecs.Disk.Config.Enough.{comment_at_end, fgets_below}

-- GETNEXTVAL without fuel, from the buffer and the rest of the file: a derivation has a step for each
-- round. The loop ends with the first line that is no comment, or with an access before an empty
-- string. It does not end only where a comment's round leaves the buffer and the file as they were.
pub data Takes : Input → Outcome Input → Type 0 where
  value :
      {buf rest : List ℕ} (c : ℕ) (v rest' : List ℕ)
      → fgets 79 buf rest ≡ (c ∷ v, rest')
      → c ≢ b'#'
      → Takes (buf, rest) (ok (c ∷ v, rest'))
  blank :
      {buf rest : List ℕ} (rest' : List ℕ)
      → fgets 79 buf rest ≡ ([], rest')
      → Takes (buf, rest) crash
  comment :
      {buf rest : List ℕ} (v rest' : List ℕ) (o : Outcome Input)
      → fgets 79 buf rest ≡ (b'#' ∷ v, rest')
      → Takes (b'#' ∷ v, rest') o
      → Takes (buf, rest) o
  spins :
      (v rest : List ℕ) → fgets 79 (b'#' ∷ v) rest ≡ (b'#' ∷ v, rest) → Takes (b'#' ∷ v, rest) crash

-- A round whose line is in `next`, with the rest of the loop from there.
round-Takes :
    {buf rest : List ℕ} (next : Input) (o : Outcome Input)
    → fgets 79 buf rest ≡ next
    → Takes next o
    → Takes (buf, rest) (accept o next)
unfolding accept
round-Takes ([], rest') o e more = blank rest' e
round-Takes {buf} {rest} (c ∷ v, rest') o e more = elim (Bool-cases (c == b'#')) [
  | inl hash ↦
      let same : c ≡ b'#' = ground (arith, hash) in
      rw hash (comment v rest' o (rw same at e) (rw same at more))
  | inr other ↦ rw other (value c v rest' e (ground (arith, other)))
]

-- With more rounds than bytes are left of the file, the outcome of GETNEXTVAL is one that `Takes`
-- derives: after finitely many rounds, each a line that fgets takes from what the round before has
-- left, it is the first line that is no comment; it is a crash only where the string is empty or
-- where a round on a comment leaves the buffer and the file as they were, so that the loop does not
-- end.
pub get_next_val-Takes :
    (fuel : ℕ) (buf rest : List ℕ)
    → length rest < fuel
    → Takes (buf, rest) (get_next_val fuel (buf, rest))
unfolding get_next_val fgets accept
get_next_val-Takes (suc fuel) [] [] h = blank [] refl
get_next_val-Takes (suc fuel) (c ∷ v) [] h = elim (Bool-cases (c == b'#')) [
  | inl hash ↦
      let same : c ≡ b'#' = ground (arith, hash) in
      rw (same, comment_at_end (suc fuel) v) (spins v [] refl)
  | inr other ↦ rw other (value c v [] refl (ground (arith, other)))
]
get_next_val-Takes (suc fuel) buf (c ∷ rest) h =
    let next = fgets 79 buf (c ∷ rest) in
    round-Takes next (get_next_val fuel next) refl
      (get_next_val-Takes fuel next.0 next.1 (fgets_below buf c fuel rest h))
get_next_val-Takes zero buf rest h = absurd (omega arith)
