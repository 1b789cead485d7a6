-- ===== src/Disk/Config/Enough.antt =====
-- The fuel of GETNEXTVAL.
use eecs.Prelude.{
  ℕ, zero, suc, ◌≤◌, ◌<◌, ◌≡◌, ◌∙◌, refl, sym, ap, inl, inr, Bool-cases, List, [], ◌∷◌, length,
  ◌==◌, arith,
}
use eecs.Double.{Double}
use eecs.Outcome.{Outcome, ok, crash, ◌>>=◌, bind_same}
use eecs.Text.{fgets, c_string}
use eecs.Disk.{Disk}
use eecs.Text.Lines.{length-take_line, take_line_below}
use eecs.Disk.Config.{Input, chomp, accept, get_next_val, read_config_within, read_config}

-- At the end of the file a comment is read again and again.
pub comment_at_end : (fuel : ℕ) (buf : List ℕ) → get_next_val fuel (b'#' ∷ buf, []) ≡ crash
unfolding get_next_val fgets accept
comment_at_end zero buf = refl
comment_at_end (suc fuel) buf = comment_at_end fuel buf

at_end :
    (fuel fuel' : ℕ) (buf : List ℕ)
    → get_next_val (suc fuel) (buf, []) ≡ get_next_val (suc fuel') (buf, [])
unfolding get_next_val fgets accept
at_end fuel fuel' [] = refl
at_end fuel fuel' (c ∷ buf) = elim (Bool-cases (c == b'#')) [
  | inl comment ↦
      let hash : c ≡ b'#' = ground (arith, comment) in
      rw hash (comment_at_end (suc fuel) buf ∙ sym (comment_at_end (suc fuel') buf))
  | inr value ↦ rw value refl
]

length-fgets :
    (buf : List ℕ) (c : ℕ) (rest : List ℕ) → length (fgets 79 buf (c ∷ rest)).1 ≤ length rest
unfolding fgets
length-fgets buf c rest = length-take_line 78 c rest

at_most_trans : (a b c : ℕ) → a ≤ b → b ≤ c → a ≤ c
at_most_trans a b c h k = omega arith

pub fgets_below :
    (buf : List ℕ) (c k : ℕ) (rest : List ℕ)
    → length (c ∷ rest) < suc k
    → length (fgets 79 buf (c ∷ rest)).1 < k
unfolding fgets
fgets_below buf c k rest h = take_line_below 78 c k rest h

-- GETNEXTVAL has the same outcome with every fuel above the number of bytes that are left of the file:
-- the loop ends within so many rounds, or it is at the end of the file with a comment in the buffer and
-- never ends.
pub get_next_val_enough :
    (fuel fuel' : ℕ) (buf rest : List ℕ)
    → length rest < fuel
    → length rest < fuel'
    → get_next_val fuel (buf, rest) ≡ get_next_val fuel' (buf, rest)
unfolding get_next_val accept
get_next_val_enough (suc fuel) (suc fuel') buf [] h h' = at_end fuel fuel' buf
get_next_val_enough (suc fuel) (suc fuel') buf (c ∷ rest) h h' =
    let next = fgets 79 buf (c ∷ rest) in
    ap (λ again. accept again next)
      (get_next_val_enough fuel fuel' next.0 next.1 (fgets_below buf c fuel rest h)
        (fgets_below buf c fuel' rest h'))
get_next_val_enough zero fuel' buf rest h h' = absurd (omega arith)
get_next_val_enough (suc fuel) zero buf rest h h' = absurd (omega arith)

length-fgets_any : (buf rest : List ℕ) → length (fgets 79 buf rest).1 ≤ length rest
unfolding fgets
length-fgets_any buf [] = omega arith
length-fgets_any buf (c ∷ rest) = let shorter = length-fgets buf c rest in at_most _ _ shorter
  where
    at_most : (a b : ℕ) → a ≤ b → a ≤ suc b
    at_most a b h = omega arith

accept_shrinks :
    (again : Outcome Input) (next j : Input) (n : ℕ)
    → length next.1 ≤ n
    → (again ≡ ok j → length j.1 ≤ n)
    → accept again next ≡ ok j
    → length j.1 ≤ n
unfolding accept
accept_shrinks again ([], rest) j n small deeper e = absurd (ground (arith, e))
accept_shrinks again (c ∷ buf, rest) j n small deeper e = elim (Bool-cases (c == b'#')) [
  | inl comment ↦ deeper (rw comment at e)
  | inr value ↦ ground (arith, rw value at e, small)
]

get_next_val_shrinks :
    (fuel : ℕ) (buf rest : List ℕ) (j : Input)
    → get_next_val fuel (buf, rest) ≡ ok j
    → length j.1 ≤ length rest
unfolding get_next_val accept
get_next_val_shrinks zero buf rest j e = absurd (ground (arith, e))
get_next_val_shrinks (suc fuel) buf rest j e =
    let next = fgets 79 buf rest in
    accept_shrinks (get_next_val fuel next) next j (length rest) (length-fgets_any buf rest)
      (λ d.
        at_most_trans _ _ _ (get_next_val_shrinks fuel next.0 next.1 j d)
          (length-fgets_any buf rest))
      e

module _ {κ} {B : Type κ} (fuel n : ℕ) (h : n < fuel) where
  -- One value, and what is done with it.
  next_same :
      (i : Input) (f f' : Input → Outcome B)
      → length i.1 ≤ n
      → ((j : Input) → length j.1 ≤ n → f j ≡ f' j)
      → (get_next_val fuel i >>= f) ≡ (get_next_val (suc n) i >>= f')
  next_same i f f' small same =
      rw (get_next_val_enough fuel (suc n) i.0 i.1 (omega arith) (omega arith)) (
        bind_same (get_next_val (suc n) i) f f'
          (λ j e. same j (at_most_trans _ _ _ (get_next_val_shrinks (suc n) i.0 i.1 j e) small)))

module _ {ℓ} {D : Type ℓ} ⦃d : Double D⦄ where
  -- ReadConfig has the same outcome with every number of rounds for each value that is above the
  -- length of the configuration file: no loop is cut off that would end.
  pub read_config_within_enough :
      (fuel : ℕ) (dk : Disk D)
      → length dk.configfile < fuel
      → read_config_within fuel dk ≡ read_config dk
  unfolding read_config
  read_config_within_enough fuel dk h =
      let n = length dk.configfile in
      let next = next_same {B = Disk D} fuel n h in
      next ([], dk.configfile) _ _ (omega arith)
        (λ stem r. bind_same (chomp (c_string stem.0)) _ _ (λ name _. next stem _ _ r (λ offset r1.
          next offset _ _ r1 (λ numblocks r2. next numblocks _ _ r2 (λ blocksize r3.
            next blocksize _ _ r3 (λ numheads r4. next numheads _ _ r4 (λ blockspertrack r5.
              next blockspertrack _ _ r5 (λ numtracks r6. next numtracks _ _ r6 (λ averageseek r7.
                next averageseek _ _ r7
                  (λ trackseek r8. next trackseek _ _ r8 (λ rotation r9. refl)))))))))))
