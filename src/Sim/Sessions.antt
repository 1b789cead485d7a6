-- ===== src/Sim/Sessions.antt =====
-- Whole sessions of sim.cc: the loop over the lines of the input.
use mathlib.Core.List.{append_assoc}
use eecs.Prelude.{
  ℕ, zero, suc, ◌+◌, ◌≤◌, ◌<◌, ◌≡◌, ◌∙◌, refl, true, List, [], ◌∷◌, ◌++◌, length, length-append,
  ltb, arith,
}
use eecs.Double.{Double}
use eecs.Block.{Block}
use eecs.Cache.{Cache}
use eecs.Cache.Coherent.{IsCoherent}
use eecs.Outcome.{Outcome, ok, ◌>>=◌}
use eecs.Text.{codes, atoi}
use eecs.Text.Decimal.{atoi-IsWord}
use eecs.Text.Lines.{IsLine, IsLine-append, take_line-line}
use eecs.Node.{metadata_size, make}
use eecs.BTree.{Index, new_index}
use eecs.BTree.Attach.{rest_of_disk, attach_lem}
use eecs.BTree.Same.{attach-Same}
use eecs.BTree.FreeList.{IsIndex}
use eecs.BTree.Scans.{Shows}
use eecs.Node.Transfer.{Holds}
use eecs.Disk.Same.{Same}
use eecs.BTree.Tree.{Tree, bare, IsSearchTree}
use eecs.BTree.Lookup.{height}
use eecs.Sim.{do_init, action_of, Session, no_index, with_index, ok_line, step, run}
use eecs.Sim.Words.{
  AllSolid, IsWordText, IsWordText-AllSolid, is_word-IsWordText, c_string-word, parse_command-three,
}
use eecs.Sim.Answers.{
  Query, lookup_key, delete_key, update_key, display_all, line_of, IsQuery, AllQueries, answers,
  text_of, IsOpen, Kept, Kept-refl, Kept-trans, IsOpen-Kept, step_query,
}

AllSolid-IsLine : (v : List ℕ) → AllSolid v → IsLine v
AllSolid-IsLine [] h = tt
AllSolid-IsLine (c ∷ v) h = ((λ e. ground (arith, h.0, e)), h.1, AllSolid-IsLine v h.2)

IsWordText-IsLine : (v : List ℕ) → IsWordText v → IsLine v
IsWordText-IsLine v h = AllSolid-IsLine v (IsWordText-AllSolid v h)

-- A word, a space and the rest of a line.
spaced-IsLine : (v w : List ℕ) → IsWordText v → IsLine w → IsLine (v ++ 32 ∷ w)
spaced-IsLine v w h k =
    IsLine-append v (32 ∷ w) (IsWordText-IsLine v h) ((λ e. omega arith), (λ e. omega arith), k)

line_of-IsLine : (n : ℕ) (q : Query) → IsQuery n q → IsLine (line_of q)
unfolding line_of
line_of-IsLine n (lookup_key key) h =
    spaced-IsLine (codes "LOOKUP") key (is_word-IsWordText (codes "LOOKUP") refl)
      (IsWordText-IsLine key h.0)
line_of-IsLine n (delete_key key) h =
    spaced-IsLine (codes "DELETE") key (is_word-IsWordText (codes "DELETE") refl)
      (IsWordText-IsLine key h)
line_of-IsLine n (update_key key value) h =
    spaced-IsLine (codes "UPDATE") (key ++ 32 ∷ value) (is_word-IsWordText (codes "UPDATE") refl)
      (spaced-IsLine key value h.0 (IsWordText-IsLine value h.1))
line_of-IsLine n display_all h =
    IsWordText-IsLine (codes "DISPLAY") (is_word-IsWordText (codes "DISPLAY") refl)

-- INIT with two words.
abbrev pub init_line : List ℕ → List ℕ → List ℕ
init_line keysize valuesize = codes "INIT" ++ 32 ∷ (keysize ++ 32 ∷ valuesize)

is_init : action_of (codes "INIT") ≡ do_init
unfolding action_of
is_init = refl

pub height-bare : (fuel : ℕ) → 0 < fuel → height bare ≤ fuel
unfolding height
height-bare fuel h = omega arith

pub bare-IsSearchTree : (n : ℕ) → IsSearchTree n bare
unfolding IsSearchTree
bare-IsSearchTree n = tt

-- The index that INIT makes over the cache.
pub record Begins {ℓ} {D : Type ℓ} ⦃d : Double D⦄ (c : Cache D) (x : Index D) : Type ℓ where
  pub index : IsIndex x (rest_of_disk c.disk.numblocks)
  pub holds : Holds x.cache 0 x.superblock
  pub shown : Shows x.cache x.superblock.info.rootnode bare
  pub disk : Same c.disk x.cache.disk

module _ {ℓ} {D : Type ℓ} ⦃d : Double D⦄
    (insert : Block D → Block D → Index D → Outcome (Unit {0}) × Index D) (fuel : ℕ) where
  -- One round of the loop, where the line and its end fit the buffer.
  run_line :
      (rounds : ℕ) (line rest : List ℕ) (s : Session D)
      → IsLine line
      → length line < 1023
      → run insert fuel (suc rounds) (line ++ b'\n' ∷ rest) s ≡ (
          step insert fuel (line ++ b'\n' ∷ []) s >>= λ r.
          run insert fuel rounds rest r.1 >>= λ r'. ok (r.0 ++ r'.0, r'.1))
  unfolding run
  run_line rounds [] rest s h short = rw (take_line-line 8191 [] rest h (omega arith)) refl
  run_line rounds (c ∷ line) rest s h short =
      let fits : ltb (length ((c ∷ line) ++ b'\n' ∷ [])) 1024 ≡ true =
        ground (arith, length-append line (b'\n' ∷ []), short) in
      rw (take_line-line 8191 (c ∷ line) rest h (omega arith), fits) refl

  module _ (n : ℕ) (t : Tree) (enough : height t ≤ fuel) (ordered : IsSearchTree n t) where
    pub run_queries :
        (qs : List Query) (rounds : ℕ) (x : Index D)
        → length qs < rounds
        → AllQueries n qs
        → IsOpen insert fuel n t x
        → (x' : Index D) × (run insert fuel rounds (text_of qs) (with_index x)
            ≡ ok (answers n t qs, with_index x'))
          × Kept x x'
    unfolding answers
    run_queries [] (suc rounds) x more all h = (x, unfold run in refl, Kept-refl x h.coherent)
    run_queries (q ∷ qs) (suc rounds) x more all h =
        let (x1, e1, k1) = step_query insert fuel n t enough ordered x q all.0 h in
        let (x2, e2, k2) =
          run_queries qs rounds x1 (omega arith) all.2 (IsOpen-Kept insert fuel n t k1 h) in
        (
          x2,
          run_line rounds (line_of q) (text_of qs) (with_index x) (line_of-IsLine n q all.0) all.1
              ∙ rw (e1, e2) refl,
          Kept-trans k1 k2,
        )
    run_queries qs zero x more all h = absurd (omega arith)

    -- Over an index whose root shows a search tree of keys of one size, with fuel for its height,
    -- sim answers every sequence of LOOKUP, UPDATE, DELETE and DISPLAY lines: LOOKUP of a key of
    -- that size prints `OK` and the value of the first pair with the key, or `FAIL`; DISPLAY prints
    -- all pairs in order; UPDATE and DELETE print `FAIL`, whatever the tree, since the index does
    -- not implement them. The index shows the tree at the end. The keys and values are words, and
    -- the lines fit the buffer.
    pub run-answers :
        (qs : List Query) (rounds : ℕ) (x : Index D)
        → length qs < rounds
        → AllQueries n qs
        → IsOpen insert fuel n t x
        → (x' : Index D) × (run insert fuel rounds (text_of qs) (with_index x)
            ≡ ok (answers n t qs, with_index x'))
          × IsOpen insert fuel n t x'
    run-answers qs rounds x more all h =
        let (x', e, k) = run_queries qs rounds x more all h in
        (x', e, IsOpen-Kept insert fuel n t k h)

  -- INIT over a coherent cache, with what the index is then.
  step_init :
      (keysize valuesize : List ℕ) (c : Cache D)
      → IsWordText keysize
      → IsWordText valuesize
      → IsCoherent c
      → metadata_size ≤ c.disk.blocksize
      → 3 ≤ c.disk.numblocks
      → (x : Index D) × (step insert fuel (init_line keysize valuesize ++ b'\n' ∷ []) (no_index c)
          ≡ ok (ok_line, with_index x))
        × Begins c x
  unfolding step new_index make
  step_init keysize valuesize c word word' h room count =
      let x0 = new_index (atoi keysize) (atoi valuesize) c in
      let (x, e, index, root, shown, shape, holds) =
        attach_lem x0 h (atoi-IsWord keysize) (atoi-IsWord valuesize) room count in
      let same = attach-Same true x0 in
      (
        x,
        rw
            (
              append_assoc keysize (32 ∷ valuesize) (b'\n' ∷ []),
              parse_command-three (codes "INIT") (is_word-IsWordText (codes "INIT") refl) keysize
                  valuesize word word',
              is_init,
              c_string-word keysize (IsWordText-AllSolid keysize word),
              c_string-word valuesize (IsWordText-AllSolid valuesize word'),
              e,
            )
            refl,
        record { index = index; holds = holds; shown = simp root shown; disk = simp e at same },
      )

  -- On a coherent cache over a disk of at least 3 blocks with room for a node's metadata, a session
  -- of sim that begins with INIT prints `OK`, and then what an empty store answers to every sequence
  -- of LOOKUP, UPDATE, DELETE and DISPLAY lines. The sizes, keys and values are words, the lines fit
  -- the buffer, and the lookups are for keys of one size. `Begins` says what the index is after INIT,
  -- and `Kept` that it stays so.
  pub run-init :
      (keysize valuesize : List ℕ) (n : ℕ) (qs : List Query) (rounds : ℕ) (c : Cache D)
      → IsWordText keysize
      → IsWordText valuesize
      → length (init_line keysize valuesize) < 1023
      → IsCoherent c
      → metadata_size ≤ c.disk.blocksize
      → 3 ≤ c.disk.numblocks
      → 0 < fuel
      → length qs + 1 < rounds
      → AllQueries n qs
      → (x : Index D) × (x' : Index D) × (run insert fuel rounds
            (init_line keysize valuesize ++ b'\n' ∷ text_of qs)
            (no_index c)
          ≡ ok (ok_line ++ answers n bare qs, with_index x'))
        × Begins c x
        × Kept x x'
  run-init keysize valuesize n qs (suc rounds) c word word' short h room count some_fuel more all =
      let (x1, e1, h1) = step_init keysize valuesize c word word' h room count in
      let (x2, e2, k2) =
        run_queries n bare (height-bare fuel some_fuel) (bare-IsSearchTree n) qs rounds x1
          (omega arith) all (record { coherent = h1.index.coherent; shown = h1.shown }) in
      (
        x1,
        x2,
        run_line rounds (init_line keysize valuesize) (text_of qs) (no_index c)
              (spaced-IsLine (codes "INIT") _ (is_word-IsWordText (codes "INIT") refl)
                (spaced-IsLine keysize valuesize word (IsWordText-IsLine valuesize word')))
              short
            ∙ rw (e1, e2) refl,
        h1,
        k2,
      )
  run-init keysize valuesize n qs zero c word word' short h room count some_fuel more all =
      absurd (omega arith)
