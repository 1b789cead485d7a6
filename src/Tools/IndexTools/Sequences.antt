-- ===== src/Tools/IndexTools/Sequences.antt =====
-- Sequences of runs of the index tools over the files of one disk: btree_lookup, btree_update,
-- btree_delete, btree_sane and btree_show in any order, each with a cache of its own.
use eecs.Prelude.{ℕ, ◌≡◌, Option, none, some, List, [], ◌∷◌, length}
use eecs.Double.{Double}
use eecs.Block.{of_text}
use eecs.Block.Hex.{print_block}
use eecs.Outcome.{Outcome, ok, ◌>>=◌}
use eecs.Disk.Init.{Files}
use eecs.BTree.Tree.{Tree, first_match, entries}
use eecs.Tools.{Exit}
use eecs.Tools.IndexTools.{btree_lookup, btree_update, btree_delete, btree_sane, btree_show}

-- The tool with its arguments after the stem and the size of the cache.
pub data Request : Type 0 where
  ask_lookup : List ℕ → Request
  ask_update : List ℕ → List ℕ → Request
  ask_delete : List ℕ → Request
  ask_sane ask_show : Request

-- The lookups are for keys of `n` bytes.
abbrev pub IsRequest : ℕ → Request → Type 0
IsRequest n (ask_lookup key) = length key ≡ n
IsRequest n _ = Unit

-- Each with the size of its cache.
abbrev pub AllRequests : ℕ → List (List ℕ × Request) → Type 0
AllRequests n [] = Unit
AllRequests n ((cachesize, r) ∷ rs) = IsRequest n r × AllRequests n rs

module _ {ℓ} (D : Type ℓ) ⦃d : Double D⦄ where
  abbrev pub printed : Option (List ℕ) → List ℕ
  printed none = []
  printed (some v) = print_block {D = D} (of_text v)

  -- What the tools print over an index with the tree, by the code. A lookup prints the block of the
  -- first pair with the key. Update, Delete and SanityCheck of btree_lab/btree.cc are not
  -- implemented, and the tools do not print the error; btree_show prints with BTreeIndex::Print,
  -- whose body is not written, so nothing, where btree_lab/README says that it displays the pairs.
  abbrev pub printed_for : ℕ → Tree → Request → List ℕ
  printed_for n t (ask_lookup key) = printed (first_match n key (entries t))
  printed_for n t _ = []

  -- The status and the output of each tool.
  abbrev pub all_printed : ℕ → Tree → List (List ℕ × Request) → List (ℕ × List ℕ)
  all_printed n t [] = []
  all_printed n t ((cachesize, r) ∷ rs) = (0, printed_for n t r) ∷ all_printed n t rs

  abbrev pub run_request : ℕ → List ℕ → List ℕ → Request → Files → Outcome Exit
  run_request fuel filestem cachesize (ask_lookup key) files =
      btree_lookup D fuel (filestem ∷ cachesize ∷ key ∷ []) files
  run_request fuel filestem cachesize (ask_update key value) files =
      btree_update D (filestem ∷ cachesize ∷ key ∷ value ∷ []) files
  run_request fuel filestem cachesize (ask_delete key) files =
      btree_delete D (filestem ∷ cachesize ∷ key ∷ []) files
  run_request fuel filestem cachesize ask_sane files =
      btree_sane D (filestem ∷ cachesize ∷ []) files
  run_request fuel filestem cachesize ask_show files =
      btree_show D (filestem ∷ cachesize ∷ []) files

  -- One after the other, on the files that the one before has left.
  unfoldable pub run_requests :
      ℕ → List ℕ → List (List ℕ × Request) → Files → Outcome (List (ℕ × List ℕ) × Files)
  run_requests fuel filestem [] files = ok ([], files)
  run_requests fuel filestem ((cachesize, r) ∷ rs) files = do
    e ← run_request fuel filestem cachesize r files
    rest ← run_requests fuel filestem rs e.files
    ok ((e.status, e.out) ∷ rest.0, rest.1)
