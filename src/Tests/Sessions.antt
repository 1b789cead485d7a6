-- ===== src/Tests/Sessions.antt =====
-- Witnesses of the theorems on btree_lab/sim.cc and the index tools: the index of Tests.Trees, and a new
-- index on a disk of 4 blocks of 48 bytes.
use eecs.Prelude.{ℕ, ◌≡◌, refl, List, [], ◌∷◌, ◌++◌, arith}
use eecs.Block.{Block}
use eecs.Outcome.{Outcome, ok, err}
use eecs.Error.{unimpl}
use eecs.Text.{codes}
use eecs.Disk.{Disk}
use eecs.Disk.Blocks.{IsDisk}
use eecs.Disk.Init.{close_disk}
use eecs.BTree.{Index}
use eecs.BTree.Tree.{bare}
use eecs.Sim.{with_index, ok_line, run}
use eecs.Sim.Words.{is_word-IsWordText}
use eecs.Sim.Answers.{
  Query, lookup_key, delete_key, update_key, display_all, AllQueries, answers, text_of, IsOpen,
}
use eecs.Sim.Sessions.{init_line, run-answers}
use eecs.Sim.Main.{sim, sim-answers}
use eecs.Tools.IndexTools.Stores.{Stores}
use eecs.BTree.Attach.{rest_of_disk}
use eecs.Tools.IndexTools.{render}
use eecs.Tools.IndexTools.Sequences.{
  Request, ask_lookup, ask_update, ask_delete, ask_sane, ask_show,
}
use eecs.Tests.{blank, whole_times}
use eecs.Tests.Openings.{blank-IsReady}
use eecs.Tests.Trees.{tree_index, tree, tree-IsSearchTree, tree_cache-IsCoherent, tree_shown}

-- An Insert that always fails.
abbrev pub no_insert : Block ℕ → Block ℕ → Index ℕ → Outcome (Unit {0}) × Index ℕ
no_insert key value x = (err unimpl, x)

abbrev pub queries : List Query
queries =
    lookup_key (1 ∷ 1 ∷ [])
    ∷ update_key (codes "ab") (codes "xyz")
    ∷ lookup_key (codes "ab")
    ∷ delete_key (codes "ab")
    ∷ display_all
    ∷ []

queries-AllQueries : AllQueries 2 queries
unfolding eecs.Sim.Answers.line_of
queries-AllQueries =
    let ab = is_word-IsWordText (codes "ab") refl in
    let xyz = is_word-IsWordText (codes "xyz") refl in
    (
      (is_word-IsWordText (1 ∷ 1 ∷ []) refl, refl),
      omega arith,
      ((ab, xyz), omega arith, ((ab, refl), omega arith, (ab, omega arith, (tt, omega arith, tt)))),
    )

run-answers_example :
    (x' : Index ℕ) × (run no_insert 2 6 (text_of queries) (with_index tree_index)
      ≡ ok (answers 2 tree queries, with_index x'))
    × IsOpen no_insert 2 2 tree x'
unfolding eecs.BTree.Lookup.height eecs.Sim.Answers.line_of
run-answers_example =
    run-answers no_insert 2 2 tree (omega arith) tree-IsSearchTree queries 6 tree_index
      (omega arith) queries-AllQueries
      (record { coherent = tree_cache-IsCoherent; shown = tree_shown })

abbrev pub index_disk : Disk ℕ
index_disk = blank 4 48

index_disk-IsDisk : IsDisk index_disk
index_disk-IsDisk = record {
  positive = omega arith;
  numbered = omega arith;
  word = omega arith;
  fits = omega arith;
}

sim-answers_example :
    (dk' : Disk ℕ) × (room' : ℕ) × (sim no_insert 1
        (codes "d" ∷ codes "2" ∷ [])
        (init_line (codes "2") (codes "3") ++ b'\n' ∷ text_of queries)
        (close_disk 100 index_disk)
      ≡ ok (record {
        status = 0;
        out = render (ok_line ++ answers 2 bare queries);
        files = close_disk room' dk';
      }))
    × Stores dk' (rest_of_disk 4) bare
sim-answers_example =
    sim-answers no_insert 1 index_disk 100 2 (codes "d") (codes "2") (codes "2") (codes "3") queries
      (blank-IsReady 48 (omega arith)) index_disk-IsDisk (omega arith) (omega arith) (omega arith)
      (is_word-IsWordText (codes "2") refl) (is_word-IsWordText (codes "3") refl) (omega arith)
      queries-AllQueries

abbrev pub requests : List (List ℕ × Request)
requests =
    (codes "1", ask_lookup (6 ∷ 0 ∷ []))
    ∷ (codes "2", ask_update (codes "ab") (codes "xyz"))
    ∷ (codes "3", ask_delete (codes "ab"))
    ∷ (codes "4", ask_lookup (codes "ab"))
    ∷ (codes "5", ask_sane)
    ∷ (codes "6", ask_show)
    ∷ []
