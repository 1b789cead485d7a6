-- ===== src/Sim/Main.antt =====
-- main of btree_lab/sim.cc: the disk, the cache, and the session on the standard input. Every round of
-- its loop takes a character at least, so the length of the input and one more is fuel enough for it.
use eecs.Prelude.{ℕ, ◌+◌, ◌≤◌, ◌<◌, ◌≡◌, refl, List, [], ◌∷◌, ◌++◌, length, length-append, arith}
use eecs.Double.{Double}
use eecs.Block.{Block}
use eecs.Cache
use eecs.Cache.{init}
use eecs.Cache.Coherent.{init-IsCoherent}
use eecs.Outcome.{Outcome, ok, err, crash}
use eecs.Text.{atoi}
use eecs.Disk.{Disk}
use eecs.Disk.Blocks.{IsDisk, SameShape-IsDisk}
use eecs.Disk.Init.{Files, open_disk, close_disk}
use eecs.Disk.Init.Reopen.{IsReady, IsReady-Same, reopened, reopened-IsReady, open_disk-close_disk}
use eecs.Node.{metadata_size}
use eecs.BTree.{Index}
use eecs.BTree.Display.{Stream}
use eecs.BTree.Tree.{bare}
use eecs.Sim.{Session, no_index, cache_of, ok_line, run}
use eecs.Sim.Words.{IsWordText}
use eecs.Sim.Answers.{Query, line_of, AllQueries, answers, text_of}
use eecs.Sim.Sessions.{init_line, run-init}
use eecs.Tools.{Exit, with_disk}
use eecs.Tools.BufferData.{attached, leave}
use eecs.Tools.BufferData.RoundTrip.{attached_lem}
use eecs.Tools.DiskData.RoundTrip.{reopened-SameShape}
use eecs.Tools.IndexTools.{render}
use eecs.Tools.IndexTools.Stores.{Stores, IsAttached, IsAttached-Keeps, detach-Stores}
use eecs.BTree.Attach.{rest_of_disk}

module _ {ℓ} {D : Type ℓ} ⦃d : Double D⦄ where
  -- return 0, with the destructors of the cache and the disk. A run has no error of its own.
  abbrev end_session : Files → Outcome (Stream × Session D) → Outcome Exit
  end_session files (ok (os, s)) = leave 0 (render os) files (cache_of s)
  end_session files (err _) = crash
  end_session files crash = crash

  unfoldable pub sim :
      (Block D → Block D → Index D → Outcome (Unit {0}) × Index D)
      → ℕ
      → List (List ℕ)
      → List ℕ
      → Files
      → Outcome Exit
  sim insert fuel (filestem ∷ cachesize ∷ []) input files =
      with_disk {D = D} (open_disk files filestem) (λ dk.
        end_session files
          (run insert fuel (length input + 1) input (no_index (attached dk (atoi cachesize)))))
  sim insert fuel _ input files = ok (record { status = 1; out = []; files = files })

length-text_of : (qs : List Query) → length qs ≤ length (text_of qs)
length-text_of [] = omega arith
length-text_of (q ∷ qs) =
    omega (arith, length-append (line_of q) (b'\n' ∷ text_of qs), length-text_of qs)

module _ {ℓ} {D : Type ℓ} ⦃d : Double D⦄
    (insert : Block D → Block D → Index D → Outcome (Unit {0}) × Index D) (fuel : ℕ) where
  -- On the files of a disk that can be closed and opened, with at least 3 blocks that each have
  -- room for a node's metadata, sim with a cache of any size, given a line INIT and any sequence of
  -- LOOKUP, UPDATE, DELETE and DISPLAY lines, exits with 0 and prints `OK` and what an empty store
  -- answers, and the files that it leaves store an index with no keys and every block from block 2
  -- on free. The sizes, keys and values are words, the lines fit the buffer, and the lookups are
  -- for keys of one size.
  pub sim-answers :
      (dk : Disk D) (room n : ℕ) (filestem cachesize keysize valuesize : List ℕ) (qs : List Query)
      → IsReady dk
      → IsDisk dk
      → metadata_size ≤ dk.blocksize
      → 3 ≤ dk.numblocks
      → 0 < fuel
      → IsWordText keysize
      → IsWordText valuesize
      → length (init_line keysize valuesize) < 1023
      → AllQueries n qs
      → (dk' : Disk D) × (room' : ℕ) × (sim insert fuel
            (filestem ∷ cachesize ∷ [])
            (init_line keysize valuesize ++ b'\n' ∷ text_of qs)
            (close_disk room dk)
          ≡ ok (record {
            status = 0;
            out = render (ok_line ++ answers n bare qs);
            files = close_disk room' dk';
          }))
        × Stores dk' (rest_of_disk dk.numblocks) bare
  unfolding sim init
  sim-answers dk room n filestem cachesize keysize valuesize qs ready h fits count some_fuel word
        word' short all =
      let size = atoi cachesize in
      let input = init_line keysize valuesize ++ b'\n' ∷ text_of qs in
      let (coherent, shown) =
        init-IsCoherent (reopened dk) size (SameShape-IsDisk (reopened-SameShape dk) h) in
      let more : length qs + 1 < length input + 1 = omega (
        arith,
        length-append (init_line keysize valuesize) (b'\n' ∷ text_of qs),
        length-text_of qs,
      ) in
      let (x1, x2, e, begins, kept) =
        run-init insert fuel keysize valuesize n qs (length input + 1) (init (reopened dk) size)
          word word' short coherent fits count some_fuel more all in
      let attached_index : IsAttached x1 (rest_of_disk dk.numblocks) bare = record {
        ready = IsReady-Same begins.disk (reopened-IsReady ready);
        index = begins.index;
        holds = begins.holds;
        shown = begins.shown;
      } in
      (
        (Cache.detach x2.cache).0.disk,
        (close_disk room dk).room,
        rw (open_disk-close_disk dk room filestem ready, attached_lem (reopened dk) size, e) refl,
        detach-Stores (IsAttached-Keeps attached_index kept.keeps kept.disk kept.index kept.super),
      )
