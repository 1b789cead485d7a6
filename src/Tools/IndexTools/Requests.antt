-- ===== src/Tools/IndexTools/Requests.antt =====
-- Sequences of runs of the index tools over the files of one disk: btree_init, and then btree_lookup,
-- btree_update, btree_delete, btree_sane and btree_show in any order, each with a cache of its own.
use eecs.Prelude.{ℕ, ◌≤◌, ◌<◌, ◌≡◌, refl, true, Option, none, some, List, [], ◌∷◌, length}
use eecs.Double.{Double}
use eecs.Block.{of_text}
use eecs.Block.Order.{IsBlock}
use eecs.Outcome.{Outcome, ok}
use eecs.Text.{atoi}
use eecs.Text.Decimal.{atoi-IsWord}
use eecs.Disk.{Disk}
use eecs.Disk.Blocks.{IsDisk, SameShape-IsDisk}
use eecs.Disk.Init.{Files, close_disk}
use eecs.Disk.Init.Reopen.{IsReady, IsReady-Same, reopened, reopened-IsReady, open_disk-close_disk}
use eecs.Cache.{init}
use eecs.Cache.Coherent.{init-IsCoherent}
use eecs.Node.{metadata_size, make}
use eecs.BTree.{Index, new_index, detach, lookup, found, update, delete, sanity_check}
use eecs.BTree.Attach.{rest_of_disk, attach_lem}
use eecs.BTree.Same.{lookup_index, attach-Same, lookup-Same}
use eecs.BTree.Tree.{Tree, bare, first_match, entries, IsSearchTree}
use eecs.BTree.Lookup.{height, lookup-entries}
use eecs.Sim.Sessions.{height-bare, bare-IsSearchTree}
use eecs.Tools.{Exit}
use eecs.Tools.BufferData.RoundTrip.{attached_lem}
use eecs.Tools.DiskData.RoundTrip.{reopened-SameShape}
use eecs.Tools.IndexTools.{
  on_index_of, show_value, end_operation, end_index, btree_init, btree_lookup, btree_update,
  btree_delete, btree_sane, btree_show,
}
use eecs.Tools.IndexTools.Stores.{
  Stores, IsAttached, IsAttached-Keeps, operate_lem, end_index-Stores,
}
use eecs.Tools.IndexTools.Sequences.{
  Request, ask_lookup, ask_update, ask_delete, ask_sane, ask_show, IsRequest, AllRequests, printed,
  printed_for, all_printed, run_request, run_requests,
}

module _ {ℓ} (D : Type ℓ) ⦃d : Double D⦄ where
  -- The tool exits with 0 and prints `out`, and the index is on the disk that it leaves.
  abbrev Serves : List ℕ → Tree → List ℕ → Outcome Exit → Type ℓ
  Serves free t out r =
      (dk' : Disk D) × (room' : ℕ) × (r
        ≡ ok (record { status = 0; out = out; files = close_disk room' dk' }))
      × Stores dk' free t

module _ {ℓ} {D : Type ℓ} ⦃d : Double D⦄ where
  shown_found :
      (o : Option (List ℕ)) (files : Files) (x : Index D)
      → end_operation files (show_value (found o, x)) ≡ end_index (printed D o) files (detach x)
  shown_found none files x = refl
  shown_found (some v) files x = refl

module _ {ℓ} {D : Type ℓ} ⦃d : Double D⦄ (fuel n : ℕ) (t : Tree) (enough : height t ≤ fuel)
    (ordered : IsSearchTree n t) where
  lookup-IsAttached :
      {free : List ℕ} (files : Files) (key : List ℕ)
      → length key ≡ n
      → (x : Index D) → IsAttached x free t
      → (x' : Index D) × (end_operation files (show_value (lookup fuel (of_text key) x))
          ≡ end_index (printed D (first_match n key (entries t))) files (detach x'))
        × IsAttached x' free t
  unfolding of_text
  lookup-IsAttached files key size x a =
      let sized : IsBlock n (of_text {D = D} key) = record { size = size; labelled = size } in
      let (x', e, k, super) =
        lookup-entries sized x t fuel enough a.index.coherent ordered a.shown in
      let same = lookup-Same fuel (of_text key) x in
      let index = lookup_index fuel (of_text key) x in
      (
        x',
        rw e (shown_found (first_match n key (entries t)) files x'),
        IsAttached-Keeps a k (simp e at same) (simp e at index) super,
      )

  request_lem :
      {dk : Disk D} {free : List ℕ} (room : ℕ) (filestem cachesize : List ℕ) (r : Request)
      → IsRequest n r
      → Stores dk free t
      → Serves D free t
          (printed_for D n t r)
          (run_request D fuel filestem cachesize r (close_disk room dk))
  unfolding btree_lookup btree_update btree_delete btree_sane btree_show update delete sanity_check
  request_lem {dk} {free} room filestem cachesize (ask_lookup key) size h =
      let (dk', e, stores) =
        operate_lem room filestem cachesize (λ x. show_value (lookup fuel (of_text key) x))
          (printed D (first_match n key (entries t))) h
          (lookup-IsAttached (close_disk room dk) key size) in
      (dk', (close_disk room dk).room, e, stores)
  request_lem {dk} room filestem cachesize (ask_update key value) _ h =
      let (dk', e, stores) = operate_lem room filestem cachesize _ [] h (λ x a. (x, refl, a)) in
      (dk', (close_disk room dk).room, e, stores)
  request_lem {dk} room filestem cachesize (ask_delete key) _ h =
      let (dk', e, stores) = operate_lem room filestem cachesize _ [] h (λ x a. (x, refl, a)) in
      (dk', (close_disk room dk).room, e, stores)
  request_lem {dk} room filestem cachesize ask_sane _ h =
      let (dk', e, stores) = operate_lem room filestem cachesize _ [] h (λ x a. (x, refl, a)) in
      (dk', (close_disk room dk).room, e, stores)
  request_lem {dk} room filestem cachesize ask_show _ h =
      let (dk', e, stores) = operate_lem room filestem cachesize _ [] h (λ x a. (x, refl, a)) in
      (dk', (close_disk room dk).room, e, stores)

  -- Over the files of a disk that stores an index whose tree is a search tree of keys of one size,
  -- with fuel for its height, every sequence of runs of btree_lookup, btree_update, btree_delete,
  -- btree_sane and btree_show, each with a cache of any size, goes through: each exits with 0, a
  -- lookup of a key of that size prints the block of the first pair with the key, or nothing if
  -- there is none, and the others print nothing, whatever the tree, since their operations are not
  -- written; the files left store an index with the same tree and the same free blocks.
  pub run_requests-Stores :
      (rs : List (List ℕ × Request)) {dk : Disk D} {free : List ℕ} (room : ℕ) (filestem : List ℕ)
      → AllRequests n rs
      → Stores dk free t
      → (dk' : Disk D) × (room' : ℕ) × (run_requests D fuel filestem rs (close_disk room dk)
          ≡ ok (all_printed D n t rs, close_disk room' dk'))
        × Stores dk' free t
  unfolding run_requests
  run_requests-Stores [] {dk} room filestem all h = (dk, room, refl, h)
  run_requests-Stores ((cachesize, r) ∷ rs) {dk} room filestem all h =
      let (dk1, room1, e, h1) = request_lem room filestem cachesize r all.0 h in
      let (dk2, room2, e', h2) = run_requests-Stores rs {dk = dk1} room1 filestem all.1 h1 in
      (dk2, room2, rw (e, e') refl, h2)

module _ {ℓ} {D : Type ℓ} ⦃d : Double D⦄ where
  init_lem :
      {dk : Disk D} (room : ℕ) (filestem cachesize keysize valuesize : List ℕ)
      → IsReady dk
      → IsDisk dk
      → metadata_size ≤ dk.blocksize
      → 3 ≤ dk.numblocks
      → Serves D
          (rest_of_disk dk.numblocks)
          bare
          []
          (btree_init D (filestem ∷ cachesize ∷ keysize ∷ valuesize ∷ []) (close_disk room dk))
  unfolding btree_init on_index_of new_index init make
  init_lem {dk} room filestem cachesize keysize valuesize ready h fits count =
      let size = atoi cachesize in
      let start = init (reopened dk) size in
      let (coherent, shown) =
        init-IsCoherent (reopened dk) size (SameShape-IsDisk (reopened-SameShape dk) h) in
      let x0 = new_index (atoi keysize) (atoi valuesize) start in
      let (x, e, index, root, shows, shape, holds) =
        attach_lem x0 coherent (atoi-IsWord keysize) (atoi-IsWord valuesize) fits count in
      let same = attach-Same true x0 in
      let attached_index : IsAttached x (rest_of_disk dk.numblocks) bare = record {
        ready = IsReady-Same (simp e at same) (reopened-IsReady ready);
        index = index;
        holds = holds;
        shown = simp root shows;
      } in
      let (dk', ended, stores) = end_index-Stores [] (close_disk room dk) attached_index in
      (
        dk',
        (close_disk room dk).room,
        rw (open_disk-close_disk dk room filestem ready, attached_lem (reopened dk) size, e) ended,
        stores,
      )

  -- On the files of a disk that can be closed and opened, with at least 3 blocks that each have
  -- room for a node's metadata, btree_init exits with 0 and prints nothing; every sequence of runs
  -- of btree_lookup, btree_update, btree_delete, btree_sane and btree_show after it, with caches of
  -- any sizes, goes through, and no lookup prints anything. The files left store an index with no
  -- keys and every block from block 2 on free. The lookups are for keys of one size.
  pub btree_init-run_requests :
      {dk : Disk D} (room fuel n : ℕ) (filestem cachesize keysize valuesize : List ℕ)
      (rs : List (List ℕ × Request))
      → IsReady dk
      → IsDisk dk
      → metadata_size ≤ dk.blocksize
      → 3 ≤ dk.numblocks
      → 0 < fuel
      → AllRequests n rs
      → (e : Exit) × (btree_init D
            (filestem ∷ cachesize ∷ keysize ∷ valuesize ∷ [])
            (close_disk room dk)
          ≡ ok e)
        × (e.status ≡ 0)
        × (e.out ≡ [])
        × (dk' : Disk D) × (room' : ℕ) × (run_requests D fuel filestem rs e.files
            ≡ ok (all_printed D n bare rs, close_disk room' dk'))
        × Stores dk' (rest_of_disk dk.numblocks) bare
  btree_init-run_requests room fuel n filestem cachesize keysize valuesize rs ready h fits count
        some_fuel all =
      let (dk1, room1, e, stores) =
        init_lem room filestem cachesize keysize valuesize ready h fits count in
      let (dk2, room2, e', stores') =
        run_requests-Stores fuel n bare (height-bare fuel some_fuel) (bare-IsSearchTree n) rs room1
          filestem all stores in
      (_, e, refl, refl, dk2, room2, e', stores')
