-- ===== src/BTree/Same.antt =====
-- What no operation of the index changes of the disk.
use eecs.Prelude.{
  ◌≡◌, refl, ℕ, zero, suc, Bool, true, false, inl, inr, Bool-cases, Option, List, ◌-◌, ◌==◌,
}
use eecs.Error.{Error}
use eecs.Double.{Double}
use eecs.Block.{Block, empty}
use eecs.Cache
use eecs.Cache.{Cache, get_block_size}
use eecs.Cache.Same.{read_block-SameDisk, write_block-SameDisk, notify_allocate_block-Same}
use eecs.Disk.Same.{Same, Same-refl, Same-trans}
use eecs.Outcome.{Outcome, ok, err, crash}
use eecs.Outcome.Exec.{after}
use eecs.Node.{
  Node, superblock, root_node, make, wrote, write_encoded, is_inner, leaf_node, encode_node,
  serialize, unserialize,
}
use eecs.Scan.{BTreeOp, btree_op_lookup, scan_inner, scan_leaf}
use eecs.BTree.{
  Index, set_links, write_free_nodes, create_index, attach, detach, create_if, on_cache,
  with_superblock, found, next_ptr, search_node, lookup_or_update_internal, lookup,
}

module _ {ℓ} {D : Type ℓ} ⦃d : Double D⦄ where
  after-Same :
      {A B : Type 0} (c : Cache D) (m : Outcome A × Cache D) (f : A → Cache D → Outcome B × Cache D)
      → Same c.disk m.1.disk
      → ((a : A) (c' : Cache D) → Same c'.disk (f a c').1.disk)
      → Same c.disk (after m f).1.disk
  after-Same c (ok a, c') f first next = Same-trans first (next a c')
  after-Same c (err e, c') f first next = first
  after-Same c (crash, c') f first next = first

  wrote-Same :
      (c : Cache D) (r : Cache D × Error) → Same c.disk r.0.disk → Same c.disk (wrote r).1.disk
  wrote-Same c (c', rc) h = h

  write_encoded-Same :
      (o : Outcome (List ℕ)) (k : ℕ) (c : Cache D) → Same c.disk (write_encoded o k c).1.disk
  write_encoded-Same (ok bs) k c = write_block-SameDisk c k _
  write_encoded-Same (err e) k c = Same-refl c.disk
  write_encoded-Same crash k c = Same-refl c.disk

  pub serialize-Same : (b : Node) (k : ℕ) (c : Cache D) → Same c.disk (serialize b k c).1.disk
  unfolding serialize
  serialize-Same b k c = elim (Bool-cases (b.info.blocksize == get_block_size c)) [
    | inl fits ↦ rw fits (write_encoded-Same (encode_node b) k c)
    | inr other ↦ rw other (Same-refl c.disk)
  ]

  pub unserialize-Same : (k : ℕ) (c : Cache D) → Same c.disk (unserialize k c).1.disk
  unfolding unserialize
  unserialize-Same k c = read_block-SameDisk c k empty

  write_free_nodes-Same :
      (n i keysize valuesize : ℕ) (c : Cache D)
      → Same c.disk (write_free_nodes n i keysize valuesize c).1.disk
  unfolding write_free_nodes
  write_free_nodes-Same zero i keysize valuesize c = Same-refl c.disk
  write_free_nodes-Same (suc n) i keysize valuesize c =
      after-Same c _ _ (serialize-Same _ i c)
        (λ _ c'. write_free_nodes-Same n (suc i) keysize valuesize c')

  create_index-Same :
      (keysize valuesize : ℕ) (c : Cache D) → Same c.disk (create_index keysize valuesize c).1.disk
  unfolding create_index
  create_index-Same keysize valuesize c =
      let size = get_block_size c in
      let super = set_links 1 2 (make superblock keysize valuesize size) in
      let root = set_links 1 2 (make root_node keysize valuesize size) in
      let free : Cache D → Outcome (Unit {0}) × Cache D =
        λ c3. write_free_nodes (Cache.get_num_blocks c3 - 2) 2 keysize valuesize c3 in
      let allocated : ℕ → Cache D → Cache D = λ k c'. (Cache.notify_allocate_block c' k).0 in
      let written : Cache D → Outcome (Unit {0}) × Cache D =
        λ c'. after (serialize root 1 (allocated 1 c')) (λ _. free) in
      Same-trans (notify_allocate_block-Same c 0) (
        after-Same {A = Unit} {B = Unit} (allocated 0 c) (serialize super 0 (allocated 0 c))
          (λ _. written) (serialize-Same super 0 (allocated 0 c))
          (λ _ c'. Same-trans (notify_allocate_block-Same c' 1) (
            after-Same {A = Unit} {B = Unit} (allocated 1 c') (serialize root 1 (allocated 1 c'))
              (λ _. free) (serialize-Same root 1 (allocated 1 c'))
              (λ _ c3.
                write_free_nodes-Same (Cache.get_num_blocks c3 - 2) 2 keysize valuesize c3))))

  create_if-Same :
      (create : Bool) (x : Index D) → Same x.cache.disk (create_if create x).1.cache.disk
  create_if-Same false x = Same-refl x.cache.disk
  create_if-Same true x =
      create_index-Same x.superblock.info.keysize x.superblock.info.valuesize x.cache

  abbrev keep_superblock : Outcome Node × Index D → Outcome (Unit {0}) × Index D
  keep_superblock r = after r (λ b x. (ok tt, with_superblock (λ _. b) x))

  keep_superblock-Same :
      (x : Index D) (r : Outcome Node × Cache D)
      → Same x.cache.disk r.1.disk
      → Same x.cache.disk (keep_superblock (r.0, record x { cache = r.1 })).1.cache.disk
  keep_superblock-Same x (ok b, c) h = h
  keep_superblock-Same x (err e, c) h = h
  keep_superblock-Same x (crash, c) h = h

  abbrev read_superblock : Index D → Outcome (Unit {0}) × Index D
  read_superblock x = keep_superblock (on_cache (unserialize 0) x)

  read_superblock-Same : (x : Index D) → Same x.cache.disk (read_superblock x).1.cache.disk
  read_superblock-Same x =
      keep_superblock-Same x (unserialize 0 x.cache) (unserialize-Same 0 x.cache)

  then_read-Same :
      (x : Index D) (r : Outcome (Unit {0}) × Index D)
      → Same x.cache.disk r.1.cache.disk
      → Same x.cache.disk (after r (λ _. read_superblock)).1.cache.disk
  then_read-Same x (ok _, x') h = Same-trans h (read_superblock-Same x')
  then_read-Same x (err e, x') h = h
  then_read-Same x (crash, x') h = h

  pub attach-Same :
      (create : Bool) (x : Index D) → Same x.cache.disk (attach 0 create x).1.cache.disk
  unfolding attach
  attach-Same create x =
      then_read-Same x (create_if create (record x { superblock_index = 0 }))
        (create_if-Same create (record x { superblock_index = 0 }))

  pub detach-Same : (x : Index D) → Same x.cache.disk (detach x).1.cache.disk
  unfolding detach
  detach-Same x = serialize-Same x.superblock x.superblock_index x.cache

  lookup_internal-Same :
      (fuel k : ℕ) (op : BTreeOp) (key : Block D) (c : Cache D)
      → Same c.disk (lookup_or_update_internal fuel k op key c).1.disk
  unfolding lookup_or_update_internal
  lookup_internal-Same zero k op key c = Same-refl c.disk
  lookup_internal-Same (suc fuel) k op key c =
      after-Same {A = Node} {B = List ℕ} c (unserialize k c)
        (λ b. search_node (λ next. lookup_or_update_internal fuel next op key) b op key)
        (unserialize-Same k c) (λ b c'. search-Same fuel b op key (lookup_internal-Same fuel) c')
    where
      inner-Same :
          (fuel : ℕ) (b : Node) (op : BTreeOp) (key : Block D)
          → ((k : ℕ) (op : BTreeOp) (key : Block D) (c : Cache D)
              → Same c.disk (lookup_or_update_internal fuel k op key c).1.disk)
          → (c : Cache D)
          → Same c.disk
              (after
                (scan_inner b.info.numkeys 0 b key, c)
                (λ ptr c'.
                  after
                    (next_ptr b ptr, c')
                    (λ next. lookup_or_update_internal fuel next op key))).1.disk
      inner-Same fuel b op key deeper c =
          after-Same {A = Option ℕ} {B = List ℕ} c (scan_inner b.info.numkeys 0 b key, c) _
            (Same-refl c.disk)
            (λ ptr c'.
              after-Same {A = ℕ} {B = List ℕ} c' (next_ptr b ptr, c') _ (Same-refl c'.disk)
                (λ next. deeper next op key))

      leaf-Same :
          (b : Node) (op : BTreeOp) (key : Block D) (c : Cache D)
          → Same c.disk
              (after (scan_leaf b.info.numkeys 0 b op key, c) (λ v c'. (found v, c'))).1.disk
      leaf-Same b op key c =
          after-Same {A = Option (List ℕ)} {B = List ℕ} c (scan_leaf b.info.numkeys 0 b op key, c) _
            (Same-refl c.disk) (λ v c'. Same-refl c'.disk)

      search-Same :
          (fuel : ℕ) (b : Node) (op : BTreeOp) (key : Block D)
          → ((k : ℕ) (op : BTreeOp) (key : Block D) (c : Cache D)
              → Same c.disk (lookup_or_update_internal fuel k op key c).1.disk)
          → (c : Cache D)
          → Same c.disk
              (search_node (λ next. lookup_or_update_internal fuel next op key) b op key c).1.disk
      search-Same fuel b op key deeper c = elim (Bool-cases (is_inner b.info.nodetype)) [
        | inl inner ↦ rw inner (inner-Same fuel b op key deeper c)
        | inr other ↦ elim (Bool-cases (b.info.nodetype == leaf_node)) [
          | inl leaf ↦ rw (other, leaf) (leaf-Same b op key c)
          | inr bad ↦ rw (other, bad) (Same-refl c.disk)
        ]
      ]

  pub lookup-Same :
      (fuel : ℕ) (key : Block D) (x : Index D) → Same x.cache.disk (lookup fuel key x).1.cache.disk
  unfolding lookup
  lookup-Same fuel key x =
      lookup_internal-Same fuel x.superblock.info.rootnode btree_op_lookup key x.cache

  pub lookup_index :
      (fuel : ℕ) (key : Block D) (x : Index D)
      → (lookup fuel key x).1.superblock_index ≡ x.superblock_index
  unfolding lookup
  lookup_index fuel key x = refl
