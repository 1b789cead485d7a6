-- ===== src/BTree/History.antt =====
-- The allocator of btree_lab/btree.cc in use: the states that an index can reach from Attach by
-- AllocateNode, DeallocateNode and writes of nodes to the root's block and to blocks in use.
use eecs.Prelude.{ℕ, suc, ◌-◌, ◌≤◌, ◌<◌, ◌≡◌, ◌≢◌, sym, ap, ◌∙◌, true, List, [], ◌∷◌, arith}
use mathlib.Core.Path.{subst}
use eecs.Prelude.Words.{IsWord}
use eecs.Error.{nospace}
use eecs.Double.{Double}
use eecs.Cache.{Cache}
use eecs.Cache.Coherent.{IsCoherent}
use eecs.Outcome.{Outcome, ok, err, crash}
use eecs.Node.{Node, metadata_size, unallocated_block, serialize}
use eecs.Node.Codec.{IsNode}
use eecs.Node.Transfer.{Holds, Puts, serialize-Puts}
use eecs.BTree.{Index, allocate_node, deallocate_node, attach}
use eecs.BTree.FreeList.{Chain, IsIndex, Chain-Puts}
use eecs.BTree.Accounts.{count, remove, count-remove, count-range, NotIn-count, Accounts, in_use}
use eecs.BTree.Allocate.{Relisted, allocate_node_lem, deallocate_node_lem}
use eecs.BTree.Attach.{rest_of_disk, attach-IsIndex}

module _ {ℓ} {D : Type ℓ} ⦃d : Double D⦄ where
  -- The index `x` with the blocks `used` in use is reached.
  pub data Reaches : Index D → List ℕ → Type ℓ where
    attached :
        (x x' : Index D)
        → IsCoherent x.cache
        → IsWord x.superblock.info.keysize
        → IsWord x.superblock.info.valuesize
        → metadata_size ≤ x.cache.disk.blocksize
        → 3 ≤ x.cache.disk.numblocks
        → attach 0 true x ≡ (ok tt, x')
        → Reaches x' []
    taken :
        (x x' : Index D) (used : List ℕ) (n : ℕ)
        → Reaches x used
        → allocate_node x ≡ (ok n, x')
        → Reaches x' (n ∷ used)
    stored :
        (x : Index D) (c : Cache D) (used : List ℕ) (n : ℕ) (b : Node)
        → Reaches x used
        → 0 < count n (1 ∷ used)
        → n < x.cache.disk.numblocks
        → IsNode x.cache.disk.blocksize b
        → serialize b n x.cache ≡ (ok tt, c)
        → Reaches (record x { cache = c }) used
    released :
        (x x' : Index D) (used : List ℕ) (n : ℕ) (b : Node)
        → Reaches x used
        → 0 < count n used
        → Holds x.cache n b
        → IsNode x.cache.disk.blocksize b
        → b.info.nodetype ≢ unallocated_block
        → deallocate_node n x ≡ (ok tt, x')
        → Reaches x' (remove n used)

-- What two equations for one call say of its answers.
module _ {ℓ} {S : Type ℓ} where
  abbrev value_or : ℕ → Outcome ℕ × S → ℕ
  value_or k (ok n, s) = n
  value_or k (err e, s) = k
  value_or k (crash, s) = k

  same_value : {r : Outcome ℕ × S} (m n : ℕ) (s t : S) → r ≡ (ok m, s) → r ≡ (ok n, t) → m ≡ n
  same_value m n s t p q = ap (value_or 0) (sym p ∙ q)

  no_value : {r : Outcome ℕ × S} (n : ℕ) (s t : S) → r ≡ (err nospace, s) → r ≡ (ok n, t) → ⊥
  no_value n s t p q = one_is_not_zero (ap (value_or (suc n)) (sym p ∙ q))
    where
      one_is_not_zero : suc n ≡ n → ⊥
      one_is_not_zero e = omega arith

  same_state :
      {A : Type 0} {r : Outcome A × S} (o o' : Outcome A) (s t : S)
      → r ≡ (o, s)
      → r ≡ (o', t)
      → s ≡ t
  same_state o o' s t p q = ap (λ r. r.1) (sym p ∙ q)

module _ {ℓ} {D : Type ℓ} where
  abbrev pub Inv : Index D → List ℕ → Type ℓ
  Inv x used = (free : List ℕ) × IsIndex x free × Accounts free used x.cache.disk.numblocks

module _ {ℓ} {D : Type ℓ} ⦃d : Double D⦄ where
  Inv-allocated :
      {x y : Index D} (n : ℕ) (rest used : List ℕ)
      → Accounts (n ∷ rest) used x.cache.disk.numblocks
      → n ≢ 0
      → n < x.cache.disk.numblocks
      → Relisted x rest (λ _. ⊥) y
      → Inv y (n ∷ used)
  unfolding count
  Inv-allocated n rest used a nonzero inside w =
      (rest, w.index, record { all = λ k. ground (arith, a.all k, w.shape.numblocks) })

  Inv-released :
      {x y : Index D} (n : ℕ) (free used : List ℕ)
      → Accounts free used x.cache.disk.numblocks
      → 0 < count n used
      → Relisted x (n ∷ free) (λ j. j ≡ n) y
      → Inv y (remove n used)
  unfolding count
  Inv-released n free used a some_use w = (
    n ∷ free,
    w.index,
    record {
      all = λ k. ground (arith, a.all k, count-remove k n used some_use, w.shape.numblocks);
    },
  )

  Inv-stored :
      {x : Index D} {c : Cache D} {b : Node} (n : ℕ) (free used : List ℕ)
      → IsIndex x free
      → Accounts free used x.cache.disk.numblocks
      → count n free ≡ 0
      → Puts x.cache n b c
      → Inv (record x { cache = c }) used
  Inv-stored {x} n free used h a not_free p = (
    free,
    record {
      coherent = p.coherent;
      index = h.index;
      inside = rw p.shape.numblocks h.inside;
      fits = rw p.shape.blocksize h.fits;
      listed = Chain-Puts x.superblock.info.freelist free p (NotIn-count n free not_free) h.listed;
    },
    record { all = λ k. ground (arith, a.all k, p.shape.numblocks) },
  )

module _ {ℓ} {D : Type ℓ} ⦃d : Double D⦄ where
  Inv-taken :
      {x x' : Index D} (free used : List ℕ) (n : ℕ)
      → IsIndex x free
      → Accounts free used x.cache.disk.numblocks
      → allocate_node x ≡ (ok n, x')
      → Inv x' (n ∷ used) × (count n used ≡ 0)
  unfolding Chain count
  Inv-taken {x} {x'} [] used n h a e = absurd (no_value n x x' (allocate_node_lem [] h) e)
  Inv-taken {x} {x'} (m ∷ rest) used n h a e =
      let (front, nonzero, inside, b, holds, type, listed) = h.listed in
      let (y, e', w) = allocate_node_lem (m ∷ rest) h in
      let same = same_value m n y x' e' e in
      (
        subst (λ z. Inv z (n ∷ used)) (same_state (ok m) (ok n) y x' e' e)
            (subst (λ k. Inv y (k ∷ used)) same (Inv-allocated m rest used a nonzero inside w)),
        ground (arith, a.all n, same),
      )

  all_in_use :
      (x x' : Index D) (free used : List ℕ) (k : ℕ)
      → IsIndex x free
      → Accounts free used x.cache.disk.numblocks
      → allocate_node x ≡ (err nospace, x')
      → 2 ≤ k
      → k < x.cache.disk.numblocks
      → count k used ≡ 1
  unfolding count
  all_in_use x x' [] used k h a e from below = ground (arith, a.all k, from, below)
  all_in_use x x' (m ∷ rest) used k h a e from below =
      let (y, e', w) = allocate_node_lem (m ∷ rest) h in absurd (no_value m x' y e e')

  reached-Inv : {x : Index D} {used : List ℕ} → Reaches x used → Inv x used
  unfolding count
  reached-Inv (attached x x' h key_word value_word room enough e) =
      let (y, e', index, root, shown, shape) = attach-IsIndex x h key_word value_word room enough in
      subst (λ z. Inv z []) (same_state (ok tt) (ok tt) y x' e' e)
        (
          rest_of_disk x.cache.disk.numblocks,
          index,
          record {
            all = λ k.
                ground
                  (arith, count-range k 2 (x.cache.disk.numblocks - 2), shape.numblocks, enough);
          },
        )
  reached-Inv (taken x x' used n r e) =
      let (free, h, a) = reached-Inv r in (Inv-taken free used n h a e).0
  reached-Inv (stored x c used n b r some_use inside node e) =
      let (free, h, a) = reached-Inv r in
      let (c', e', p) = serialize-Puts n b h.coherent inside node in
      subst (λ z. Inv (record x { cache = z }) used) (same_state (ok tt) (ok tt) c' c e' e)
        (Inv-stored n free used h a (ground (arith, a.all n, some_use)) p)
  reached-Inv (released x x' used n b r some_use holds node type e) =
      let (free, h, a) = reached-Inv r in
      let (nonzero, inside, not_free) = in_use n a some_use in
      let (y, e', w) =
        deallocate_node_lem n free b h nonzero inside (NotIn-count n free ((in_use n a some_use).2))
          holds node type in
      subst (λ z. Inv z (remove n used)) (same_state (ok tt) (ok tt) y x' e' e)
        (Inv-released n free used a some_use w)

  -- From an index that Attach has made, with any allocations, releases of blocks in use, and writes
  -- of nodes to block 1 and to blocks in use, a block that AllocateNode then returns is not in use.
  pub allocate_node-unused :
      {x x' : Index D} {used : List ℕ} (n : ℕ)
      → Reaches x used
      → allocate_node x ≡ (ok n, x')
      → count n used ≡ 0
  allocate_node-unused {used = used} n r e =
      let (free, h, a) = reached-Inv r in (Inv-taken free used n h a e).1

  -- From an index that Attach has made, with any allocations, releases of blocks in use, and writes
  -- of nodes to block 1 and to blocks in use, AllocateNode refuses only when every block of the
  -- disk but the first two is in use, and then each of them is once.
  pub allocate_node-full :
      {x x' : Index D} {used : List ℕ} (k : ℕ)
      → Reaches x used
      → allocate_node x ≡ (err nospace, x')
      → 2 ≤ k
      → k < x.cache.disk.numblocks
      → count k used ≡ 1
  allocate_node-full {x} {x'} {used} k r e from below =
      let (free, h, a) = reached-Inv r in all_in_use x x' free used k h a e from below
