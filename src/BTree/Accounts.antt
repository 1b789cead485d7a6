-- ===== src/BTree/Accounts.antt =====
-- Which blocks are free and which are in use, for the allocator of btree_lab/btree.cc.
use eecs.Prelude.{
  ℕ, zero, suc, ◌+◌, ◌<◌, ◌≡◌, ◌≢◌, List, [], ◌∷◌, ◌==◌, leb, ltb, ◌&&◌, if◌then◌else◌, arith,
}
use eecs.BTree.FreeList.{NotIn}
use eecs.BTree.FreeNodes.{range}

-- How often `k` is in the list, and the list without its first `k`.
unfoldable pub count : ℕ → List ℕ → ℕ
count k [] = 0
count k (q ∷ qs) = (if k == q then 1 else 0) + count k qs

unfoldable pub remove : ℕ → List ℕ → List ℕ
remove n [] = []
remove n (q ∷ qs) = if n == q then qs else q ∷ remove n qs

pub count-remove :
    (k n : ℕ) (qs : List ℕ)
    → 0 < count n qs
    → count k (remove n qs) + (if k == n then 1 else 0) ≡ count k qs
unfolding count remove
count-remove k n [] h = absurd (omega arith)
count-remove k n (q ∷ qs) h = ground (arith, count-remove k n qs)

-- 1 for a block of the disk but the first two.
abbrev pub share : ℕ → ℕ → ℕ
share numblocks k = if leb 2 k && ltb k numblocks then 1 else 0

pub count-range : (k i n : ℕ) → count k (range i n) ≡ (if leb i k && ltb k (i + n) then 1 else 0)
unfolding count range
count-range k i zero = ground arith
count-range k i (suc n) = ground (arith, count-range k (suc i) n)

pub NotIn-count : (n : ℕ) (qs : List ℕ) → count n qs ≡ 0 → NotIn n qs
unfolding count
NotIn-count n [] h = tt
NotIn-count n (q ∷ qs) h = (λ e. ground (arith, e), NotIn-count n qs (omega arith))

-- Every block of the disk but the first two is either free or in use, and so once.
pub record Accounts (free used : List ℕ) (numblocks : ℕ) : Type 0 where
  pub all : (k : ℕ) → count k free + count k used ≡ share numblocks k

pub in_use :
    {free used : List ℕ} {numblocks : ℕ} (k : ℕ)
    → Accounts free used numblocks
    → 0 < count k used
    → (k ≢ 0) × (k < numblocks) × (count k free ≡ 0)
in_use k a h =
    (λ e. ground (arith, a.all k, h, e), ground (arith, a.all k, h), ground (arith, a.all k, h))
