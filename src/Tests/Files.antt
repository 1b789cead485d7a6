-- ===== src/Tests/Files.antt =====
-- Tests of the transfers of btree_lab/disksystem.cc and of btree_lab/block.cc, and witnesses of the
-- theorems on them.
use eecs.Prelude.{ℕ, ◌≡◌, ◌↔◌, ◌⊎◌, refl, true, false, some, [], ◌∷◌, arith}
use eecs.Block.{Block, lt, eq}
use eecs.Block.Order.{IsBlock, lt_trichotomy}
use eecs.File.{mywrite, myread}
use eecs.File.Contents.{written, mywrite_lem, Reads, myread_lem}
use eecs.Tests.{empty_file, two_bytes}

mywrite_lem_example : mywrite empty_file 6 (7 ∷ 8 ∷ []) 2 ≡ (written empty_file 6 (7 ∷ 8 ∷ []), 2)
mywrite_lem_example = mywrite_lem empty_file 6 (7 ∷ 8 ∷ []) 2 refl (omega arith)

-- A read past the end of the file.
myread_lem_example : Reads empty_file 6 2 (myread empty_file 6 2 true)
myread_lem_example = myread_lem empty_file 6 2 (omega arith) (omega arith) (omega arith)

two_bytes-IsBlock : (a b : ℕ) → IsBlock 2 (two_bytes a b)
two_bytes-IsBlock a b = record { size = refl; labelled = refl }

lt_trichotomy_example :
    ((eq (two_bytes 7 8) (two_bytes 7 9) ≡ some true)
      ↔ ((two_bytes 7 8).bytes ≡ (two_bytes 7 9).bytes))
    × (((lt (two_bytes 7 8) (two_bytes 7 9) ≡ some true)
          × (eq (two_bytes 7 8) (two_bytes 7 9) ≡ some false)
          × (lt (two_bytes 7 9) (two_bytes 7 8) ≡ some false))
        ⊎ ((lt (two_bytes 7 8) (two_bytes 7 9) ≡ some false)
            × (eq (two_bytes 7 8) (two_bytes 7 9) ≡ some true)
            × (lt (two_bytes 7 9) (two_bytes 7 8) ≡ some false))
        ⊎ ((lt (two_bytes 7 8) (two_bytes 7 9) ≡ some false)
            × (eq (two_bytes 7 8) (two_bytes 7 9) ≡ some false)
            × (lt (two_bytes 7 9) (two_bytes 7 8) ≡ some true)))
lt_trichotomy_example = lt_trichotomy (two_bytes-IsBlock 7 8) (two_bytes-IsBlock 7 9)
