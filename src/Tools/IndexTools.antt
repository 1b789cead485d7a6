-- ===== src/Tools/IndexTools.antt =====
-- btree_lab/btree_init.cc, btree_lookup.cc, btree_insert.cc, btree_update.cc, btree_delete.cc,
-- btree_display.cc, btree_sane.cc and btree_show.cc: one operation on the index of a disk. Each opens
-- the disk, the cache and the index, does the operation, whose code it does not look at, and detaches
-- the index and the cache. Insert, whose body does not compile, is a parameter.
pub mod Stores
pub mod Sequences
pub mod Requests
pub mod Lifetime
use eecs.Prelude.{ℕ, Bool, true, false, ◌||◌, List, [], ◌∷◌, ◌++◌, ◌==◌, if◌then◌else◌}
use eecs.Error.{Error, no_error}
use eecs.Double.{Double}
use eecs.Block.{Block, of_text}
use eecs.Block.Hex.{print_block}
use eecs.Cache
use eecs.Cache.{Cache}
use eecs.Outcome.{Outcome, ok, err, crash}
use eecs.Text.{codes, atoi, print_unsigned}
use eecs.Disk.Init.{Files, open_disk}
use eecs.BTree.{Index, new_index, attach, detach, lookup, update, delete, sanity_check}
use eecs.BTree.Display.{
  BTreeDisplayType, btree_depth, btree_depth_dot, text, number, byte, Stream, Screen, display,
}
use eecs.Tools.{Exit, minus_one_status, usage_exit, with_disk}
use eecs.Tools.BufferData.{attached, leave}

-- The characters that a stream is on the standard output.
unfoldable pub render : Stream → List ℕ
render [] = []
render (text s ∷ os) = codes s ++ render os
render (number n ∷ os) = print_unsigned n ++ render os
render (byte b ∷ os) = b ∷ render os

-- What an operation prints on the standard output, and the index after it.
abbrev pub Operation {ℓ} : Type ℓ → Type ℓ
Operation D = Index D → Outcome (List ℕ) × Index D

module _ {ℓ} {D : Type ℓ} ⦃d : Double D⦄ where
  -- cache.Detach(), and return
  abbrev pub end_cache : List ℕ → Files → Cache D × Error → Outcome Exit
  end_cache out files (c, no_error) = leave 0 out files c
  end_cache out files (c, _) = leave minus_one_status out files c

  -- btree.Detach(superblocknum) first
  abbrev pub end_index : List ℕ → Files → Outcome (Unit {0}) × Index D → Outcome Exit
  end_index out files (ok _, x) = end_cache out files (Cache.detach x.cache)
  end_index out files (err _, x) = leave minus_one_status out files x.cache
  end_index out files (crash, x) = crash

  abbrev pub end_operation : Files → Outcome (List ℕ) × Index D → Outcome Exit
  end_operation files (ok out, x) = end_index out files (detach x)
  end_operation files (err _, x) = end_index [] files (detach x)
  end_operation files (crash, x) = crash

  abbrev pub operate : Operation D → Files → Outcome (Unit {0}) × Index D → Outcome Exit
  operate f files (ok _, x) = end_operation files (f x)
  operate f files (err _, x) = leave minus_one_status [] files x.cache
  operate f files (crash, x) = crash

  -- main, after its arguments
  unfoldable pub on_index_of : Bool → ℕ → ℕ → Operation D → List ℕ → List ℕ → Files → Outcome Exit
  on_index_of create keysize valuesize f filestem cachesize files =
      with_disk {D = D} (open_disk files filestem) (λ dk.
        operate f files
          (attach 0 create (new_index keysize valuesize (attached dk (atoi cachesize)))))

  abbrev pub do_nothing : Operation D
  do_nothing x = (ok [], x)

  -- An operation that prints nothing.
  abbrev silently : Outcome (Unit {0}) × Index D → Outcome (List ℕ) × Index D
  silently (ok _, x) = (ok [], x)
  silently (err e, x) = (err e, x)
  silently (crash, x) = (crash, x)

  -- cout << val, of a value that Lookup has filled
  abbrev pub show_value : Outcome (List ℕ) × Index D → Outcome (List ℕ) × Index D
  show_value (ok v, x) = (ok (print_block {D = D} (of_text v)), x)
  show_value (err e, x) = (err e, x)
  show_value (crash, x) = (crash, x)

  -- What Display has printed stays, if it fails.
  abbrev shown : Index D → Outcome (Unit {0}) × Screen D → Outcome (List ℕ) × Index D
  shown x (crash, s) = (crash, x)
  shown x (_, s) = (ok (render s.os), record x { cache = s.cache })

-- argv[3][0]=='d' || argv[3][0]=='D'
abbrev display_type : List ℕ → BTreeDisplayType
display_type [] = btree_depth
display_type (c ∷ _) = if c == b'd' || c == b'D' then btree_depth_dot else btree_depth

module _ {ℓ} (D : Type ℓ) ⦃d : Double D⦄ where
  unfoldable pub btree_init : List (List ℕ) → Files → Outcome Exit
  btree_init (filestem ∷ cachesize ∷ keysize ∷ valuesize ∷ []) files =
      on_index_of {D = D} true (atoi keysize) (atoi valuesize) do_nothing filestem cachesize files
  btree_init _ files = usage_exit files

  -- `fuel` bounds the depth of the search.
  unfoldable pub btree_lookup : ℕ → List (List ℕ) → Files → Outcome Exit
  btree_lookup fuel (filestem ∷ cachesize ∷ key ∷ []) files =
      on_index_of {D = D} false 0 0 (λ x. show_value (lookup fuel (of_text key) x)) filestem
        cachesize files
  btree_lookup fuel _ files = usage_exit files

  unfoldable pub btree_insert :
      (Block D → Block D → Index D → Outcome (Unit {0}) × Index D)
      → List (List ℕ)
      → Files
      → Outcome Exit
  btree_insert insert (filestem ∷ cachesize ∷ key ∷ value ∷ []) files =
      on_index_of {D = D} false 0 0 (λ x. silently (insert (of_text key) (of_text value) x))
        filestem cachesize files
  btree_insert insert _ files = usage_exit files

  unfoldable pub btree_update : List (List ℕ) → Files → Outcome Exit
  btree_update (filestem ∷ cachesize ∷ key ∷ value ∷ []) files =
      on_index_of {D = D} false 0 0 (λ x. silently (update key value, x)) filestem cachesize files
  btree_update _ files = usage_exit files

  unfoldable pub btree_delete : List (List ℕ) → Files → Outcome Exit
  btree_delete (filestem ∷ cachesize ∷ key ∷ []) files =
      on_index_of {D = D} false 0 0 (λ x. silently (delete key, x)) filestem cachesize files
  btree_delete _ files = usage_exit files

  unfoldable pub btree_display : ℕ → List (List ℕ) → Files → Outcome Exit
  btree_display fuel (filestem ∷ cachesize ∷ kind ∷ []) files =
      on_index_of {D = D} false 0 0 (λ x. shown x (display fuel (display_type kind) x [])) filestem
        cachesize files
  btree_display fuel _ files = usage_exit files

  unfoldable pub btree_sane : List (List ℕ) → Files → Outcome Exit
  btree_sane (filestem ∷ cachesize ∷ []) files =
      on_index_of {D = D} false 0 0 (λ x. silently (sanity_check, x)) filestem cachesize files
  btree_sane _ files = usage_exit files

  -- BTreeIndex::Print prints nothing.
  unfoldable pub btree_show : List (List ℕ) → Files → Outcome Exit
  btree_show (filestem ∷ cachesize ∷ []) files =
      on_index_of {D = D} false 0 0 do_nothing filestem cachesize files
  btree_show _ files = usage_exit files
