-- ===== src/Tools/IndexTools/Lifetime.antt =====
-- The life of a disk with an index: makedisk, btree_init and runs of the index tools.
use eecs.Prelude.{ℕ, ◌≤◌, ◌<◌, ◌≡◌, refl, ap, List, [], ◌∷◌}
use eecs.Double.{Double}
use eecs.Outcome.{ok, crash}
use eecs.Text.{atoi}
use eecs.Disk.{Disk}
use eecs.Disk.Blocks.{IsDisk}
use eecs.Disk.Init.{Files, with_parameters, construct, close_disk}
use eecs.Disk.Init.Reopen.{close_disk_lem}
use eecs.Disk.Init.Create.{IsFresh, created, created-IsReady, init_refused, construct-open_disk}
use eecs.Node.{metadata_size}
use eecs.BTree.Tree.{bare}
use eecs.Tools.{Exit}
use eecs.Tools.MakeDisk.{atof, make_disk}
use eecs.Tools.IndexTools.{btree_init}
use eecs.Tools.IndexTools.Sequences.{Request, AllRequests, all_printed, run_requests}
use eecs.Tools.IndexTools.Requests.{btree_init-run_requests}

-- The arguments of makedisk after the stem.
pub record Geometry : Type 0 where
  pub blocks : List ℕ
  pub blocksize : List ℕ
  pub heads : List ℕ
  pub blockspertrack : List ℕ
  pub tracks : List ℕ
  pub avgseek : List ℕ
  pub trackseek : List ℕ
  pub rotlat : List ℕ

abbrev pub geometry_args : List ℕ → Geometry → List (List ℕ)
geometry_args filestem g =
    filestem ∷ g.blocks ∷ g.blocksize ∷ g.heads ∷ g.blockspertrack ∷ g.tracks ∷ g.avgseek
    ∷ g.trackseek ∷ g.rotlat ∷ []

module _ {ℓ} (D : Type ℓ) ⦃d : Double D⦄ where
  -- The disk that they stand for.
  abbrev pub disk_of : List ℕ → Geometry → Disk D
  disk_of filestem g =
      with_parameters filestem 0 (atoi g.blocks) (atoi g.blocksize) (atoi g.heads)
        (atoi g.blockspertrack) (atoi g.tracks) (atof g.avgseek) (atof g.trackseek) (atof g.rotlat)

  -- Where no files of the stem are there, with parameters that pass the checks and can be printed,
  -- for at least 3 blocks that each have room for a node's metadata, and room on the device:
  -- makedisk, btree_init and then every sequence of runs of btree_lookup, btree_update,
  -- btree_delete, btree_sane and btree_show go through, all exit with 0, and nothing is found;
  -- makedisk for the same stem then crashes. The lookups are for keys of one size.
  pub make_disk-run_requests :
      (files : Files) (g : Geometry) (fuel n : ℕ) (filestem cachesize keysize valuesize : List ℕ)
      (rs : List (List ℕ × Request))
      → IsFresh files (disk_of filestem g)
      → IsDisk (created files (disk_of filestem g))
      → metadata_size ≤ atoi g.blocksize
      → 3 ≤ atoi g.blocks
      → 0 < fuel
      → AllRequests n rs
      → (e0 : Exit) × (make_disk D (geometry_args filestem g) files ≡ ok e0)
        × (e0.status ≡ 0)
        × (e1 : Exit) × (btree_init D (filestem ∷ cachesize ∷ keysize ∷ valuesize ∷ []) e0.files
            ≡ ok e1)
        × (e1.status ≡ 0)
        × (after : Files) × (run_requests D fuel filestem rs e1.files
            ≡ ok (all_printed D n bare rs, after))
        × (make_disk D (geometry_args filestem g) after ≡ crash)
  unfolding make_disk with_parameters construct
  make_disk-run_requests files g fuel n filestem cachesize keysize valuesize rs fresh disk fits
        count some_fuel all =
      let dk = disk_of filestem g in
      let made = created files dk in
      let (e, _, _, _) = construct-open_disk files dk files.room filestem fresh in
      let (e1, init, status, out, dk', room', served, stores) =
        btree_init-run_requests {dk = made} files.room fuel n filestem cachesize keysize valuesize
          rs (created-IsReady files dk fresh) disk fits count some_fuel all in
      (
        record { status = 0; out = []; files = close_disk files.room made },
        rw e refl,
        refl,
        e1,
        init,
        status,
        close_disk room' dk',
        served,
        rw
            (init_refused (close_disk room' dk') dk _ fresh.sane
              (ap (λ f. f.config) (close_disk_lem dk' room' stores.ready)))
            refl,
      )
