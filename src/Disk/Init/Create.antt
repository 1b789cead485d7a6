-- ===== src/Disk/Init/Create.antt =====
-- A new disk: the constructor with parameters, and the disk opened again after the destructor.
use eecs.Prelude.{
  ℕ, zero, suc, ◌≤◌, ◌<◌, ◌≡◌, refl, ap, true, false, none, some, List, length, ◌/◌, get_or, not,
  holds_below, holds_below_lem, replicate, length-replicate, arith,
}
use eecs.Error.{no_error, badconfig}
use eecs.Double.{Double}
use eecs.File.Contents.{written}
use eecs.Outcome.{ok, err}
use eecs.Bitmap.{get_bit, byte_bit, place}
use eecs.Disk.{Disk, sanity_check_config, is_block_allocated, numbitmapbytes}
use eecs.Disk.Config.{write_config}
use eecs.Disk.Config.RoundTrip.{IsConfig}
use eecs.Disk.Init.{
  Files, new_file, open_data, init_from_in_memory_config, construct, open_disk, close_disk,
}
use eecs.Disk.Init.Reopen.{
  IsReady, reopened, write_bitmap_lem, close_disk_lem, IsConfig-parameters, open_disk-close_disk,
}

get_or-replicate_zero : (n i : ℕ) → get_or {A = ℕ} (replicate n 0) i 0 ≡ 0
get_or-replicate_zero zero i = refl
get_or-replicate_zero (suc n) zero = refl
get_or-replicate_zero (suc n) (suc i) = get_or-replicate_zero n i

zero_byte_clear : holds_below (λ i. not (byte_bit 0 i)) 8 ≡ true
unfolding holds_below byte_bit
zero_byte_clear = refl

get_bit-replicate_zero : (n y : ℕ) → get_bit (replicate n 0) y ≡ false
unfolding get_bit
get_bit-replicate_zero n y =
    rw (get_or-replicate_zero n (y / 8))
      (ground (arith, holds_below_lem (λ i. not (byte_bit 0 i)) 8 zero_byte_clear (place y)))

module _ {ℓ} {D : Type ℓ} ⦃d : Double D⦄ where
  -- The disk that the constructor makes of these parameters.
  abbrev pub created : Files → Disk D → Disk D
  created files dk = record dk {
    configfile = (write_config dk).0.configfile;
    bitmap = replicate (numbitmapbytes dk) 0;
    bitmapfile = written (new_file files.room) 0 (replicate (numbitmapbytes dk) 0);
    datafile = open_data files;
  }

  -- What the constructor needs to make a new disk.
  pub record IsFresh (files : Files) (dk : Disk D) : Type ℓ where
    pub config : IsConfig dk
    pub sane : sanity_check_config dk ≡ no_error
    pub some_block : 0 < dk.numblocks
    pub no_config : files.config ≡ none
    pub no_bitmap : files.bitmapfile ≡ none
    pub room : numbitmapbytes dk ≤ files.room

  pub init-created :
      (files : Files) (dk : Disk D)
      → IsFresh files dk
      → init_from_in_memory_config files dk ≡ ok (created files dk, no_error)
  unfolding init_from_in_memory_config write_config
  init-created files dk h =
      let bits : length (replicate (numbitmapbytes dk) 0) ≡ numbitmapbytes dk =
        length-replicate (numbitmapbytes dk) 0 in
      let wrote =
        write_bitmap_lem
          (record (write_config dk).0 {
            bitmap = replicate (numbitmapbytes dk) 0;
            bitmapfile = new_file files.room;
          })
          bits h.room h.some_block in
      simp (h.sane, h.no_config, h.no_bitmap, wrote)

  pub init_refused :
      (files : Files) (dk : Disk D) (text : List ℕ)
      → sanity_check_config dk ≡ no_error
      → files.config ≡ some text
      → init_from_in_memory_config files dk ≡ err badconfig
  unfolding init_from_in_memory_config
  init_refused files dk text sane there = simp (sane, there)

  pub created-IsReady :
      (files : Files) (dk : Disk D) → IsFresh files dk → IsReady (created files dk)
  unfolding sanity_check_config
  created-IsReady files dk h = record {
    config = IsConfig-parameters dk (created files dk) h.config;
    sane = h.sane;
    some_block = h.some_block;
    bits = length-replicate (numbitmapbytes dk) 0;
    room = h.room;
  }

  -- With parameters that pass the checks and can be printed, no configuration or bitmap file of the
  -- stem, and room for the bitmap, the constructor makes a disk with those parameters and no block
  -- allocated, over the data file that is there or a new one; after the destructor the constructor
  -- without parameters opens the same disk again. With a configuration or bitmap file it refuses.
  pub construct-open_disk :
      (files : Files) (dk : Disk D) (room : ℕ) (filestem : List ℕ)
      → IsFresh files dk
      → (construct files true dk ≡ ok (created files dk, no_error))
        × ((y : ℕ) → is_block_allocated (created files dk) y ≡ false)
        × (open_disk (close_disk room (created files dk)) filestem
            ≡ ok (reopened (created files dk), no_error))
        × (construct (close_disk room (created files dk)) true dk ≡ err badconfig)
  unfolding construct is_block_allocated
  construct-open_disk files dk room filestem h = (
    init-created files dk h,
    λ y. get_bit-replicate_zero (numbitmapbytes dk) y,
    open_disk-close_disk (created files dk) room filestem (created-IsReady files dk h),
    init_refused (close_disk room (created files dk)) dk _ h.sane
        (ap (λ f. f.config) (close_disk_lem (created files dk) room (created-IsReady files dk h))),
  )
