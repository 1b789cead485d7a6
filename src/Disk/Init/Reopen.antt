-- ===== src/Disk/Init/Reopen.antt =====
-- A disk that is made or closed, and then opened again.
use eecs.Prelude.{ℕ, ◌≤◌, ◌<◌, ◌≡◌, ◌∙◌, refl, true, false, ◌==◌, some, List, length, arith}
use eecs.Error.{no_error}
use eecs.Double.{Double}
use eecs.File.{File, mywrite}
use eecs.File.Contents.{written, mywrite_lem, myread-written}
use eecs.Outcome.{ok}
use eecs.Disk.{Disk, sanity_check_config, numbitmapbytes, write_bitmap, read_bitmap}
use eecs.Disk.Same.{Same}
use eecs.Disk.Config.{write_config}
use eecs.Disk.Config.RoundTrip.{IsConfig, configured, read_config-write_config}
use eecs.Disk.Init.{init_from_config_file, with_parameters, construct, open_disk, close_disk}

module _ {ℓ} {D : Type ℓ} ⦃d : Double D⦄ where
  -- A configuration that passes the checks, with a bitmap of the right size and room for it.
  pub record IsReady (dk : Disk D) : Type ℓ where
    pub config : IsConfig dk
    pub sane : sanity_check_config dk ≡ no_error
    pub some_block : 0 < dk.numblocks
    pub bits : length dk.bitmap ≡ numbitmapbytes dk
    pub room : numbitmapbytes dk ≤ dk.bitmapfile.limit

  -- The disk after it has been closed and opened again.
  abbrev pub reopened : Disk D → Disk D
  reopened dk = record dk {
    configfile = (write_config dk).0.configfile;
    bitmapfile = written dk.bitmapfile 0 dk.bitmap;
    last_track = 0;
    last_sector = 0;
  }

  pub write_bitmap_lem :
      (dk : Disk D)
      → length dk.bitmap ≡ numbitmapbytes dk
      → numbitmapbytes dk ≤ dk.bitmapfile.limit
      → 0 < dk.numblocks
      → write_bitmap dk ≡ (record dk { bitmapfile = written dk.bitmapfile 0 dk.bitmap }, no_error)
  unfolding write_bitmap
  write_bitmap_lem dk size room some_block =
      let n = numbitmapbytes dk in
      let wrote : mywrite dk.bitmapfile 0 dk.bitmap n ≡ (written dk.bitmapfile 0 dk.bitmap, n) =
        ground (arith, mywrite_lem dk.bitmapfile 0 dk.bitmap n size (omega arith)) in
      let same : (n == n) ≡ true = ground arith in rw (wrote, same) refl

  read_bitmap_lem :
      (dk : Disk D) (f : File) (bits : List ℕ)
      → length bits ≡ numbitmapbytes dk
      → dk.bitmapfile ≡ written f 0 bits
      → read_bitmap dk ≡ (record dk { bitmapfile = written f 0 bits; bitmap = bits }, no_error)
  unfolding read_bitmap
  read_bitmap_lem dk f bits size e =
      let n = numbitmapbytes dk in
      let same : (n == n) ≡ true = ground arith in
      simp (e, myread-written f 0 bits n false size, same)

  pub close_disk_lem :
      (dk : Disk D) (room : ℕ)
      → IsReady dk
      → close_disk room dk ≡ record {
        config = some (write_config dk).0.configfile;
        datafile = some dk.datafile;
        bitmapfile = some (written dk.bitmapfile 0 dk.bitmap);
        room = room;
      }
  unfolding close_disk write_config
  close_disk_lem dk room h =
      rw (write_bitmap_lem (write_config dk).0 h.bits h.room h.some_block) refl

  sanity-configured :
      (dk obj : Disk D) → sanity_check_config (configured dk obj) ≡ sanity_check_config dk
  unfolding sanity_check_config
  sanity-configured dk obj = refl

  init-close_disk :
      (dk obj : Disk D) (room : ℕ)
      → IsReady dk
      → init_from_config_file (close_disk room dk) obj
        ≡ ok (
          record (reopened dk) { last_track = obj.last_track; last_sector = obj.last_sector },
          no_error,
        )
  unfolding init_from_config_file
  init-close_disk dk obj room h =
      rw
        (
          close_disk_lem dk room h,
          read_config-write_config dk obj h.config,
          sanity-configured dk obj,
          h.sane,
          read_bitmap_lem
              (record (configured dk obj) {
                datafile = dk.datafile;
                bitmapfile = written dk.bitmapfile 0 dk.bitmap;
              })
              dk.bitmapfile dk.bitmap h.bits refl,
        )
        refl

  -- A disk whose configuration passes the checks and can be printed, with a bitmap of the right
  -- size that its file has room for, is the same disk after the destructor and the constructor with
  -- any stem, but for the place of the head, which is that of a new object, and the two files
  -- written.
  pub open_disk-close_disk :
      (dk : Disk D) (room : ℕ) (filestem : List ℕ)
      → IsReady dk
      → open_disk (close_disk room dk) filestem ≡ ok (reopened dk, no_error)
  unfolding open_disk construct with_parameters
  open_disk-close_disk dk room filestem h =
      init-close_disk dk
        (with_parameters filestem 0 0 0 0 0 0 (d.of_size 0) (d.of_size 0) (d.of_size 0)) room h

  IsConfig-Same : {dk dk' : Disk D} → Same dk dk' → IsConfig dk → IsConfig dk'
  IsConfig-Same s h = record {
    diskfilestem = simp s.diskfilestem h.diskfilestem;
    offset = simp s.offset h.offset;
    numblocks = simp s.numblocks h.numblocks;
    blocksize = simp s.blocksize h.blocksize;
    numheads = simp s.numheads h.numheads;
    blockspertrack = simp s.blockspertrack h.blockspertrack;
    numtracks = simp s.numtracks h.numtracks;
    averageseeklatency = simp s.averageseeklatency h.averageseeklatency;
    trackseeklatency = simp s.trackseeklatency h.trackseeklatency;
    rotationallatency = simp s.rotationallatency h.rotationallatency;
  }

  pub IsConfig-parameters :
      (dk dk' : Disk D)
      → IsConfig dk
      → IsConfig (record dk {
        bitmap = dk'.bitmap;
        datafile = dk'.datafile;
        bitmapfile = dk'.bitmapfile;
        configfile = dk'.configfile;
        last_track = dk'.last_track;
        last_sector = dk'.last_sector;
      })
  IsConfig-parameters dk dk' h = record {
    diskfilestem = h.diskfilestem;
    offset = h.offset;
    numblocks = h.numblocks;
    blocksize = h.blocksize;
    numheads = h.numheads;
    blockspertrack = h.blockspertrack;
    numtracks = h.numtracks;
    averageseeklatency = h.averageseeklatency;
    trackseeklatency = h.trackseeklatency;
    rotationallatency = h.rotationallatency;
  }

  -- What the operations keep is enough to close the disk and open it again.
  pub IsReady-Same : {dk dk' : Disk D} → Same dk dk' → IsReady dk → IsReady dk'
  unfolding sanity_check_config
  IsReady-Same s h = record {
    config = IsConfig-Same s h.config;
    sane =
        simp
          (
            s.averageseeklatency, s.trackseeklatency, s.rotationallatency, s.numblocks, s.numheads,
            s.blockspertrack, s.numtracks,
          )
          h.sane;
    some_block = simp s.numblocks h.some_block;
    bits = s.bits ∙ simp s.numblocks h.bits;
    room = simp (s.bitmapfile, s.numblocks) h.room;
  }

  pub reopened-IsReady : {dk : Disk D} → IsReady dk → IsReady (reopened dk)
  unfolding sanity_check_config
  reopened-IsReady {dk} h = record {
    config = IsConfig-parameters dk (reopened dk) h.config;
    sane = h.sane;
    some_block = h.some_block;
    bits = h.bits;
    room = h.room;
  }
