-- ===== src/Disk/Init.antt =====
-- The constructor of DiskSystem, InitFromConfigFile, InitFromInMemoryConfig and the destructor of
-- btree_lab/disksystem.cc, over the three files of one stem: `.config`, `.data` and `.bitmap`. A
-- file that is there can be opened, and a new one can be made; `room` is the size that the device
-- lets a new file have. The constructor drops the error code. Here it ends with the disk and that
-- code if all three files are open, and with `err` if one is not: the object then has a null stream,
-- and the destructor at the latest fails at it.
pub mod Reopen
pub mod Create
use eecs.Prelude.{
  ℕ, Bool, true, false, ◌||◌, Option, none, some, List, [], replicate, if◌then◌else◌,
}
use eecs.Error.{Error, no_error, badconfig, nofile}
use eecs.Double.{Double}
use eecs.File.{File}
use eecs.Outcome.{Outcome, ok, err, crash, ◌>>=◌, ◌>>◌}
use eecs.Disk.{Disk, sanity_check_config, numbitmapbytes, write_bitmap, read_bitmap}
use eecs.Disk.Config.{read_config, write_config}

pub record Files : Type 0 where
  pub config : Option (List ℕ)
  pub datafile : Option File
  pub bitmapfile : Option File
  pub room : ℕ

abbrev pub no_files : ℕ → Files
no_files room = record { config = none; datafile = none; bitmapfile = none; room = room }

-- fopen(…, "r+")
abbrev fopen {ℓ} : {A : Type ℓ} → Option A → Outcome A
fopen none = err nofile
fopen (some f) = ok f

-- stat(…) != -1
abbrev exists {ℓ} : {A : Type ℓ} → Option A → Bool
exists none = false
exists (some f) = true

abbrev pub new_file : ℕ → File
new_file room = record { size = 0; byte = λ _. 0; limit = room }

-- if (rc) return rc
abbrev check : Error → Outcome (Unit {0})
check no_error = ok tt
check rc = err rc

-- The data file is used again where there is one.
abbrev open_data : Files → File
open_data files = elim files.datafile [ none ↦ new_file files.room | some f ↦ f ]

module _ {ℓ} {D : Type ℓ} ⦃d : Double D⦄ where
  unfoldable pub init_from_config_file : Files → Disk D → Outcome (Disk D × Error)
  init_from_config_file files dk = do
    text ← fopen files.config
    dk' ← read_config (record dk { configfile = text })
    check (sanity_check_config dk')
    datafile ← fopen files.datafile
    bitmapfile ← fopen files.bitmapfile
    ok (read_bitmap (record dk' { datafile = datafile; bitmapfile = bitmapfile }))

  unfoldable pub init_from_in_memory_config : Files → Disk D → Outcome (Disk D × Error)
  init_from_in_memory_config files dk = do
    check (sanity_check_config dk)
    check (if exists files.config || exists files.bitmapfile then badconfig else no_error)
    let dk' = record (write_config dk).0 {
      bitmap = replicate (numbitmapbytes dk) 0;
      bitmapfile = new_file files.room;
    }
    check (write_bitmap dk').1
    ok (record (write_bitmap dk').0 { datafile = open_data files }, no_error)

  -- The members as the constructor sets them, before it calls one of the two above.
  unfoldable pub with_parameters : List ℕ → ℕ → ℕ → ℕ → ℕ → ℕ → ℕ → D → D → D → Disk D
  with_parameters filestem offset blcks blcksize heads blckspertrack tracks avgseek trackseek
        rotlat =
      record {
        bitmap = [];
        datafile = new_file 0;
        bitmapfile = new_file 0;
        configfile = [];
        diskfilestem = filestem;
        offset = offset;
        numblocks = blcks;
        blocksize = blcksize;
        numheads = heads;
        blockspertrack = blckspertrack;
        numtracks = tracks;
        last_track = 0;
        last_sector = 0;
        averageseeklatency = avgseek;
        trackseeklatency = trackseek;
        rotationallatency = rotlat;
      }

  -- DiskSystem::DiskSystem
  unfoldable pub construct : Files → Bool → Disk D → Outcome (Disk D × Error)
  unfolding init_from_config_file init_from_in_memory_config
  construct files true dk = init_from_in_memory_config files dk
  construct files false dk = init_from_config_file files dk

  -- DiskSystem(filestem): all other parameters have their defaults.
  unfoldable pub open_disk : Files → List ℕ → Outcome (Disk D × Error)
  unfolding construct with_parameters
  open_disk files filestem =
      let z = d.of_size 0 in construct files false (with_parameters filestem 0 0 0 0 0 0 z z z)

  -- DiskSystem::~DiskSystem: the files that it leaves.
  unfoldable pub close_disk : ℕ → Disk D → Files
  close_disk room dk =
      let dk' = (write_bitmap (write_config dk).0).0 in
      record {
        config = some dk'.configfile;
        datafile = some dk'.datafile;
        bitmapfile = some dk'.bitmapfile;
        room = room;
      }
