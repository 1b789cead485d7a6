-- ===== src/Tools.antt =====
-- The command-line tools of btree_lab, each a main function: what it prints on the standard output,
-- its exit status and the files that it leaves. The arguments are those after the program's name,
-- and the files those of the stem that the arguments name. Messages on cerr are left out. Where the
-- constructor of DiskSystem leaves a stream null, the destructor uses it: `crash`, and what the tool
-- did before that is not modelled.
pub mod MakeDisk
pub mod DiskData
pub mod BufferData
pub mod IndexTools
use eecs.Prelude.{ℕ, List, []}
use eecs.Error.{Error}
use eecs.Outcome.{Outcome, ok, err, crash}
use eecs.Disk.{Disk}
use eecs.Disk.Init.{Files, close_disk}
use eecs.Double.{Double}

pub record Exit : Type 0 where
  pub status : ℕ
  pub out : List ℕ
  pub files : Files

-- The status that a shell sees for -1.
abbrev pub minus_one_status : ℕ
minus_one_status = 255

-- usage(); exit(-1), before there is a disk
abbrev pub usage_exit : Files → Outcome Exit
usage_exit files = ok (record { status = minus_one_status; out = []; files = files })

abbrev pub with_disk {ℓ κ} :
    {D : Type ℓ} {A : Type κ} → Outcome (Disk D × Error) → (Disk D → Outcome A) → Outcome A
with_disk (ok (dk, _)) body = body dk
with_disk (err _) body = crash
with_disk crash body = crash

module _ {ℓ} {D : Type ℓ} ⦃d : Double D⦄ where
  -- return status, with the destructor of the disk
  abbrev pub exit_with : ℕ → List ℕ → Files → Disk D → Outcome Exit
  exit_with status out files dk =
      ok (record { status = status; out = out; files = close_disk files.room dk })
