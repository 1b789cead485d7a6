-- ===== src/File.antt =====
-- mywrite and myread of btree_lab/disksystem.cc, over a regular file. A file has a size, its bytes
-- and the largest size that the device lets it have: a write past that is cut short, and an
-- ftruncate past it fails. fread and fwrite move as many bytes as there are, and a read returns
-- none only at the end of the file.
pub mod Contents
use eecs.Prelude.{
  ℕ, zero, suc, ◌+◌, ◌-◌, min, max, Bool, true, false, ◌&&◌, List, [], ◌∷◌, ◌++◌, length, get_or,
  take, drop, ltb, leb, ◌==◌, if◌then◌else◌,
}
use eecs.Prelude.Words.{◌+W◌}

pub record File : Type 0 where
  pub size : ℕ
  pub byte : ℕ → ℕ
  pub limit : ℕ

-- What a byte of the file would read as, if the file were extended by zeros.
unfoldable pub content : File → ℕ → ℕ
content f q = if ltb q f.size then f.byte q else 0

unfoldable pub window : (ℕ → ℕ) → ℕ → ℕ → List ℕ
window byte pos zero = []
window byte pos (suc n) = byte pos ∷ window byte (pos + 1) n

unfoldable pub overlay : (ℕ → ℕ) → ℕ → List ℕ → ℕ → ℕ
overlay byte pos bs q =
    if leb pos q && ltb q (pos + length bs) then get_or bs (q - pos) 0 else byte q

-- fread(buf, 1, n, f) at the position `pos`
unfoldable pub fread : File → ℕ → ℕ → List ℕ
fread f pos n = window f.byte pos (min n (f.size - pos))

-- fwrite(buf, 1, n, f) at the position `pos`: the file, and the number of bytes written
unfoldable pub fwrite : File → ℕ → List ℕ → File × ℕ
unfolding content overlay
fwrite f pos bs =
    let sent = min (length bs) (f.limit - pos) in
    if sent == 0 then (f, 0) else (
      record f { size = max f.size (pos + sent); byte = overlay (content f) pos (take sent bs) },
      sent,
    )

-- ftruncate(fileno(f), n), where it succeeds
unfoldable pub ftruncate : File → ℕ → File
unfolding content
ftruncate f n = record f { size = n; byte = content f }

-- The loop of `mywrite`: the position, the rest of the buffer and what is left to write. The fuel
-- is one round for each byte, and one to see that none is left.
unfoldable pub write_loop : ℕ → File → ℕ → List ℕ → ℕ → File × ℕ
unfolding fwrite
write_loop zero f pos rest left = (f, left)
write_loop (suc fuel) f pos rest left =
    if left == 0
    then (f, left)
    else let (f', sent) = fwrite f pos (take left rest) in
      let again = write_loop fuel f' (pos + sent) (drop sent rest) (left - sent) in
      if sent == 0 then (f', left) else again

unfoldable pub mywrite : File → ℕ → List ℕ → ℕ → File × ℕ
unfolding write_loop
mywrite f off buf len = let (f', left) = write_loop (suc len) f off buf len in (f', len - left)

-- The loop of `myread`: what it has put into the buffer, and what is left to read when it stops.
unfoldable pub read_loop : ℕ → File → ℕ → ℕ → List ℕ × ℕ
unfolding fread
read_loop zero f pos left = ([], left)
read_loop (suc fuel) f pos left =
    if left == 0
    then ([], left)
    else let got = fread f pos left in
      let again = read_loop fuel f (pos + length got) (left - length got) in
      if length got == 0 then ([], left) else (got ++ again.0, again.1)

pub record Reading : Type 0 where
  pub file : File
  pub buf : List ℕ
  pub count : ℕ

-- `myread` with trunconeof = false
unfoldable pub read_once : File → ℕ → ℕ → Reading
unfolding read_loop
read_once f off len =
    let (buf, left) = read_loop (suc len) f off len in
    record { file = f; buf = buf; count = len - left }

-- At the end of the file the file is extended once, and the read starts again.
unfoldable pub myread : File → ℕ → ℕ → Bool → Reading
myread f off len trunconeof =
    let first = read_once f off len in
    let end = off +W len in
    if first.count == len
    then first
    else if trunconeof && leb end f.limit
    then read_once (ftruncate f end) off len
    else first
