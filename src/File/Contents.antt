-- ===== src/File/Contents.antt =====
-- What a transfer leaves in the file.
use eecs.Prelude.{
  ℕ, zero, suc, ◌+◌, ◌-◌, min, max, ◌≤◌, ◌<◌, ◌≡◌, ◌⊎◌, ◌∙◌, refl, ap, take_of_length-le, Bool,
  true, List, [], ◌∷◌, length, get_or, ◌==◌, if◌then◌else◌, arith,
}
use eecs.Prelude.Words.{size_mod, +W-eq}
use native.Mathlib.Nat.{add-zero, le_refl, add-sub_cancel_left}
use mathlib.Core.List.{append-nil}
use native.Mathlib.Decide.{dec_le}
use eecs.File.{
  File, Reading, content, window, overlay, fread, fwrite, ftruncate, mywrite, read_once, myread,
}

pub length-window : (g : ℕ → ℕ) (pos n : ℕ) → length (window g pos n) ≡ n
unfolding window
length-window g pos zero = refl
length-window g pos (suc n) = ap suc (length-window g (pos + 1) n)

-- Two contents that agree on a range have the same window there.
pub window_congr :
    (g h : ℕ → ℕ) (pos n : ℕ)
    → ((q : ℕ) → pos ≤ q → q < pos + n → g q ≡ h q)
    → window g pos n ≡ window h pos n
unfolding window
window_congr g h pos zero same = refl
window_congr g h pos (suc n) same =
    ground
      (arith, same pos, window_congr g h (pos + 1) n (λ q p r. same q (omega arith) (omega arith)))

-- A range reads as the list whose elements its bytes are.
window-eq :
    (g : ℕ → ℕ) (pos : ℕ) (bs : List ℕ)
    → ((i : ℕ) → i < length bs → g (pos + i) ≡ get_or bs i 0)
    → window g pos (length bs) ≡ bs
unfolding window
window-eq g pos [] same = refl
window-eq g pos (b ∷ bs) same = ground (
  arith,
  ap g (add-zero pos),
  same 0 (omega arith),
  window-eq g (pos + 1) bs (λ i h. ap g (omega arith) ∙ same (suc i) (omega arith)),
)

-- An overlaid range reads as the bytes that were laid over it.
pub window-overlay_self :
    (g : ℕ → ℕ) (pos : ℕ) (bs : List ℕ) → window (overlay g pos bs) pos (length bs) ≡ bs
unfolding overlay
window-overlay_self g pos bs =
    window-eq _ pos bs (λ i h. ground (arith, ap (λ k. get_or bs k 0) (add-sub_cancel_left pos i)))

-- A range that does not meet the overlaid one reads as before.
pub window-overlay_apart :
    (g : ℕ → ℕ) (pos n start : ℕ) (bs : List ℕ)
    → (pos + n ≤ start) ⊎ (start + length bs ≤ pos)
    → window (overlay g start bs) pos n ≡ window g pos n
unfolding overlay
window-overlay_apart g pos n start bs apart = window_congr _ _ pos n (λ q p r. ground arith)

-- The file after a write of all of `bs` at `pos`.
abbrev pub written : File → ℕ → List ℕ → File
written f pos bs = record f {
  size = max f.size (pos + length bs);
  byte = overlay (content f) pos bs;
}

pub content-written :
    (f : File) (pos : ℕ) (bs : List ℕ) (q : ℕ)
    → content (written f pos bs) q ≡ overlay (content f) pos bs q
unfolding content overlay
content-written f pos bs q = ground arith

fwrite_lem :
    (f : File) (pos : ℕ) (bs : List ℕ)
    → 0 < length bs
    → pos + length bs ≤ f.limit
    → fwrite f pos bs ≡ (written f pos bs, length bs)
unfolding fwrite
fwrite_lem f pos bs some_byte room =
    let e : min (length bs) (f.limit - pos) ≡ length bs = omega arith in
    ground (arith, e, take_of_length-le (length bs) bs)

length-fread : (f : File) (pos n : ℕ) → length (fread f pos n) ≡ min n (f.size - pos)
unfolding fread
length-fread f pos n = length-window f.byte pos (min n (f.size - pos))

fread_lem : (f : File) (pos n : ℕ) → pos + n ≤ f.size → fread f pos n ≡ window f.byte pos n
unfolding fread
fread_lem f pos n h = ap (window f.byte pos) (omega arith)

module _ (f : File) (off : ℕ) where
  -- A write of a whole buffer that the device has room for writes all its bytes at the offset, and
  -- the loop ends; a write of no bytes leaves the file as it is.
  pub mywrite_lem :
      (buf : List ℕ) (len : ℕ)
      → length buf ≡ len
      → off + len ≤ f.limit
      → mywrite f off buf len ≡ (if len == 0 then f else written f off buf, len)
  unfolding mywrite
  mywrite_lem buf zero e room = refl
  mywrite_lem buf (suc k) e room = ground (
    arith,
    take_of_length-le (suc k) buf (omega arith),
    fwrite_lem f off buf (omega arith) (omega arith),
  )

module _ (f : File) (off : ℕ) where
  read_once_full :
      (len : ℕ)
      → off + len ≤ f.size
      → read_once f off len ≡ record { file = f; buf = window f.byte off len; count = len }
  unfolding read_once window
  read_once_full zero h = refl
  read_once_full (suc k) h = ground (
    arith,
    fread_lem f off (suc k) h,
    length-window f.byte off (suc k),
    append-nil (window f.byte off (suc k)),
  )

  read_once_short : (len : ℕ) → f.size < off + len → 0 < len → (read_once f off len).count < len
  unfolding read_once
  read_once_short zero h some_byte = absurd (omega arith)
  read_once_short (suc k) h some_byte =
      let got = length (fread f off (suc k)) in
      ground (arith, length-fread f off (suc k), length-fread f (off + got) (suc k - got))

  window-content :
      (len : ℕ) → off + len ≤ f.size → window f.byte off len ≡ window (content f) off len
  unfolding content
  window-content len h = window_congr _ _ off len (λ q p r. ground arith)

content-ftruncate :
    (f : File) (n : ℕ) → f.size ≤ n → (q : ℕ) → content (ftruncate f n) q ≡ content f q
unfolding ftruncate content
content-ftruncate f n h q = ground arith

-- A read that the device has room for reads all its bytes, those past the end of the file as
-- zeros, and changes nothing that a later read can see.
pub record Reads (f : File) (off len : ℕ) (r : Reading) : Type 0 where
  pub all : r.count ≡ len
  pub buf : r.buf ≡ window (content f) off len
  pub limit : r.file.limit ≡ f.limit
  pub same : (q : ℕ) → content r.file q ≡ content f q

pub myread_inside :
    (f : File) (off len : ℕ) (trunconeof : Bool)
    → off + len ≤ f.size
    → myread f off len trunconeof ≡ record { file = f; buf = window f.byte off len; count = len }
unfolding myread
myread_inside f off len trunconeof h = ground (arith, read_once_full f off len h)

read_once-ftruncate :
    (f : File) (off len : ℕ)
    → read_once (ftruncate f (off + len)) off len
      ≡ record { file = ftruncate f (off + len); buf = window (content f) off len; count = len }
unfolding ftruncate
read_once-ftruncate f off len = read_once_full (ftruncate f (off + len)) off len (le_refl _)

myread_past :
    (f : File) (off len : ℕ)
    → f.size < off + len
    → 0 < len
    → off + len ≤ f.limit
    → off + len < size_mod
    → myread f off len true
      ≡ record { file = ftruncate f (off + len); buf = window (content f) off len; count = len }
unfolding myread
myread_past f off len past some_byte room word = ground (
  arith,
  +W-eq off len word,
  read_once_short f off len past some_byte,
  read_once-ftruncate f off len,
)

-- A read of at least one byte, with `trunconeof`, that the device has room for and whose end is a
-- word reads all its bytes, those past the end of the file as zeros, and changes nothing that a
-- later read can see.
pub myread_lem :
    (f : File) (off len : ℕ)
    → off + len ≤ f.limit
    → off + len < size_mod
    → 0 < len
    → Reads f off len (myread f off len true)
myread_lem f off len room word some_byte = elim (dec_le (off + len) f.size) [
  | yes inside ↦
      rw (myread_inside f off len true inside) (record {
        all = refl;
        buf = window-content f off len inside;
        limit = refl;
        same = λ q. refl;
      })
  | no past ↦ rw (myread_past f off len (omega arith) some_byte room word) (
      unfold ftruncate in
      record {
        all = refl;
        buf = refl;
        limit = refl;
        same = content-ftruncate f (off + len) (omega arith);
      })
]

-- After a write of all of `bs` at an offset, a read of as many bytes there gives back `bs`, with or
-- without `trunconeof`, and changes nothing.
pub myread-written :
    (f : File) (off : ℕ) (bs : List ℕ) (len : ℕ) (trunconeof : Bool)
    → length bs ≡ len
    → myread (written f off bs) off len trunconeof
      ≡ record { file = written f off bs; buf = bs; count = len }
myread-written f off bs len trunconeof e = ground (
  arith,
  myread_inside (written f off bs) off len trunconeof (omega arith),
  window-overlay_self (content f) off bs,
)
