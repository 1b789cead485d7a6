-- ===== src/Cache/Refine.antt =====
-- The buffer cache of btree_lab/buffercache.h as a client uses it: a sequence of calls, against a
-- store that is nothing but the bytes of each block.
use eecs.Prelude.{
  ℕ, ◌<◌, ◌≡◌, refl, sym, ap, ◌∙◌, false, List, [], ◌∷◌, length, inl, inr, ◌==◌, ltb, if◌then◌else◌,
  arith, Option-cases,
}
use eecs.Prelude.Words.{◌+W◌, +W-eq}
use eecs.Error.{Error, no_error}
use eecs.Double.{Double}
use eecs.Block
use eecs.Block.{Block}
use eecs.Disk
use eecs.Disk.{Disk}
use eecs.Disk.Blocks.{SameShape, SameShape-IsDisk, stored}
use eecs.BlockMap.{find}
use eecs.Cache.{
  Cache, read_block, write_block, flush_block, detach, notify_allocate_block,
  notify_deallocate_block,
}
use eecs.Cache.Coherent.{IsCoherent, view}
use eecs.Cache.WriteBack.{write_erase-WritesErases}
use eecs.Disk.Blocks.{SameShape-refl, SameShape-trans}
use eecs.Cache.Detach.{detach-DetachesAll}
use eecs.Cache.Calls.{read_block-Returns, write_block-Stores}

pub data Call {ℓ} (D : Type ℓ) : Type ℓ where
  read flush allocate deallocate : ℕ → Call D
  write : ℕ → Block D → Call D
  detach_all : Call D

-- What a call answers: the code, and the bytes that a read returns.
abbrev pub Reply : Type 0
Reply = Error × List ℕ

abbrev pub Store : Type 0
Store = ℕ → List ℕ

module _ {ℓ} {D : Type ℓ} where
  -- A call names a block of the disk, and a write has a block's worth of bytes.
  abbrev pub IsValid : Disk D → Call D → Type 0
  IsValid dk (read k) = k < dk.numblocks
  IsValid dk (flush k) = k < dk.numblocks
  IsValid dk (allocate k) = k < dk.numblocks
  IsValid dk (deallocate k) = k < dk.numblocks
  IsValid dk (write k b) = (k < dk.numblocks) × (length b.bytes ≡ dk.blocksize)
  IsValid dk detach_all = Unit

  abbrev pub AllValid : Disk D → List (Call D) → Type 0
  AllValid dk [] = Unit
  AllValid dk (call ∷ calls) = IsValid dk call × AllValid dk calls

  IsValid-shape :
      {dk dk' : Disk D} (call : Call D) → SameShape dk dk' → IsValid dk call → IsValid dk' call
  IsValid-shape (write k b) s h = (rw s.numblocks h.0, h.1 ∙ sym s.blocksize)
  IsValid-shape detach_all s h = tt
  IsValid-shape (read k) s h = rw s.numblocks h
  IsValid-shape (flush k) s h = rw s.numblocks h
  IsValid-shape (allocate k) s h = rw s.numblocks h
  IsValid-shape (deallocate k) s h = rw s.numblocks h

  AllValid-shape :
      {dk dk' : Disk D} (calls : List (Call D))
      → SameShape dk dk'
      → AllValid dk calls
      → AllValid dk' calls
  AllValid-shape [] s h = tt
  AllValid-shape (call ∷ calls) s h = (IsValid-shape call s h.0, AllValid-shape calls s h.1)

  -- The store answers every valid call with success.
  abbrev pub answer : Store → Call D → Reply × Store
  answer s (read k) = ((no_error, s k), s)
  answer s (write k b) = ((no_error, []), λ j. if k == j then b.bytes else s j)
  answer s _ = ((no_error, []), s)

  unfoldable pub answer_all : Store → List (Call D) → List Reply × Store
  answer_all s [] = ([], s)
  answer_all s (call ∷ calls) =
      let (reply, s') = answer s call in
      let (replies, s'') = answer_all s' calls in (reply ∷ replies, s'')

module _ {ℓ} {D : Type ℓ} ⦃d : Double D⦄ where
  abbrev pub silent : Cache D × Error → Reply × Cache D
  silent (c, rc) = ((rc, []), c)

  unfoldable pub serve : Cache D → Call D → Reply × Cache D
  serve c (read k) = let r = read_block c k Block.empty in ((r.rc, r.outblock.bytes), r.cache)
  serve c (write k b) = silent (write_block c k b)
  serve c (flush k) = silent (flush_block c k)
  serve c (allocate k) = silent (notify_allocate_block c k)
  serve c (deallocate k) = silent (notify_deallocate_block c k)
  serve c detach_all = silent (detach c)

  unfoldable pub serve_all : Cache D → List (Call D) → List Reply × Cache D
  serve_all c [] = ([], c)
  serve_all c (call ∷ calls) =
      let (reply, c') = serve c call in
      let (replies, c'') = serve_all c' calls in (reply ∷ replies, c'')

  pub record Simulates {R : Type 0} (c : Cache D) (r : R × Cache D) (a : R × Store) : Type ℓ where
    pub reply : r.0 ≡ a.0
    pub coherent : IsCoherent r.1
    pub shape : SameShape c.disk r.1.disk
    pub view : (j : ℕ) → view r.1 j ≡ a.1 j

  shape_bitmap : (dk : Disk D) (bits : List ℕ) → SameShape dk (record dk { bitmap = bits })
  shape_bitmap dk bits = record { offset = refl; numblocks = refl; blocksize = refl; limit = refl }

  -- A change of the disk that a reader of blocks does not see.
  unseen :
      {c : Cache D} (dk : Disk D) {n : ℕ} {m : ℕ}
      → IsCoherent c
      → SameShape c.disk dk
      → ((j : ℕ) → stored dk j ≡ stored c.disk j)
      → IsCoherent (record c { disk = dk; allocs = n; deallocs = m })
        × ((j : ℕ) → view (record c { disk = dk; allocs = n; deallocs = m }) j ≡ view c j)
  unfolding view
  unseen {c} dk h shape same = (
    record {
      disk = SameShape-IsDisk shape h.disk;
      sorted = h.sorted;
      cached = λ k b e.
          let q = h.cached k b e in
          record {
            inside = rw shape.numblocks q.inside;
            size = q.size ∙ sym shape.blocksize;
            clean = λ x. q.clean x ∙ sym (same k);
          };
    },
    λ j. rw (same j),
  )

  flush_block-Simulates :
      {c : Cache D} (s : Store) (k : ℕ)
      → IsCoherent c
      → ((j : ℕ) → view c j ≡ s j)
      → Simulates c (silent (flush_block c k)) ((no_error, []), s)
  unfolding flush_block
  flush_block-Simulates {c} s k h v = elim (Option-cases (find k c.blockmap)) [
    | inl miss ↦
        rw (miss, flush_block)
          (record { reply = refl; coherent = h; shape = SameShape-refl c.disk; view = v })
    | inr (b, hit) ↦
        let w = write_erase-WritesErases k b h hit in
        rw (hit, flush_block)
          (record {
            reply = ap (λ rc. (rc, [])) w.rc;
            coherent = w.coherent;
            shape = w.shape;
            view = λ j. w.same j ∙ v j;
          })
  ]

  pub notify-Simulates :
      {c : Cache D} (s : Store) (k : ℕ)
      → IsCoherent c
      → k < c.disk.numblocks
      → ((j : ℕ) → view c j ≡ s j)
      → Simulates c (silent (notify_allocate_block c k)) ((no_error, []), s)
        × Simulates c (silent (notify_deallocate_block c k)) ((no_error, []), s)
  unfolding notify_allocate_block notify_deallocate_block Disk.notify_allocate_blocks
      Disk.notify_deallocate_blocks stored
  notify-Simulates {c} s k h inside v =
      let guard : ltb c.disk.numblocks (k +W 1) ≡ false =
        ground (arith, +W-eq k 1, h.disk.numbered) in
      rw guard (
        (let (coherent, same) = unseen _ h (shape_bitmap c.disk _) (λ j. refl) in
            record {
              reply = refl;
              coherent = coherent;
              shape = shape_bitmap c.disk _;
              view = λ j. same j ∙ v j;
            }),
        (let (coherent, same) = unseen _ h (shape_bitmap c.disk _) (λ j. refl) in
            record {
              reply = refl;
              coherent = coherent;
              shape = shape_bitmap c.disk _;
              view = λ j. same j ∙ v j;
            }),
      )

  serve-Simulates :
      {c : Cache D} (s : Store) (call : Call D)
      → IsCoherent c
      → IsValid c.disk call
      → ((j : ℕ) → view c j ≡ s j)
      → Simulates c (serve c call) (answer s call)
  unfolding serve
  serve-Simulates {c} s (read k) h ok v =
      let r = read_block-Returns k Block.empty h ok in
      record {
        reply = ground (arith, r.rc, r.bytes, v k);
        coherent = r.coherent;
        shape = r.shape;
        view = λ j. r.same j ∙ v j;
      }
  serve-Simulates {c} s (flush k) h ok v = flush_block-Simulates s k h v
  serve-Simulates {c} s (allocate k) h ok v = (notify-Simulates s k h ok v).0
  serve-Simulates {c} s (deallocate k) h ok v = (notify-Simulates s k h ok v).1
  serve-Simulates {c} s (write k b) h ok v =
      let w = write_block-Stores k b h ok.0 ok.1 in
      record {
        reply = ap (λ rc. (rc, [])) w.rc;
        coherent = w.coherent;
        shape = w.shape;
        view = λ j. ground (arith, w.after j, v j);
      }
  serve-Simulates {c} s detach_all h ok v =
      let w = detach-DetachesAll h in
      record {
        reply = ap (λ rc. (rc, [])) w.rc;
        coherent = w.coherent;
        shape = w.shape;
        view = λ j. w.same j ∙ v j;
      }

  -- From a coherent cache that shows a store of bytes, every sequence of calls that name blocks of
  -- the disk and write whole blocks has the answers of the store, whatever is evicted meanwhile,
  -- and ends in a coherent cache that shows the store.
  pub serve_all-Simulates :
      (calls : List (Call D)) (s : Store) {c : Cache D}
      → IsCoherent c
      → AllValid c.disk calls
      → ((j : ℕ) → view c j ≡ s j)
      → Simulates c (serve_all c calls) (answer_all s calls)
  unfolding serve_all answer_all
  serve_all-Simulates [] s {c} h ok v = record {
    reply = refl;
    coherent = h;
    shape = SameShape-refl c.disk;
    view = v;
  }
  serve_all-Simulates (call ∷ calls) s {c} h ok v =
      let one = serve-Simulates s call h ok.0 v in
      let rest =
        serve_all-Simulates calls (answer s call).1 one.coherent
          (AllValid-shape calls one.shape ok.1) one.view in
      record {
        reply = ground (arith, one.reply, rest.reply);
        coherent = rest.coherent;
        shape = SameShape-trans one.shape rest.shape;
        view = rest.view;
      }

  -- From a coherent cache, after any sequence of calls that name blocks of the disk and write whole
  -- blocks, Detach succeeds and leaves on the disk, in every block, what the writes among the calls
  -- put there last, or else what was in view before them.
  pub detach-serve_all :
      {c : Cache D} (calls : List (Call D))
      → IsCoherent c
      → AllValid c.disk calls
      → ((detach (serve_all c calls).1).1 ≡ no_error)
        × ((j : ℕ)
            → stored (detach (serve_all c calls).1).0.disk j ≡ (answer_all (view c) calls).1 j)
  detach-serve_all {c} calls h ok =
      let all = serve_all-Simulates calls (view c) h ok (λ j. refl) in
      let w = detach-DetachesAll all.coherent in (w.rc, λ j. w.after j ∙ all.view j)
