-- ===== src/Sim/Answers.antt =====
-- What a session of sim.cc prints, line by line, over an index whose root shows a tree.
use mathlib.Core.List.{append_assoc}
use eecs.Prelude.{ℕ, ◌≤◌, ◌<◌, ◌≡◌, ◌∙◌, refl, Option, none, some, List, [], ◌∷◌, ◌++◌, length}
use eecs.Double.{Double}
use eecs.Block.{Block, of_text}
use eecs.Block.Order.{IsBlock}
use eecs.Cache.Coherent.{IsCoherent}
use eecs.Outcome.{Outcome, ok}
use eecs.Text.{codes}
use eecs.Text.Lines.{lines}
use eecs.BTree.{Index, update, delete, found}
use eecs.BTree.Display.{Stream, text, bytes_of, btree_sorted_keyval}
use eecs.BTree.Same.{lookup-Same, lookup_index}
use eecs.BTree.Display.Same.{display-Same}
use eecs.Disk.Same.{Same, Same-refl, Same-trans}
use eecs.Disk.Blocks.{SameShape-refl}
use eecs.Node.Transfer.{Keeps, Keeps-trans}
use eecs.BTree.Tree.{Tree, IsSearchTree, entries, first_match}
use eecs.BTree.Scans.{Shows, Shows-Keeps}
use eecs.BTree.Lookup.{height, lookup-entries}
use eecs.BTree.Printed.{listing}
use eecs.BTree.Listing.{display-entries}
use eecs.Sim.{
  do_lookup, do_delete, do_update, do_display, action_of, reply_value, Session, with_index,
  fail_line, step,
}
use eecs.Sim.Words.{
  IsWordText, IsWordText-AllSolid, is_word-IsWordText, c_string-word, parse_command-one,
  parse_command-two, parse_command-three,
}

-- The commands that ask an index, or that it does not implement.
pub data Query : Type 0 where
  lookup_key delete_key : List ℕ → Query
  update_key : List ℕ → List ℕ → Query
  display_all : Query

-- The line of a query, without its newline.
unfoldable pub line_of : Query → List ℕ
line_of (lookup_key key) = codes "LOOKUP" ++ 32 ∷ key
line_of (delete_key key) = codes "DELETE" ++ 32 ∷ key
line_of (update_key key value) = codes "UPDATE" ++ 32 ∷ (key ++ 32 ∷ value)
line_of display_all = codes "DISPLAY"

-- A lookup asks for a key of `n` bytes.
abbrev pub IsQuery : ℕ → Query → Type 0
IsQuery n (lookup_key key) = IsWordText key × (length key ≡ n)
IsQuery n (delete_key key) = IsWordText key
IsQuery n (update_key key value) = IsWordText key × IsWordText value
IsQuery n display_all = Unit {0}

abbrev pub AllQueries : ℕ → List Query → Type 0
AllQueries n [] = Unit {0}
AllQueries n (q ∷ qs) = IsQuery n q × (length (line_of q) < 1023) × AllQueries n qs

abbrev pub value_line : Option (List ℕ) → Stream
value_line none = fail_line
value_line (some v) = text "OK " ∷ (bytes_of v ++ text "\n" ∷ [])

is_lookup : action_of (codes "LOOKUP") ≡ do_lookup
unfolding action_of
is_lookup = refl

is_delete : action_of (codes "DELETE") ≡ do_delete
unfolding action_of
is_delete = refl

is_update : action_of (codes "UPDATE") ≡ do_update
unfolding action_of
is_update = refl

is_display : action_of (codes "DISPLAY") ≡ do_display
unfolding action_of
is_display = refl

-- What sim answers over an index with the tree, by the code. LOOKUP and DISPLAY answer for the list
-- of all pairs. Update and Delete of btree_lab/btree.cc are not implemented, so UPDATE and DELETE
-- fail also for a key that is there, where btree_lab/README and ref_impl.pl say that they succeed.
abbrev pub answer : ℕ → Tree → Query → Stream
answer n t (lookup_key key) = value_line (first_match n key (entries t))
answer n t (delete_key key) = fail_line
answer n t (update_key key value) = fail_line
answer n t display_all =
    text "OK BEGIN DISPLAY\n" ∷ (listing (entries t) ++ text "OK END DISPLAY\n" ∷ [])

unfoldable pub answers : ℕ → Tree → List Query → Stream
answers n t [] = []
answers n t (q ∷ qs) = answer n t q ++ answers n t qs

abbrev line_list : List Query → List (List ℕ)
line_list [] = []
line_list (q ∷ qs) = line_of q ∷ line_list qs

abbrev pub text_of : List Query → List ℕ
text_of qs = lines (line_list qs)

-- What a query does not change.
pub record Kept {ℓ} {D : Type ℓ} ⦃d : Double D⦄ (x x' : Index D) : Type ℓ where
  pub keeps : Keeps x.cache x'.cache
  pub disk : Same x.cache.disk x'.cache.disk
  pub super : x'.superblock ≡ x.superblock
  pub index : x'.superblock_index ≡ x.superblock_index

module _ {ℓ} {D : Type ℓ} ⦃d : Double D⦄ where
  pub Kept-refl : (x : Index D) → IsCoherent x.cache → Kept x x
  Kept-refl x h = record {
    keeps = record { coherent = h; shape = SameShape-refl x.cache.disk; same = λ j. refl };
    disk = Same-refl x.cache.disk;
    super = refl;
    index = refl;
  }

  pub Kept-trans : {x x' x'' : Index D} → Kept x x' → Kept x' x'' → Kept x x''
  Kept-trans k l = record {
    keeps = Keeps-trans k.keeps l.keeps;
    disk = Same-trans k.disk l.disk;
    super = l.super ∙ k.super;
    index = l.index ∙ k.index;
  }

module _ {ℓ} {D : Type ℓ} ⦃d : Double D⦄
    (insert : Block D → Block D → Index D → Outcome (Unit {0}) × Index D) (fuel n : ℕ)
    (t : Tree) where
  -- The index shows the tree, and a search has fuel enough for it.
  pub record IsOpen (x : Index D) : Type ℓ where
    pub coherent : IsCoherent x.cache
    pub shown : Shows x.cache x.superblock.info.rootnode t

  abbrev Answers : Index D → Query → Outcome (Stream × Session D) → Type ℓ
  Answers x q r = (x' : Index D) × (r ≡ ok (answer n t q, with_index x')) × Kept x x'

  pub IsOpen-Kept : {x x' : Index D} → Kept x x' → IsOpen x → IsOpen x'
  IsOpen-Kept {x} k h = record {
    coherent = k.keeps.coherent;
    shown = simp k.super (Shows-Keeps x.superblock.info.rootnode t k.keeps h.shown);
  }

module _ {ℓ} {D : Type ℓ} ⦃d : Double D⦄
    (insert : Block D → Block D → Index D → Outcome (Unit {0}) × Index D) (fuel n : ℕ) (t : Tree)
    (enough : height t ≤ fuel) (ordered : IsSearchTree n t) where
  of_text-IsBlock : (key : List ℕ) → length key ≡ n → IsBlock n (of_text {D = D} key)
  unfolding of_text
  of_text-IsBlock key size = record { size = size; labelled = size }

  reply_found :
      (o : Option (List ℕ)) (x : Index D)
      → reply_value (found o, x) ≡ ok (value_line o, with_index x)
  reply_found none x = refl
  reply_found (some v) x = refl

  pub step_query :
      (x : Index D) (q : Query)
      → IsQuery n q
      → IsOpen insert fuel n t x
      → Answers insert fuel n t x q (step insert fuel (line_of q ++ b'\n' ∷ []) (with_index x))
  unfolding step line_of of_text update delete
  step_query x (lookup_key key) (word, size) h =
      let (x', e, w, same) =
        lookup-entries (of_text-IsBlock key size) x t fuel enough h.coherent ordered h.shown in
      let same_disk = lookup-Same fuel (of_text key) x in
      let index = lookup_index fuel (of_text key) x in
      let matched = first_match n key (entries t) in
      (
        x',
        rw
            (
              parse_command-two (codes "LOOKUP") (is_word-IsWordText (codes "LOOKUP") refl) key
                  word,
              is_lookup,
              c_string-word key (IsWordText-AllSolid key word),
              e,
            )
            (reply_found matched x'),
        record { keeps = w; disk = simp e at same_disk; super = same; index = simp e at index },
      )
  step_query x (delete_key key) word h = (
    x,
    rw
        (
          parse_command-two (codes "DELETE") (is_word-IsWordText (codes "DELETE") refl) key word,
          is_delete,
        )
        refl,
    Kept-refl x h.coherent,
  )
  step_query x (update_key key value) (word, word') h = (
    x,
    rw
        (
          append_assoc key (32 ∷ value) (b'\n' ∷ []),
          parse_command-three (codes "UPDATE") (is_word-IsWordText (codes "UPDATE") refl) key value
              word word',
          is_update,
        )
        refl,
    Kept-refl x h.coherent,
  )
  step_query x display_all _ h =
      let same_disk = display-Same fuel btree_sorted_keyval x [] in
      let (c', e, w) = display-entries x t fuel [] enough h.coherent h.shown in
      (
        record x { cache = c' },
        rw
            (
              parse_command-one (codes "DISPLAY") (is_word-IsWordText (codes "DISPLAY") refl),
              is_display,
              e,
            )
            refl,
        record { keeps = w; disk = simp e at same_disk; super = refl; index = refl },
      )
