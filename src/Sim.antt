-- ===== src/Sim.antt =====
-- btree_lab/sim.cc: the driver that reads commands, one to a line, and prints what the index answers
-- on the standard output. Its messages on cerr are left out. `btree` points to no index before INIT
-- and after DEINIT, and a use of it then is undefined: `crash`, as is a line that overflows the
-- buffer. What a run that crashes has printed is not modelled. Insert, which btree.h declares and
-- whose body does not compile, is a parameter, as is the fuel of the searches.
pub mod Words
pub mod Answers
pub mod Rounds
pub mod Sessions
pub mod Main
use Prim.Native.String.{String}
use eecs.Prelude.{
  ℕ, zero, suc, ◌+◌, Bool, true, false, ◌&&◌, not, List, [], ◌∷◌, ◌++◌, length, leb, ltb, ◌==◌,
  if◌then◌else◌,
}
use eecs.Error.{Error, no_error}
use eecs.Double.{Double}
use eecs.Block.{Block, of_text}
use eecs.Cache
use eecs.Cache.{Cache}
use eecs.Outcome.{Outcome, ok, err, crash, ◌>>=◌}
use eecs.Text.{codes, atoi, take_line, c_string, next_word}
use eecs.Disk.{Disk}
use eecs.BTree.{Index, new_index, attach, detach, lookup, update, delete}
use eecs.BTree.Display.{Stream, Screen, text, bytes_of, display, btree_sorted_keyval}

-- operator== of strings
unfoldable pub same_text : List ℕ → List ℕ → Bool
same_text [] [] = true
same_text (a ∷ s) (b ∷ t) = a == b && same_text s t
same_text _ _ = false

pub data Action : Type 0 where
  do_init do_insert do_update do_delete do_lookup do_display do_deinit do_nothing : Action

-- The chain of tests on the first word.
unfoldable pub action_of : List ℕ → Action
unfolding same_text
action_of word =
    if same_text word (codes "INIT")
    then do_init
    else if same_text word (codes "INSERT")
    then do_insert
    else if same_text word (codes "UPDATE")
    then do_update
    else if same_text word (codes "DELETE")
    then do_delete
    else if same_text word (codes "LOOKUP")
    then do_lookup
    else if same_text word (codes "DISPLAY")
    then do_display
    else if same_text word (codes "DEINIT")
    then do_deinit
    else do_nothing

-- action, key and value of a line
pub record Command : Type 0 where
  pub action : List ℕ
  pub key : List ℕ
  pub value : List ℕ

unfoldable pub parse_command : List ℕ → Command
parse_command line =
    let (action, rest) = next_word (c_string line) in
    let (key, rest') = next_word rest in
    record { action = action; key = key; value = (next_word rest').0 }

pub data Session {ℓ} (D : Type ℓ) : Type ℓ where
  no_index : Cache D → Session D
  with_index : Index D → Session D

abbrev pub cache_of {ℓ} : {D : Type ℓ} → Session D → Cache D
cache_of (no_index c) = c
cache_of (with_index x) = x.cache

abbrev pub ok_line : Stream
ok_line = text "OK\n" ∷ []

abbrev pub fail_line : Stream
fail_line = text "FAIL\n" ∷ []

module _ {ℓ} {D : Type ℓ} where
  -- "OK" or "FAIL" by the code of a call.
  abbrev pub reply : Outcome (Unit {0}) × Index D → Outcome (Stream × Session D)
  reply (ok _, x) = ok (ok_line, with_index x)
  reply (err _, x) = ok (fail_line, with_index x)
  reply (crash, x) = crash

  abbrev pub reply_value : Outcome (List ℕ) × Index D → Outcome (Stream × Session D)
  reply_value (ok v, x) = ok (text "OK " ∷ (bytes_of v ++ text "\n" ∷ []), with_index x)
  reply_value (err _, x) = ok (fail_line, with_index x)
  reply_value (crash, x) = crash

  abbrev emptied : Index D → Cache D × Error → Outcome (Stream × Session D)
  emptied x (c, no_error) = ok (ok_line, no_index c)
  emptied x (c, _) = ok (fail_line, with_index (record x { cache = c }))

module _ {ℓ} {D : Type ℓ} ⦃d : Double D⦄
    (insert : Block D → Block D → Index D → Outcome (Unit {0}) × Index D) (fuel : ℕ) where
  abbrev shown : Index D → Outcome (Unit {0}) × Screen D → Outcome (Stream × Session D)
  shown x (crash, s) = crash
  shown x (_, s) = ok (
    text "OK BEGIN DISPLAY\n" ∷ (s.os ++ text "OK END DISPLAY\n" ∷ []),
    with_index (record x { cache = s.cache }),
  )

  -- Display's code is not looked at.
  abbrev pub show_index : Index D → Outcome (Stream × Session D)
  show_index x = shown x (display fuel btree_sorted_keyval x [])

  abbrev end_index : Outcome (Unit {0}) × Index D → Outcome (Stream × Session D)
  end_index (ok _, x) = emptied x (Cache.detach x.cache)
  end_index (err _, x) = ok (fail_line, with_index x)
  end_index (crash, x) = crash

  -- What a command does with the index that `btree` points to; the strings as C strings.
  abbrev pub on_index : Action → List ℕ → List ℕ → Index D → Outcome (Stream × Session D)
  on_index do_init key value x = reply (attach 0 true (new_index (atoi key) (atoi value) x.cache))
  on_index do_insert key value x = reply (insert (of_text key) (of_text value) x)
  on_index do_update key value x = reply (update key value, x)
  on_index do_delete key value x = reply (delete key, x)
  on_index do_lookup key value x = reply_value (lookup fuel (of_text key) x)
  on_index do_display key value x = show_index x
  on_index do_deinit key value x = end_index (detach x)
  on_index do_nothing key value x = ok ([], with_index x)

  abbrev pub without_index : Action → List ℕ → List ℕ → Cache D → Outcome (Stream × Session D)
  without_index do_init key value c = reply (attach 0 true (new_index (atoi key) (atoi value) c))
  without_index do_nothing key value c = ok ([], no_index c)
  without_index _ key value c = crash

  abbrev pub run_action : Action → List ℕ → List ℕ → Session D → Outcome (Stream × Session D)
  run_action a key value (no_index c) = without_index a key value c
  run_action a key value (with_index x) = on_index a key value x

  -- The body of the loop.
  unfoldable pub step : List ℕ → Session D → Outcome (Stream × Session D)
  step line s =
      let c = parse_command line in
      run_action (action_of c.action) (c_string c.key) (c_string c.value) s

  -- while (fgets(line, 8192, file) != NULL) into a buffer of 1024 characters. Each round takes a line,
  -- so the number of lines and one more is fuel enough.
  unfoldable pub run : ℕ → List ℕ → Session D → Outcome (Stream × Session D)
  run zero input s = crash
  run (suc rounds) [] s = ok ([], s)
  run (suc rounds) (c ∷ input) s =
      let (line, rest) = take_line 8191 (c ∷ input) in
      let more = (do r ← step line s; r' ← run rounds rest r.1; ok (r.0 ++ r'.0, r'.1)) in
      if ltb (length line) 1024 then more else crash
