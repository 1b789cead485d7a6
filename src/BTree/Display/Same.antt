-- ===== src/BTree/Display/Same.antt =====
-- What Display of btree_lab/btree.cc does not change of the disk.
use eecs.Prelude.{ℕ, zero, suc, not, inl, inr, Bool-cases, [], ◌∷◌, ◌==◌, ltb}
use eecs.Error.{insane}
use eecs.Double.{Double}
use eecs.Disk.Same.{Same, Same-refl, Same-trans}
use eecs.Outcome.{Outcome, ok, err, crash}
use eecs.Outcome.Exec.{lift, ◌>>=◌, ◌>>◌}
use eecs.Node.{Node, leaf_node, is_inner, get_ptr, unserialize}
use eecs.BTree.{Index}
use eecs.BTree.Same.{unserialize-Same}
use eecs.BTree.Display.{
  BTreeDisplayType, Stream, Screen, text, number, put_if, is_dot, is_sorted, print_node, from_cache,
  on_stream, unchecked, display_children, display_rest, display_internal, display,
}

-- An operation that leaves the disk the same.
abbrev Stays {ℓ} : {D : Type ℓ} {A : Type 0} → (Screen D → Outcome A × Screen D) → Type ℓ
Stays {D = D} m = (s : Screen D) → Same s.cache.disk (m s).1.cache.disk

module _ {ℓ} {D : Type ℓ} where
  after-Stays :
      {A B : Type 0} (s : Screen D) (r : Outcome A × Screen D)
      (f : A → Screen D → Outcome B × Screen D)
      → Same s.cache.disk r.1.cache.disk
      → ((a : A) → Stays (f a))
      → Same s.cache.disk (eecs.Outcome.Exec.after r f).1.cache.disk
  after-Stays s (ok a, s') f first next = Same-trans first (next a s')
  after-Stays s (err e, s') f first next = first
  after-Stays s (crash, s') f first next = first

  bind-Stays :
      {A B : Type 0} (m : Screen D → Outcome A × Screen D) (f : A → Screen D → Outcome B × Screen D)
      → Stays m
      → ((a : A) → Stays (f a))
      → Stays (m >>= f)
  bind-Stays m f first next s = after-Stays s (m s) f (first s) next

  put-Stays : (m : Stream → Outcome (Unit {0}) × Stream) → Stays {D = D} (on_stream m)
  put-Stays m s = Same-refl s.cache.disk

  display_children-Stays :
      (follow : ℕ → Screen D → Outcome (Unit {0}) × Screen D)
      → ((ptr : ℕ) → Stays (follow ptr))
      → (n offset node : ℕ) (b : Node) (dt : BTreeDisplayType)
      → Stays (display_children follow n offset node b dt)
  unfolding display_children
  display_children-Stays follow deeper zero offset node b dt = λ s. Same-refl s.cache.disk
  display_children-Stays follow deeper (suc n) offset node b dt =
      let arrow : ℕ → Screen D → Outcome (Unit {0}) × Screen D = λ ptr.
        on_stream (put_if (is_dot dt) (number node ∷ text " -> " ∷ number ptr ∷ text ";\n" ∷ [])) in
      let more = display_children follow n (suc offset) node b dt in
      bind-Stays {A = ℕ} (lift (get_ptr b offset)) (λ ptr. arrow ptr >> (follow ptr >> more))
        (λ s. Same-refl s.cache.disk)
        (λ ptr.
          bind-Stays (arrow ptr) (λ _. follow ptr >> more) (λ s. Same-refl s.cache.disk)
            (λ _.
              bind-Stays (follow ptr) (λ _. more) (deeper ptr)
                (λ _. display_children-Stays follow deeper n (suc offset) node b dt)))

  display_rest-Stays :
      (follow : ℕ → Screen D → Outcome (Unit {0}) × Screen D)
      → ((ptr : ℕ) → Stays (follow ptr))
      → (node : ℕ) (b : Node) (dt : BTreeDisplayType) → Stays (display_rest follow node b dt)
  display_rest-Stays follow deeper node b dt s = elim (Bool-cases (is_inner b.info.nodetype)) [
    | inl inner ↦ elim (Bool-cases (ltb 0 b.info.numkeys)) [
      | inl some_key ↦
          rw (inner, some_key)
            (display_children-Stays follow deeper (suc b.info.numkeys) 0 node b dt s)
      | inr no_key ↦ rw (inner, no_key) (Same-refl s.cache.disk)
    ]
    | inr other ↦ elim (Bool-cases (b.info.nodetype == leaf_node)) [
      | inl leaf ↦ rw (other, leaf) (Same-refl s.cache.disk)
      | inr bad ↦ rw (other, bad) (refused s)
    ]
  ]
    where
      refused : Stays (
          on_stream {D = D}
            (put_if (not (is_dot dt)) (text "Unsupported Node Type " ∷ number b.info.nodetype ∷ []))
          >> lift {A = Unit {0}} (err insane))
      refused =
          bind-Stays
            (on_stream (
              put_if (not (is_dot dt))
                (text "Unsupported Node Type " ∷ number b.info.nodetype ∷ [])))
            (λ _. lift {A = Unit {0}} (err insane)) (λ s. Same-refl s.cache.disk)
            (λ _ s. Same-refl s.cache.disk)

module _ {ℓ} {D : Type ℓ} ⦃d : Double D⦄ where
  display_internal-Stays :
      (fuel node : ℕ) (dt : BTreeDisplayType) → Stays {D = D} (display_internal fuel node dt)
  unfolding display_internal
  display_internal-Stays zero node dt = λ s. Same-refl s.cache.disk
  display_internal-Stays (suc fuel) node dt =
      let follow : ℕ → Screen D → Outcome (Unit {0}) × Screen D =
        λ ptr. display_internal fuel ptr dt in
      let end : Screen D → Outcome (Unit {0}) × Screen D =
        on_stream (put_if (not (is_sorted dt)) (text "\n" ∷ [])) in
      let mark : Screen D → Outcome (Unit {0}) × Screen D =
        on_stream (put_if (is_dot dt) (text ";" ∷ [])) in
      let first : Node → Screen D → Outcome (Unit {0}) × Screen D =
        λ b. on_stream (print_node node b dt) in
      let rest : Node → Screen D → Outcome (Unit {0}) × Screen D =
        λ b. display_rest follow node b dt in
      bind-Stays {A = Node} (from_cache (unserialize node))
        (λ b. first b >> (mark >> (end >> rest b))) (λ s. unserialize-Same node s.cache)
        (λ b.
          bind-Stays (first b) (λ _. mark >> (end >> rest b)) (λ s. Same-refl s.cache.disk)
            (λ _.
              bind-Stays mark (λ _. end >> rest b) (λ s. Same-refl s.cache.disk)
                (λ _.
                  bind-Stays end (λ _. rest b) (λ s. Same-refl s.cache.disk)
                    (λ _.
                      display_rest-Stays follow (λ ptr. display_internal-Stays fuel ptr dt) node b
                        dt))))

  unchecked-Stays :
      (s : Screen D) (r : Outcome (Unit {0}) × Screen D)
      → Same s.cache.disk r.1.cache.disk
      → Same s.cache.disk (unchecked r).1.cache.disk
  unchecked-Stays s (ok _, s') h = h
  unchecked-Stays s (err e, s') h = h
  unchecked-Stays s (crash, s') h = h

  pub display-Same :
      (fuel : ℕ) (dt : BTreeDisplayType) (x : Index D) (os : Stream)
      → Same x.cache.disk (display fuel dt x os).1.cache.disk
  unfolding display
  display-Same fuel dt x os =
      let start : Screen D → Outcome (Unit {0}) × Screen D =
        on_stream (put_if (is_dot dt) (text "digraph tree { \n" ∷ [])) in
      let end : Screen D → Outcome (Unit {0}) × Screen D =
        on_stream (put_if (is_dot dt) (text "}\n" ∷ [])) in
      let body : Screen D → Outcome (Unit {0}) × Screen D =
        λ s. unchecked (display_internal fuel x.superblock.info.rootnode dt s) in
      bind-Stays start (λ _. body >> end) (λ s. Same-refl s.cache.disk)
        (λ _.
          bind-Stays body (λ _. end)
            (λ s. unchecked-Stays s _ (display_internal-Stays fuel x.superblock.info.rootnode dt s))
            (λ _ s. Same-refl s.cache.disk))
        (record { cache = x.cache; os = os })
