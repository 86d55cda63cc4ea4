-- ===== src/List/Range.antt =====
-- `list_range` of src/list.c on the sequence that a list stands for.
use hyperkv.Base.{
  ℕ, zero, suc, ◌+◌, ◌-◌, ◌≤◌, ◌<◌, List, [], ◌∷◌, Option, none, some, ◌≡◌, refl, sym, subst, ◌∙◌,
  ap, arith, ok, Fault, Str, length, length-drop, take, drop, Safe, Safe-bind,
}
use hyperkv.List.{LinkedList, load}
use hyperkv.List.Rem.{skip, collect, list_range}
use hyperkv.List.Seq.{head_of, Linked, IsSeq, load-ok}

module _ (ls : LinkedList) where
  -- What is left of a linked sequence.
  abbrev Left : List Str → Option ℕ → Type 0
  Left vs cur =
      (prev : Option ℕ) × (ps : List ℕ) × (cur ≡ head_of ps) × Linked ls.node_at prev ps vs

  skip-Left :
      (r : ℕ) (prev : Option ℕ) (ps : List ℕ) (vs : List Str)
      → Linked ls.node_at prev ps vs
      → r ≤ length vs
      → (cur : Option ℕ) × (skip r ls (head_of ps) ≡ ok cur) × Left (drop r vs) cur
  unfolding skip
  skip-Left zero prev ps vs linked low = (head_of ps, refl, (prev, ps, refl, linked))
  skip-Left (suc r) prev (p ∷ ps) (v ∷ vs) (here, linked) low =
      rw (load-ok ls p _ here) (skip-Left r (some p) ps vs linked (omega arith))
  skip-Left (suc r) prev [] [] linked low = absurd (omega arith)
  skip-Left (suc r) prev [] (v ∷ vs) linked low = absurd linked
  skip-Left (suc r) prev (p ∷ ps) [] linked low = absurd linked

  collect-take :
      (m : ℕ) (prev : Option ℕ) (ps : List ℕ) (vs : List Str)
      → Linked ls.node_at prev ps vs
      → m ≤ length vs
      → collect m ls (head_of ps) ≡ ok (take m vs)
  unfolding collect
  collect-take zero prev ps vs linked low = refl
  collect-take (suc m) prev (p ∷ ps) (v ∷ vs) (here, linked) low =
      rw (load-ok ls p _ here) (rw (collect-take m (some p) ps vs linked (omega arith)) refl)
  collect-take (suc m) prev [] [] linked low = absurd (omega arith)
  collect-take (suc m) prev [] (v ∷ vs) linked low = absurd linked
  collect-take (suc m) prev (p ∷ ps) [] linked low = absurd linked

  -- Behind the last node the code reads through NULL.
  skip-Safe :
      (r : ℕ) (prev : Option ℕ) (ps : List ℕ) (vs : List Str)
      → Linked ls.node_at prev ps vs
      → Safe (λ cur. (vs' : List Str) × Left vs' cur) (skip r ls (head_of ps))
  unfolding skip load
  skip-Safe zero prev ps vs linked = Safe.returns _ (vs, (prev, ps, refl, linked))
  skip-Safe (suc r) prev (p ∷ ps) (v ∷ vs) (here, linked) =
      rw here (skip-Safe r (some p) ps vs linked)
  skip-Safe (suc r) prev [] vs linked = Safe.fails Fault.null_pointer tt
  skip-Safe (suc r) prev (p ∷ ps) [] linked = absurd linked

  collect-Safe :
      (m : ℕ) (prev : Option ℕ) (ps : List ℕ) (vs : List Str)
      → Linked ls.node_at prev ps vs
      → Safe (λ _. Unit) (collect m ls (head_of ps))
  unfolding collect load
  collect-Safe zero prev ps vs linked = Safe.returns _ tt
  collect-Safe (suc m) prev (p ∷ ps) (v ∷ vs) (here, linked) =
      rw here (Safe-bind _ (collect-Safe m (some p) ps vs linked) λ rest _. Safe.returns _ tt)
  collect-Safe (suc m) prev [] vs linked = Safe.fails Fault.null_pointer tt
  collect-Safe (suc m) prev (p ∷ ps) [] linked = absurd linked

  module _ (vs : List Str) (seq : IsSeq ls vs) (begin end : ℕ) where
    -- On a list that stands for a sequence of values `list_range` returns the values from the first
    -- index to the second, where these are in order and inside.
    pub list_range-take :
        begin ≤ end
        → end < length vs
        → list_range ls begin end ≡ ok (take (end + 1 - begin) (drop begin vs))
    unfolding list_range
    list_range-take ordered inside =
        let (cur, run, (prev, ps, e, linked)) =
          skip-Left begin none seq.addresses vs seq.linked (omega arith) in
        let start : skip begin ls ls.head ≡ ok (head_of ps) =
          ap (skip begin ls) seq.head ∙ (run ∙ ap ok e) in
        rw start (
          collect-take (end + 1 - begin) prev ps (drop begin vs) linked
            (omega (arith, length-drop begin vs)))

    pub list_range-Safe : Safe (λ _. Unit) (list_range ls begin end)
    unfolding list_range
    list_range-Safe =
        Safe-bind _
          (subst (λ p. Safe (λ cur. (vs' : List Str) × Left vs' cur) (skip begin ls p))
            (sym seq.head) (skip-Safe begin none seq.addresses vs seq.linked))
          λ cur (vs', (prev, ps, e, linked)).
            subst (λ p. Safe (λ _. Unit) (collect (end + 1 - begin) ls p)) (sym e)
              (collect-Safe (end + 1 - begin) prev ps vs' linked)
