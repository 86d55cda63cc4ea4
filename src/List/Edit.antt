-- ===== src/List/Edit.antt =====
-- `list_set` of src/list.c on the sequence that a list stands for.
use hyperkv.Base.{
  ℕ, zero, suc, true, false, List, [], ◌∷◌, ℤ, pos_part, Option, none, some, ◌≡◌, ◌≢◌, refl, sym,
  subst, ◌∙◌, ap, Str, set, Returns, is_some,
}
use hyperkv.List.{ListNode, node, LinkedList, write, set_value, walk, list_set, list_index}
use hyperkv.List.Read.{nth}
use hyperkv.List.Seq.{
  head_of, Linked, Apart, AllApart, IsSeq, write_ne, write_self, write-Linked, load-ok,
}

set_past : (vs : List Str) (i : ℕ) (value : Str) → nth vs i ≡ none → set vs i value ≡ vs
set_past [] i value h = refl
set_past (v ∷ vs) zero value h = cc
set_past (v ∷ vs) (suc i) value h = ap (λ t. v ∷ t) (set_past vs i value h)

-- A pointer that leads nowhere, or to a node.
abbrev pub Leads : LinkedList → Option ℕ → Type 0
Leads ls none = Unit
Leads ls (some p) = (n : ListNode) × (ls.node_at p ≡ some n)

module _ (ls : LinkedList) where
  -- Where the walk over a linked sequence ends, and what a write to the value there does.
  abbrev Reached : Option ℕ → List ℕ → List Str → ℕ → Option ℕ → Type 0
  Reached prev ps vs r none = nth vs r ≡ none
  Reached prev ps vs r (some p) =
      (is_some (nth vs r) ≡ true)
      × (n : ListNode) × (ls.node_at p ≡ some n)
      × ((value : Str)
          → Linked (write ls.node_at p (some (record n { value = value }))) prev ps
              (set vs r value))
      × ((x : ℕ) → Apart x ps → x ≢ p)

  walk-Reached :
      (r : ℕ) (prev : Option ℕ) (ps : List ℕ) (vs : List Str)
      → Linked ls.node_at prev ps vs
      → AllApart ps
      → Returns (walk r ls (head_of ps)) (Reached prev ps vs r)
  unfolding walk
  walk-Reached zero prev [] [] linked apart = (none, refl, refl)
  walk-Reached zero prev (p ∷ ps) (v ∷ vs) (here, linked) (away, apart) = (
    some p,
    refl,
    (
      refl,
      node v (head_of ps) prev,
      here,
      λ value. (write_self ls.node_at p _, write-Linked ls.node_at p _ (some p) ps vs away linked),
      λ x others e. others.0 (sym e),
    ),
  )
  walk-Reached (suc r) prev [] [] linked apart = (none, refl, refl)
  walk-Reached (suc r) prev (p ∷ ps) (v ∷ vs) (here, linked) (away, apart) =
      rw (load-ok ls p _ here) (later (walk-Reached r (some p) ps vs linked apart))
    where
      later :
          Returns (walk r ls (head_of ps)) (Reached (some p) ps vs r)
          → Returns (walk r ls (head_of ps)) (Reached prev (p ∷ ps) (v ∷ vs) (suc r))
      later (none, run, past) = (none, run, past)
      later (some q, run, (inside, n, at_q, linked', other)) = (
        some q,
        run,
        (
          inside,
          n,
          at_q,
          λ value. (write_ne ls.node_at q p _ (other p away) ∙ here, linked' value),
          λ x others. other x others.1,
        ),
      )
  walk-Reached r prev [] (v ∷ vs) linked apart = absurd linked
  walk-Reached r prev (p ∷ ps) [] linked apart = absurd linked

  module _ (vs : List Str) (seq : IsSeq ls vs) where
    -- On a list that stands for a sequence of values `list_set` runs without a fault, writes the value
    -- at the index, the first for a negative one, and tells whether there is one.
    pub list_set-IsSeq :
        (id : ℤ) (value : Str)
        → Returns
            (list_set ls id value)
            λ r. IsSeq r.0 (set vs (pos_part id) value) × (r.1 ≡ is_some (nth vs (pos_part id)))
    unfolding list_set set_value
    list_set-IsSeq id value = go (
        subst (λ p. Returns (walk (pos_part id) ls p) (Reached none seq.addresses vs (pos_part id)))
          (sym seq.head) (walk-Reached (pos_part id) none seq.addresses vs seq.linked seq.apart))
      where
        go :
            Returns (walk (pos_part id) ls ls.head) (Reached none seq.addresses vs (pos_part id))
            → Returns
                (list_set ls id value)
                λ r. IsSeq r.0 (set vs (pos_part id) value) × (r.1 ≡ is_some (nth vs (pos_part id)))
        go (none, run, past) = (
          (ls, false),
          rw run refl,
          (rw (set_past vs (pos_part id) value past) seq, rw past refl),
        )
        go (some p, run, (inside, n, at_p, linked, other)) = (
          (record ls { node_at = write ls.node_at p (some (record n { value = value })) }, true),
          rw run (rw (load-ok ls p n at_p) refl),
          (
            record {
              addresses = seq.addresses;
              linked = linked value;
              apart = seq.apart;
              below = seq.below;
              head = seq.head;
              tail = seq.tail;
              len = seq.len;
            },
            sym inside,
          ),
        )

    pub list_index-Leads : (id : ℤ) → Returns (list_index ls id) (Leads ls)
    unfolding list_index
    list_index-Leads id = go (
        subst (λ p. Returns (walk (pos_part id) ls p) (Reached none seq.addresses vs (pos_part id)))
          (sym seq.head) (walk-Reached (pos_part id) none seq.addresses vs seq.linked seq.apart))
      where
        go :
            Returns (walk (pos_part id) ls ls.head) (Reached none seq.addresses vs (pos_part id))
            → Returns (walk (pos_part id) ls ls.head) (Leads ls)
        go (none, run, past) = (none, run, tt)
        go (some p, run, (inside, n, at_p, linked, other)) = (some p, run, (n, at_p))
