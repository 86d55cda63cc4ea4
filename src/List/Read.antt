-- ===== src/List/Read.antt =====
-- `list_index` and `list_pos` of src/list.c on the sequence that a list stands for.
use hyperkv.Base.{
  ℕ, zero, suc, ◌+◌, ◌<◌, List, [], ◌∷◌, ℤ, pos, negsuc, pos_part, Option, none, some, ◌≡◌, refl,
  sym, subst, ◌∙◌, ap, arith, ok, Str, str_eq, length, Returns, if◌then◌else◌, Bool-cases, inl, inr,
}
use hyperkv.List.{LinkedList, walk, list_index, pos_loop, list_pos}
use hyperkv.List.Seq.{head_of, Linked, IsSeq, value_of, value_of-at, load-ok}

-- The value at an index, if there are as many.
abbrev pub nth : List Str → ℕ → Option Str
nth [] i = none
nth (v ∷ vs) zero = some v
nth (v ∷ vs) (suc i) = nth vs i

-- The index of the first value that is equal, counted from `i`, or -1.
abbrev pub position : List Str → ℕ → Str → ℤ
position [] i value = negsuc 0
position (v ∷ vs) i value = if str_eq v value then pos i else position vs (i + 1) value

module _ (ls : LinkedList) where
  walk-nth :
      (r : ℕ) (prev : Option ℕ) (ps : List ℕ) (vs : List Str)
      → Linked ls.node_at prev ps vs
      → Returns (walk r ls (head_of ps)) λ found. value_of ls found ≡ nth vs r
  unfolding walk
  walk-nth zero prev [] [] linked = (none, refl, refl)
  walk-nth zero prev (p ∷ ps) (v ∷ vs) (here, linked) = (some p, refl, value_of-at ls p _ here)
  walk-nth (suc r) prev [] [] linked = (none, refl, refl)
  walk-nth (suc r) prev (p ∷ ps) (v ∷ vs) (here, linked) =
      rw (load-ok ls p _ here) (walk-nth r (some p) ps vs linked)
  walk-nth r prev [] (v ∷ vs) linked = absurd linked
  walk-nth r prev (p ∷ ps) [] linked = absurd linked

  pos_loop-position :
      (fuel : ℕ) (prev : Option ℕ) (ps : List ℕ) (vs : List Str) (i : ℕ) (value : Str)
      → Linked ls.node_at prev ps vs
      → length ps < fuel
      → pos_loop fuel ls (head_of ps) i value ≡ ok (position vs i value)
  unfolding pos_loop
  pos_loop-position (suc fuel) prev [] [] i value linked enough = refl
  pos_loop-position (suc fuel) prev (p ∷ ps) (v ∷ vs) i value (here, linked) enough =
      rw (load-ok ls p _ here) (elim (Bool-cases (str_eq v value)) [
        | inl e ↦ rw e refl
        | inr e ↦ rw e (pos_loop-position fuel (some p) ps vs (i + 1) value linked (omega arith))
      ])
  pos_loop-position zero prev ps vs i value linked enough = absurd (omega arith)
  pos_loop-position fuel prev [] (v ∷ vs) i value linked enough = absurd linked
  pos_loop-position fuel prev (p ∷ ps) [] i value linked enough = absurd linked

  module _ (vs : List Str) (seq : IsSeq ls vs) where
    -- On a list that stands for a sequence of values, `list_index` reaches the value at the index,
    -- NULL past the end, and the first for a negative index.
    pub list_index-nth :
        (id : ℤ) → Returns (list_index ls id) λ found. value_of ls found ≡ nth vs (pos_part id)
    unfolding list_index
    list_index-nth id =
        subst
          (λ p. Returns (walk (pos_part id) ls p) λ found. value_of ls found ≡ nth vs (pos_part id))
          (sym seq.head) (walk-nth (pos_part id) none seq.addresses vs seq.linked)

    -- On a list that stands for a sequence of values, `list_pos` ends, with the index of the first
    -- value that is equal, or -1.
    pub list_pos-position : (value : Str) → list_pos ls value ≡ ok (position vs 0 value)
    unfolding list_pos
    list_pos-position value =
        ap (λ p. pos_loop (ls.len + 1) ls p 0 value) seq.head
        ∙ pos_loop-position (ls.len + 1) none seq.addresses vs 0 value seq.linked
            (omega (arith, seq.len))
