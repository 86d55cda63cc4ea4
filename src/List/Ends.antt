-- ===== src/List/Ends.antt =====
-- The operations on both ends of a list, src/list.c.
use hyperkv.Base.{
  ◌+◌, ◌<◌, List, ◌∷◌, [], ◌++◌, ◌≡◌, Str, Returns, int_max, drop_last, ℕ, Option, none, some,
  is_some, refl, sym, ap, ◌∙◌, ok, ok-injective, leb, true, arith,
}
use hyperkv.List.{LinkedList, list_lpush, list_rpush, list_lpop, list_rpop}
use hyperkv.List.Back.{list_rpush-IsSeq}
use hyperkv.List.Front.{list_lpush-IsSeq, list_lpop-IsSeq, tail_of}
use hyperkv.List.Rpop.{list_rpop-IsSeq, end_of}
use hyperkv.List.Seq.{IsSeq, first_of, value_of, length-Linked}

null_agrees :
    (ls : LinkedList) (node : Option ℕ) (value : Option Str)
    → value_of ls node ≡ value
    → (value ≡ none → node ≡ none)
    → is_some node ≡ is_some value
null_agrees ls none none e null = refl
null_agrees ls none (some v) e null = absurd (let no : none ≡ some v = e in cc)
null_agrees ls (some p) none e null = cc (null refl)
null_agrees ls (some p) (some v) e null = refl

no_values : (ls : LinkedList) → IsSeq ls [] → leb ls.len 0 ≡ true
no_values ls seq =
    ground (arith, seq.len, length-Linked ls.node_at none seq.addresses [] seq.linked)

list_lpop-null : (ls : LinkedList) → IsSeq ls [] → list_lpop ls ≡ ok (ls, none)
unfolding list_lpop
list_lpop-null ls seq = rw (no_values ls seq) refl

list_rpop-null : (ls : LinkedList) → IsSeq ls [] → list_rpop ls ≡ ok (ls, none)
unfolding list_rpop
list_rpop-null ls seq = rw (no_values ls seq) refl

end_there : (v : Str) (vs : List Str) → end_of (v ∷ vs) ≡ none → ⊥
end_there v [] e = let no : some v ≡ none = e in cc
end_there v (w ∷ vs) e = end_there w vs e

-- A pop of no values returns NULL, and a pop of some a node.
lpop-agrees :
    (ls : LinkedList) (vs : List Str)
    → IsSeq ls vs
    → (r : LinkedList × Option ℕ) → list_lpop ls ≡ ok r
    → value_of r.0 r.1 ≡ first_of vs
    → is_some r.1 ≡ is_some (first_of vs)
lpop-agrees ls [] seq r run e =
    null_agrees r.0 r.1 none e
      (λ _. ap (λ p. p.1) (sym (ok-injective (sym (list_lpop-null ls seq) ∙ run))))
lpop-agrees ls (v ∷ vs) seq r run e =
    null_agrees r.0 r.1 (some v) e (λ end. absurd (let no : some v ≡ none = end in cc))

rpop-agrees :
    (ls : LinkedList) (vs : List Str)
    → IsSeq ls vs
    → (r : LinkedList × Option ℕ) → list_rpop ls ≡ ok r
    → value_of r.0 r.1 ≡ end_of vs
    → is_some r.1 ≡ is_some (end_of vs)
rpop-agrees ls [] seq r run e =
    null_agrees r.0 r.1 none e
      (λ _. ap (λ p. p.1) (sym (ok-injective (sym (list_rpop-null ls seq) ∙ run))))
rpop-agrees ls (v ∷ vs) seq r run e =
    null_agrees r.0 r.1 (end_of (v ∷ vs)) e (λ end. absurd (end_there v vs end))

module _ (ls : LinkedList) (vs : List Str) (seq : IsSeq ls vs) where
  -- On a list that stands for a sequence of values and whose length is below the greatest `int`,
  -- `list_lpush` runs without a fault and puts the value before the others, and `list_rpush` puts it
  -- after them.
  pub pushes-IsSeq :
      (value : Str)
      → ls.len + 1 < int_max
      → (Returns (list_lpush ls value) λ r. IsSeq r (value ∷ vs))
        × (Returns (list_rpush ls value) λ r. IsSeq r (vs ++ value ∷ []))
  pushes-IsSeq value fits =
      (list_lpush-IsSeq ls value fits vs seq, list_rpush-IsSeq ls value fits vs seq)

  -- On a list that stands for a sequence of values `list_lpop` runs without a fault, hands out the node
  -- of the first value and leaves the others, and `list_rpop` that of the last; each returns NULL where
  -- there is no value, and only there.
  pub pops-IsSeq :
      (Returns (list_lpop ls) λ r.
        IsSeq r.0 (tail_of vs)
        × (value_of r.0 r.1 ≡ first_of vs)
        × (is_some r.1 ≡ is_some (first_of vs)))
      × (Returns (list_rpop ls) λ r.
          IsSeq r.0 (drop_last vs)
          × (value_of r.0 r.1 ≡ end_of vs)
          × (is_some r.1 ≡ is_some (end_of vs)))
  pops-IsSeq =
      let (r, run, (seq', e)) = list_lpop-IsSeq ls vs seq in
      let (r', run', (seq'', e')) = list_rpop-IsSeq ls vs seq in
      (
        (r, run, (seq', e, lpop-agrees ls vs seq r run e)),
        (r', run', (seq'', e', rpop-agrees ls vs seq r' run' e')),
      )
