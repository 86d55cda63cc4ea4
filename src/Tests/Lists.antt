-- ===== src/Tests/Lists.antt =====
-- Linked lists.
use hyperkv.Base.{
  take, drop, length, ◌+◌, negsuc, drop_last, List, [], ◌∷◌, ◌++◌, none, some, ◌≡◌, refl, arith, ok,
  Returns, is_some, Str, codes, if◌then◌else◌, ◌==◌,
}
use hyperkv.List.{node, LinkedList, list_lpush, list_rpush, list_lpop, list_rpop}
use hyperkv.List.Ends.{pushes-IsSeq, pops-IsSeq}
use hyperkv.List.Front.{tail_of}
use hyperkv.List.Range.{list_range-take}
use hyperkv.List.Rem.{list_range, list_rem}
use hyperkv.List.Remaining.{without}
use hyperkv.List.Removal.{list_rem-without}
use hyperkv.List.Rpop.{end_of}
use hyperkv.List.Seq.{IsSeq, first_of, value_of}

-- "a" and "b", pushed at the left in the other order.
abbrev pub two : LinkedList
two = record {
  len = 2;
  head = some 1;
  tail = some 0;
  node_at = λ p.
      if p == 0
      then some (node (codes "b") none (some 1))
      else if p == 1
      then some (node (codes "a") (some 0) none)
      else none;
  fresh = 2;
}

abbrev pub values : List Str
values = codes "a" ∷ codes "b" ∷ []

pub two-IsSeq : IsSeq two values
two-IsSeq = record {
  addresses = 1 ∷ 0 ∷ [];
  linked = (refl, (refl, tt));
  apart = ((λ e. omega (arith, e), tt), (tt, tt));
  below = (omega arith, (omega arith, tt));
  head = refl;
  tail = refl;
  len = refl;
}

pushes-IsSeq_example :
    (Returns (list_lpush two (codes "c")) λ r. IsSeq r (codes "c" ∷ values))
    × (Returns (list_rpush two (codes "c")) λ r. IsSeq r (values ++ codes "c" ∷ []))
pushes-IsSeq_example = pushes-IsSeq two values two-IsSeq (codes "c") (omega arith)

pops-IsSeq_example :
    (Returns (list_lpop two) λ r.
      IsSeq r.0 (tail_of values)
      × (value_of r.0 r.1 ≡ first_of values)
      × (is_some r.1 ≡ is_some (first_of values)))
    × (Returns (list_rpop two) λ r.
        IsSeq r.0 (drop_last values)
        × (value_of r.0 r.1 ≡ end_of values)
        × (is_some r.1 ≡ is_some (end_of values)))
pops-IsSeq_example = pops-IsSeq two values two-IsSeq

list_range-take_example : list_range two 1 1 ≡ ok (take 1 (drop 1 values))
list_range-take_example = list_range-take two values two-IsSeq 1 1 (omega arith) (omega arith)

-- The last of the values that are equal goes.
list_rem-without_example : Returns (list_rem two (negsuc 0) (codes "a")) λ r.
    IsSeq r.0 (without (negsuc 0) (codes "a") values)
    × (r.1 + length (without (negsuc 0) (codes "a") values) ≡ length values)
list_rem-without_example = list_rem-without two values two-IsSeq (negsuc 0) (codes "a")
