-- ===== src/List/Split.antt =====
-- A doubly linked list of src/list.c around a cursor: the nodes before it, the nearest first, and the
-- nodes after it.
use hyperkv.Base.{ℕ, ◌+◌, List, [], ◌∷◌, Option, some, ◌≡◌, sym, arith, Str, length}
use hyperkv.List.{ListNode, node, LinkedList, write}
use hyperkv.List.Seq.{head_of, last_of, Linked, Apart, AllApart, Below, IsSeq, write_ne}

-- The first sequence, nearest last, put before the second.
abbrev pub onto {ℓ} : {A : Type ℓ} → List A → List A → List A
onto [] ys = ys
onto (x ∷ xs) ys = onto xs (x ∷ ys)

pub length-onto : {A : Type 0} (xs ys : List A) → length (onto xs ys) ≡ length xs + length ys
length-onto [] ys = omega arith
length-onto (x ∷ xs) ys = omega (arith, length-onto xs (x ∷ ys))

abbrev pub LeftLinked : (ℕ → Option ListNode) → Option ℕ → List ℕ → List Str → Type 0
LeftLinked nodes next [] [] = Unit
LeftLinked nodes next (p ∷ ps) (v ∷ vs) =
    (nodes p ≡ some (node v next (head_of ps))) × LeftLinked nodes (some p) ps vs
LeftLinked nodes next _ _ = ⊥

abbrev pub Crossed : List ℕ → List ℕ → Type 0
Crossed [] bs = Unit
Crossed (a ∷ qs) bs = Apart a bs × Crossed qs bs

Crossed-cons : (qs bs : List ℕ) (p : ℕ) → Apart p qs → Crossed qs bs → Crossed qs (p ∷ bs)
Crossed-cons [] bs p apart crossed = tt
Crossed-cons (a ∷ qs) bs p (other, apart) (here, crossed) =
    (((λ e. other (sym e)), here), Crossed-cons qs bs p apart crossed)

pub Crossed-split : (qs bs : List ℕ) (p : ℕ) → Crossed qs (p ∷ bs) → Apart p qs × Crossed qs bs
Crossed-split [] bs p crossed = (tt, tt)
Crossed-split (a ∷ qs) bs p ((other, here), crossed) =
    let (apart, rest) = Crossed-split qs bs p crossed in
    (((λ e. other (sym e)), apart), (here, rest))

pub record Split (ls : LinkedList) (qs : List ℕ) (us : List Str) (bs : List ℕ) (ws : List Str)
    : Type 0 where
  pub left : LeftLinked ls.node_at (head_of bs) qs us
  pub right : Linked ls.node_at (head_of qs) bs ws
  pub apart : AllApart qs × AllApart bs × Crossed qs bs
  pub below : Below ls.fresh qs × Below ls.fresh bs
  pub head : ls.head ≡ last_of (head_of bs) qs
  pub tail : ls.tail ≡ last_of (head_of qs) bs
  pub len : ls.len ≡ length qs + length bs

module _ (ls : LinkedList) where
  pub Split-next :
      (qs : List ℕ) (us : List Str) (p : ℕ) (bs : List ℕ) (v : Str) (ws : List Str)
      → Split ls qs us (p ∷ bs) (v ∷ ws)
      → Split ls (p ∷ qs) (v ∷ us) bs ws
  Split-next qs us p bs v ws s =
      let (here, right) = s.right in
      let (lefts, (away, rights), crossed) = s.apart in
      let (away', crossed') = Crossed-split qs bs p crossed in
      let (lows, (low, highs)) = s.below in
      record {
        left = (here, s.left);
        right = right;
        apart = ((away', lefts), rights, (away, crossed'));
        below = ((low, lows), highs);
        head = s.head;
        tail = s.tail;
        len = omega (arith, s.len);
      }

  pub Split-prev :
      (p : ℕ) (qs : List ℕ) (v : Str) (us : List Str) (bs : List ℕ) (ws : List Str)
      → Split ls (p ∷ qs) (v ∷ us) bs ws
      → Split ls qs us (p ∷ bs) (v ∷ ws)
  Split-prev p qs v us bs ws s =
      let (here, left) = s.left in
      let ((away, lefts), rights, (away', crossed)) = s.apart in
      let ((low, lows), highs) = s.below in
      record {
        left = left;
        right = (here, s.right);
        apart = (lefts, (away', rights), Crossed-cons qs bs p away crossed);
        below = (lows, (low, highs));
        head = s.head;
        tail = s.tail;
        len = omega (arith, s.len);
      }

  pub Split-IsSeq :
      (qs : List ℕ) (us : List Str) (bs : List ℕ) (ws : List Str)
      → Split ls qs us bs ws
      → IsSeq ls (onto us ws)
  Split-IsSeq [] [] bs ws s = record {
    addresses = bs;
    linked = s.right;
    apart = s.apart.1;
    below = s.below.1;
    head = s.head;
    tail = s.tail;
    len = omega (arith, s.len);
  }
  Split-IsSeq (p ∷ qs) (v ∷ us) bs ws s =
      Split-IsSeq qs us (p ∷ bs) (v ∷ ws) (Split-prev p qs v us bs ws s)
  Split-IsSeq [] (v ∷ us) bs ws s = absurd s.left
  Split-IsSeq (p ∷ qs) [] bs ws s = absurd s.left

  -- The cursor before the first node, and after the last.
  pub IsSeq-first : (vs : List Str) (seq : IsSeq ls vs) → Split ls [] [] seq.addresses vs
  IsSeq-first vs seq = record {
    left = tt;
    right = seq.linked;
    apart = (tt, seq.apart, tt);
    below = (tt, seq.below);
    head = seq.head;
    tail = seq.tail;
    len = omega (arith, seq.len);
  }

  pub Split-last :
      (qs : List ℕ) (us : List Str) (bs : List ℕ) (ws : List Str)
      → Split ls qs us bs ws
      → (all : List ℕ) × Split ls all (onto ws us) [] []
  Split-last qs us [] [] s = (qs, s)
  Split-last qs us (p ∷ bs) (v ∷ ws) s =
      Split-last (p ∷ qs) (v ∷ us) bs ws (Split-next qs us p bs v ws s)
  Split-last qs us [] (v ∷ ws) s = absurd s.right
  Split-last qs us (p ∷ bs) [] s = absurd s.right

-- A write to a node outside keeps the links.
pub write-LeftLinked :
    (nodes : ℕ → Option ListNode) (a : ℕ) (n : Option ListNode) (next : Option ℕ) (ps : List ℕ)
    (vs : List Str)
    → Apart a ps
    → LeftLinked nodes next ps vs
    → LeftLinked (write nodes a n) next ps vs
write-LeftLinked nodes a n next [] [] apart linked = tt
write-LeftLinked nodes a n next (p ∷ ps) (v ∷ vs) (other, apart) (here, linked) =
    (rw (write_ne nodes a p n other) here, write-LeftLinked nodes a n (some p) ps vs apart linked)
write-LeftLinked nodes a n next [] (v ∷ vs) apart linked = linked
write-LeftLinked nodes a n next (p ∷ ps) [] apart linked = linked
