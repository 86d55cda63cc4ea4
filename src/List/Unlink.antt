-- ===== src/List/Unlink.antt =====
-- `node_del` of src/list.c, and the release of the node behind it.
use hyperkv.Base.{
  ℕ, ◌-◌, true, false, List, [], ◌∷◌, Option, none, some, ◌≡◌, ◌≢◌, refl, sym, ◌∙◌, arith, ok, Str,
  Returns, ◌==◌, Bool-cases, inl, inr,
}
use hyperkv.List.{ListNode, node, LinkedList, write, same_ptr, load, set_prev, set_next}
use hyperkv.List.Rem.{node_del}
use hyperkv.List.Seq.{head_of, last_of, Linked, Apart, write_ne, write_self, write-Linked, load-ok}
use hyperkv.List.Split.{LeftLinked, Crossed-split, Split, write-LeftLinked}

same_address : (p : ℕ) → (p == p) ≡ true
same_address p = ground arith

-- The last of some addresses is another one.
last_of-other :
    (p a : ℕ) (qs : List ℕ) (prev : Option ℕ)
    → Apart p (a ∷ qs)
    → (h : ℕ) × (last_of prev (a ∷ qs) ≡ some h) × (h ≢ p)
last_of-other p a [] prev (other, apart) = (a, refl, other)
last_of-other p a (b ∷ qs) prev (other, apart) = last_of-other p b qs (some a) apart

other_ptr : (p h : ℕ) → h ≢ p → same_ptr (some p) (some h) ≡ false
other_ptr p h other = elim (Bool-cases (p == h)) [
  | inl e ↦ absurd (other (ground arith))
  | inr e ↦ e
]

-- The list with the node cut out of its links, and its length not yet lowered.
record Cut (ls a : LinkedList) (p : ℕ) (v : Str) (qs : List ℕ) (us : List Str) (bs : List ℕ)
    (ws : List Str) : Type 0 where
  here : a.node_at p ≡ some (node v (head_of bs) (head_of qs))
  left : LeftLinked a.node_at (head_of bs) qs us
  right : Linked a.node_at (head_of qs) bs ws
  head : a.head ≡ last_of (head_of bs) qs
  tail : a.tail ≡ last_of (head_of qs) bs
  len : a.len ≡ ls.len
  fresh : a.fresh ≡ ls.fresh

module _ (ls : LinkedList) (p : ℕ) (v : Str) where
  -- The node that goes is the only one, the first, the last, or another.
  node_del_only :
      Split ls [] [] (p ∷ []) (v ∷ [])
      → Returns (node_del ls (some p)) λ a'. Cut ls a' p v [] [] [] []
  unfolding node_del load set_prev set_next
  node_del_only s =
      let alone : (ls.len == 1) ≡ true = ground (arith, s.len) in
      (
        record ls { head = none; tail = none },
        rw (s.head, alone) refl,
        record {
          here = s.right.0;
          left = tt;
          right = tt;
          head = refl;
          tail = refl;
          len = refl;
          fresh = refl;
        },
      )

  node_del_first :
      (b : ℕ) (bs : List ℕ) (w : Str) (ws : List Str)
      → Split ls [] [] (p ∷ b ∷ bs) (v ∷ w ∷ ws)
      → Returns (node_del ls (some p)) λ a'. Cut ls a' p v [] [] (b ∷ bs) (w ∷ ws)
  unfolding node_del load set_prev set_next
  node_del_first b bs w ws s =
      let more : (ls.len == 1) ≡ false = ground (arith, s.len) in
      let (here, (next, right)) = s.right in
      let ((other, away), (apart, rights)) = s.apart.1 in
      (
        record ls { node_at = write ls.node_at b (some (node w (head_of bs) none)); head = some b },
        rw (s.head, more, same_address p)
            (rw (load-ok ls p _ here) (rw (load-ok ls b _ next) refl)),
        record {
          here = write_ne ls.node_at b p _ (λ e. other (sym e)) ∙ here;
          left = tt;
          right =
              (write_self ls.node_at b _, write-Linked ls.node_at b _ (some b) bs ws apart right);
          head = refl;
          tail = s.tail;
          len = refl;
          fresh = refl;
        },
      )

  node_del_last :
      (a : ℕ) (qs : List ℕ) (u : Str) (us : List Str)
      → Split ls (a ∷ qs) (u ∷ us) (p ∷ []) (v ∷ [])
      → Returns (node_del ls (some p)) λ a'. Cut ls a' p v (a ∷ qs) (u ∷ us) [] []
  unfolding node_del load set_prev set_next
  node_del_last a qs u us s =
      let more : (ls.len == 1) ≡ false = ground (arith, s.len) in
      let (here, tt) = s.right in
      let (prev, left) = s.left in
      let ((away, lefts), rights, crossed) = s.apart in
      let (h, first, not_first) =
        last_of-other p a qs (some p) (Crossed-split (a ∷ qs) [] p crossed).0 in
      let head : ls.head ≡ some h = s.head ∙ first in
      let changed : Option ListNode = some (node u none (head_of qs)) in
      (
        record ls { node_at = write ls.node_at a changed; tail = some a },
        rw (head, more, other_ptr p h not_first, s.tail, same_address p)
            (rw (load-ok ls p _ here) (rw (load-ok ls a _ prev) refl)),
        record {
          here = write_ne ls.node_at a p _ crossed.0.0 ∙ here;
          left =
              (write_self ls.node_at a _, write-LeftLinked ls.node_at a _ (some a) qs us away left);
          right = tt;
          head = s.head;
          tail = refl;
          len = refl;
          fresh = refl;
        },
      )

  node_del_middle :
      (a : ℕ) (qs : List ℕ) (u : Str) (us : List Str) (b : ℕ) (bs : List ℕ) (w : Str)
      (ws : List Str)
      → Split ls (a ∷ qs) (u ∷ us) (p ∷ b ∷ bs) (v ∷ w ∷ ws)
      → Returns (node_del ls (some p)) λ a'. Cut ls a' p v (a ∷ qs) (u ∷ us) (b ∷ bs) (w ∷ ws)
  unfolding node_del load set_prev set_next
  node_del_middle a qs u us b bs w ws s =
      let more : (ls.len == 1) ≡ false = ground (arith, s.len) in
      let (here, (next, right)) = s.right in
      let (prev, left) = s.left in
      let ((away, lefts), (others, (apart, rights)), crossed) = s.apart in
      let (apart_p, (out, rest)) = Crossed-split (a ∷ qs) (b ∷ bs) p crossed in
      let (apart_b, crossed') = Crossed-split (a ∷ qs) bs b (out, rest) in
      let (h, first, not_first) = last_of-other p a qs (some p) apart_p in
      let (t, last, not_last) = last_of-other p b bs (some p) others in
      let head : ls.head ≡ some h = s.head ∙ first in
      let tail : ls.tail ≡ some t = s.tail ∙ last in
      let one : Option ListNode = some (node u (some b) (head_of qs)) in
      let two : Option ListNode = some (node w (head_of bs) (some a)) in
      let mid = record ls { node_at = write ls.node_at a one } in
      let here' : mid.node_at p ≡ some (node v (some b) (some a)) =
        write_ne ls.node_at a p one (λ e. apart_p.0 (sym e)) ∙ here in
      let next' : mid.node_at b ≡ some (node w (head_of bs) (some p)) =
        write_ne ls.node_at a b one (λ e. apart_b.0 (sym e)) ∙ next in
      (
        record ls { node_at = write mid.node_at b two },
        rw (head, more, other_ptr p h not_first, tail, other_ptr p t not_last)
            (rw (load-ok ls p _ here) (
              rw (load-ok ls a _ prev)
                (rw (load-ok mid p _ here') (rw (load-ok mid b _ next') refl)))),
        record {
          here = write_ne mid.node_at b p two (λ e. others.0 (sym e)) ∙ here';
          left = (
            write_ne mid.node_at b a two apart_b.0 ∙ write_self ls.node_at a one,
            write-LeftLinked mid.node_at b two (some a) qs us apart_b.1
                (write-LeftLinked ls.node_at a one (some a) qs us away left),
          );
          right = (
            write_self mid.node_at b two,
            write-Linked mid.node_at b two (some b) bs ws apart
                (write-Linked ls.node_at a one (some b) bs ws out.1 right),
          );
          head = s.head;
          tail = s.tail;
          len = refl;
          fresh = refl;
        },
      )

  node_del-Cut :
      (qs : List ℕ) (us : List Str) (bs : List ℕ) (ws : List Str)
      → Split ls qs us (p ∷ bs) (v ∷ ws)
      → Returns (node_del ls (some p)) λ a. Cut ls a p v qs us bs ws
  node_del-Cut [] [] [] [] s = node_del_only s
  node_del-Cut [] [] (b ∷ bs) (w ∷ ws) s = node_del_first b bs w ws s
  node_del-Cut (a ∷ qs) (u ∷ us) [] [] s = node_del_last a qs u us s
  node_del-Cut (a ∷ qs) (u ∷ us) (b ∷ bs) (w ∷ ws) s = node_del_middle a qs u us b bs w ws s
  node_del-Cut [] (u ∷ us) bs ws s = absurd s.left
  node_del-Cut (a ∷ qs) [] bs ws s = absurd s.left
  node_del-Cut qs us [] (w ∷ ws) s = absurd s.right.1
  node_del-Cut qs us (b ∷ bs) [] s = absurd s.right.1

  -- The node at the cursor goes, and the list stands for the values before and after it.
  pub unlink-Split :
      (qs : List ℕ) (us : List Str) (bs : List ℕ) (ws : List Str)
      → Split ls qs us (p ∷ bs) (v ∷ ws)
      → (a : LinkedList) × (node_del ls (some p) ≡ ok a)
        × (a.node_at p ≡ some (node v (head_of bs) (head_of qs)))
        × Split (record a { len = a.len - 1; node_at = write a.node_at p none }) qs us bs ws
  unlink-Split qs us bs ws s =
      let (a, run, cut) = node_del-Cut qs us bs ws s in
      let (lefts, (away, rights), crossed) = s.apart in
      let (away', crossed') = Crossed-split qs bs p crossed in
      let (lows, (low, highs)) = s.below in
      (
        a,
        run,
        cut.here,
        record {
          left = write-LeftLinked a.node_at p none (head_of bs) qs us away' cut.left;
          right = write-Linked a.node_at p none (head_of qs) bs ws away cut.right;
          apart = (lefts, rights, crossed');
          below = rw cut.fresh (lows, highs);
          head = cut.head;
          tail = cut.tail;
          len = omega (arith, cut.len, s.len);
        },
      )
