-- ===== src/List/Front.antt =====
-- `list_lpush` and `list_lpop` of src/list.c on the sequence that a list stands for.
use hyperkv.Base.{
  Safe, Safe-bind, int-Safe, int, ◌>>=◌, ok, subst, sym, ℕ, ◌+◌, ◌-◌, ◌<◌, true, false, List, [],
  ◌∷◌, none, some, ◌≡◌, ◌≢◌, refl, ap, ◌∙◌, arith, Str, length, int-ok, int_max, Returns, ltb, leb,
}
use hyperkv.List.{node, LinkedList, write, load, node_init, list_lpush, list_lpop}
use hyperkv.List.Seq.{
  head_of, last_of, Linked, AllApart, Below, IsSeq, first_of, value_of, value_of-at, Below-Apart,
  Below-suc, write_ne, write_self, write-Linked, load-ok,
}

module _ (ls : LinkedList) (value : Str) where
  -- What the push makes of the list before it counts the value.
  abbrev Pushed : List Str → Type 0
  Pushed vs =
      (linked : LinkedList) × (list_lpush ls value
        ≡ (int (ls.len + 1) >>= λ len. ok (record linked { len = len })))
      × IsSeq (record linked { len = ls.len + 1 }) (value ∷ vs)

  list_lpush-Pushed : (vs : List Str) → IsSeq ls vs → Pushed vs
  unfolding list_lpush node_init
  list_lpush-Pushed vs seq =
      go seq.addresses vs seq.linked seq.apart seq.below seq.head seq.tail seq.len
    where
      go :
          (ps : List ℕ) (vs : List Str)
          → Linked ls.node_at none ps vs
          → AllApart ps
          → Below ls.fresh ps
          → ls.head ≡ head_of ps
          → ls.tail ≡ last_of none ps
          → ls.len ≡ length ps
          → Pushed vs
      go [] [] linked apart below head tail len =
          let n = node value none none in
          let none_yet : ltb 0 ls.len ≡ false = ground arith in
          (
            record (node_init ls value) {
              head = some ls.fresh;
              tail = some ls.fresh;
              len = ls.len + 1;
            },
            rw (none_yet) refl,
            record {
              addresses = ls.fresh ∷ [];
              linked = (write_self ls.node_at ls.fresh (some n), tt);
              apart = (tt, tt);
              below = (omega arith, tt);
              head = refl;
              tail = refl;
              len = omega (arith, len);
            },
          )
      go (p ∷ ps) (v ∷ vs) (here, linked) (away, apart) (low, below) head tail len =
          let f = ls.fresh in
          let other : p ≢ f = λ e. omega (arith, e, low) in
          let made = node_init ls value in
          let first = node value none none in
          let some_yet : ltb 0 ls.len ≡ true = ground arith in
          let a = record made {
            node_at = write made.node_at f (some (record first { next = ls.head }));
          } in
          let there : a.node_at p ≡ some (node v (head_of ps) none) =
            write_ne made.node_at f p _ other ∙ (write_ne ls.node_at f p _ other ∙ here) in
          let load_head : load a ls.head ≡ ok (p, node v (head_of ps) none) =
            ap (load a) head ∙ load-ok a p (node v (head_of ps) none) there in
          let b = record a { node_at = write a.node_at p (some (node v (head_of ps) (some f))) } in
          (
            record b { head = some f; len = ls.len + 1 },
            rw (some_yet, load-ok made f first (write_self ls.node_at f (some first)), load_head)
                refl,
            record {
              addresses = f ∷ p ∷ ps;
              linked = (
                write_ne a.node_at p f _ (λ e. other (sym e))
                    ∙ (write_self made.node_at f _ ∙ ap (λ q. some (node value q none)) head),
                (
                  write_self a.node_at p _,
                  write-Linked a.node_at p _ (some p) ps vs away (
                      write-Linked made.node_at f _ (some p) ps vs (Below-Apart f ps below) (
                        write-Linked ls.node_at f _ (some p) ps vs (Below-Apart f ps below)
                          linked)),
                ),
              );
              apart = ((other, Below-Apart f ps below), (away, apart));
              below = (omega arith, (omega (arith, low), Below-suc f ps below));
              head = refl;
              tail = tail;
              len = omega (arith, len);
            },
          )
      go [] (v ∷ vs) linked apart below head tail len = absurd linked
      go (p ∷ ps) [] linked apart below head tail len = absurd linked

  module _ (vs : List Str) (seq : IsSeq ls vs) where
    -- The length may overflow; nothing else may go wrong.
    pub list_lpush-Safe : Safe (λ r. IsSeq r (value ∷ vs)) (list_lpush ls value)
    list_lpush-Safe =
        let (linked, run, seq') = list_lpush-Pushed vs seq in
        rw run (
          Safe-bind _ (int-Safe (ls.len + 1)) λ len e.
            Safe.returns _
              (subst (λ n. IsSeq (record linked { len = n }) (value ∷ vs)) (sym e) seq'))

  -- On a list that stands for a sequence of values and whose length is below the greatest `int`,
  -- `list_lpush` runs without a fault, and puts the value before the others.
  pub list_lpush-IsSeq :
      ls.len + 1 < int_max
      → (vs : List Str) → IsSeq ls vs
      → Returns (list_lpush ls value) λ r. IsSeq r (value ∷ vs)
  list_lpush-IsSeq fits vs seq =
      let (linked, run, seq') = list_lpush-Pushed vs seq in
      (record linked { len = ls.len + 1 }, run ∙ rw (int-ok (ls.len + 1) fits) refl, seq')

abbrev pub tail_of : List Str → List Str
tail_of [] = []
tail_of (v ∷ vs) = vs

module _ (ls : LinkedList) where
  -- On a list that stands for a sequence of values `list_lpop` runs without a fault, hands out the
  -- node of the first value and leaves the others; of no values it returns NULL.
  pub list_lpop-IsSeq :
      (vs : List Str)
      → IsSeq ls vs
      → Returns (list_lpop ls) λ r. IsSeq r.0 (tail_of vs) × (value_of r.0 r.1 ≡ first_of vs)
  unfolding list_lpop
  list_lpop-IsSeq vs seq =
      go seq.addresses vs seq.linked seq.apart seq.below seq.head seq.tail seq.len
    where
      go :
          (ps : List ℕ) (vs : List Str)
          → Linked ls.node_at none ps vs
          → AllApart ps
          → Below ls.fresh ps
          → ls.head ≡ head_of ps
          → ls.tail ≡ last_of none ps
          → ls.len ≡ length ps
          → Returns (list_lpop ls) λ r. IsSeq r.0 (tail_of vs) × (value_of r.0 r.1 ≡ first_of vs)
      go [] [] linked apart below head tail len =
          let empty : leb ls.len 0 ≡ true = ground arith in
          (
            (ls, none),
            rw empty refl,
            (
              record {
                addresses = [];
                linked = tt;
                apart = tt;
                below = tt;
                head = head;
                tail = tail;
                len = len;
              },
              refl,
            ),
          )
      go (p ∷ []) (v ∷ []) (here, linked) apart below head tail len =
          let some_left : leb ls.len 0 ≡ false = ground arith in
          let last : ltb 0 (ls.len - 1) ≡ false = ground arith in
          let cut = record ls { head = none; tail = none; len = ls.len - 1 } in
          let n = node v none none in
          let b = record cut { node_at = write ls.node_at p (some n) } in
          let load_cut : load cut ls.head ≡ ok (p, n) = ap (load cut) head ∙ load-ok cut p n here in
          let load_b : load b ls.head ≡ ok (p, n) =
            ap (load b) head ∙ load-ok b p n (write_self ls.node_at p (some n)) in
          let c = record b { node_at = write b.node_at p (some n) } in
          (
            (c, ls.head),
            rw (some_left, last) (rw load_cut (rw load_b refl)),
            (
              record {
                addresses = [];
                linked = tt;
                apart = tt;
                below = tt;
                head = refl;
                tail = refl;
                len = omega (arith, len);
              },
              ap (value_of c) head ∙ value_of-at c p n (write_self b.node_at p (some n)),
            ),
          )
      go (p ∷ q ∷ ps) (v ∷ w ∷ vs) (here, (next, linked)) ((other, away), (away', apart))
            (low, below) head tail len =
          let some_left : leb ls.len 0 ≡ false = ground arith in
          let more : ltb 0 (ls.len - 1) ≡ true = ground arith in
          let load_head : load ls ls.head ≡ ok (p, node v (some q) none) =
            ap (load ls) head ∙ load-ok ls p _ here in
          let load_next : load ls (some q) ≡ ok (q, node w (head_of ps) (some p)) =
            load-ok ls q _ next in
          let a = record ls {
            node_at = write ls.node_at q (some (node w (head_of ps) none));
            head = some q;
            len = ls.len - 1;
          } in
          let load_a : load a ls.head ≡ ok (p, node v (some q) none) =
            ap (load a) head
            ∙ load-ok a p _ (write_ne ls.node_at q p _ (λ e. other (sym e)) ∙ here) in
          let n = node v none none in
          let b = record a { node_at = write a.node_at p (some n) } in
          let load_b : load b ls.head ≡ ok (p, n) =
            ap (load b) head ∙ load-ok b p n (write_self a.node_at p (some n)) in
          let c = record b { node_at = write b.node_at p (some n) } in
          (
            (c, ls.head),
            rw (some_left, more) (rw (load_head, load_next) (rw load_a (rw load_b refl))),
            (
              record {
                addresses = q ∷ ps;
                linked = (
                  write_ne b.node_at p q _ other
                      ∙ (write_ne a.node_at p q _ other ∙ write_self ls.node_at q _),
                  write-Linked b.node_at p _ (some q) ps vs away (
                      write-Linked a.node_at p _ (some q) ps vs away
                        (write-Linked ls.node_at q _ (some q) ps vs away' linked)),
                );
                apart = (away', apart);
                below = below;
                head = refl;
                tail = tail;
                len = omega (arith, len);
              },
              ap (value_of c) head ∙ value_of-at c p n (write_self b.node_at p (some n)),
            ),
          )
      go [] (v ∷ vs) linked apart below head tail len = absurd linked
      go (p ∷ ps) [] linked apart below head tail len = absurd linked
      go (p ∷ []) (v ∷ w ∷ vs) (here, linked) apart below head tail len = absurd linked
      go (p ∷ q ∷ ps) (v ∷ []) (here, linked) apart below head tail len = absurd linked
