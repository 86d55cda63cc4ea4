-- ===== src/List/Rpop.antt =====
-- `list_rpop` of src/list.c on the sequence that a list stands for.
use hyperkv.Base.{
  drop_last, ℕ, suc, ◌-◌, true, false, List, [], ◌∷◌, Option, none, some, ◌≡◌, ◌≢◌, refl, sym, ap,
  ◌∙◌, arith, ok, Str, length, Returns, ltb, leb,
}
use hyperkv.List.{ListNode, node, LinkedList, write, load, list_rpop}
use hyperkv.List.Seq.{
  head_of, last_of, Linked, Apart, AllApart, Below, IsSeq, value_of, value_of-at, write_ne,
  write_self, load-ok,
}

abbrev pub end_of : List Str → Option Str
end_of [] = none
end_of (v ∷ []) = some v
end_of (v ∷ w ∷ vs) = end_of (w ∷ vs)

-- The last two nodes of a linked sequence, and what becomes of it when the last one is cut off.
record LastTwo (nodes : ℕ → Option ListNode) (prev : Option ℕ) (ps : List ℕ) (vs : List Str)
    : Type 0 where
  last : ℕ
  prior : ℕ
  last_value : Str
  prior_value : Str
  before : Option ℕ
  ends : last_of prev ps ≡ some last
  ends' : last_of prev (drop_last ps) ≡ some prior
  value : end_of vs ≡ some last_value
  last_here : nodes last ≡ some (node last_value none (some prior))
  prior_here : nodes prior ≡ some (node prior_value (some last) before)
  distinct : prior ≢ last
  last_away : (x : ℕ) → Apart x ps → last ≢ x
  prior_away : (x : ℕ) → Apart x ps → prior ≢ x
  cut :
      (nodes' : ℕ → Option ListNode)
      → ((q : ℕ) → q ≢ last → q ≢ prior → nodes' q ≡ nodes q)
      → nodes' prior ≡ some (node prior_value none before)
      → Linked nodes' prev (drop_last ps) (drop_last vs)

Linked-LastTwo :
    (nodes : ℕ → Option ListNode) (prev : Option ℕ) (p q : ℕ) (ps : List ℕ) (v w : Str)
    (vs : List Str)
    → Linked nodes prev (p ∷ q ∷ ps) (v ∷ w ∷ vs)
    → AllApart (p ∷ q ∷ ps)
    → LastTwo nodes prev (p ∷ q ∷ ps) (v ∷ w ∷ vs)
Linked-LastTwo nodes prev p q [] v w [] (here, (next, linked)) ((other, _), apart) = record {
  last = q;
  prior = p;
  last_value = w;
  prior_value = v;
  before = prev;
  ends = refl;
  ends' = refl;
  value = refl;
  last_here = next;
  prior_here = here;
  distinct = λ e. other (sym e);
  last_away = λ x others. others.1.0;
  prior_away = λ x others. others.0;
  cut = λ nodes' keep at_prior. (at_prior, tt);
}
Linked-LastTwo nodes prev p q (r ∷ rs) v w (x ∷ vs) (here, linked) (away, apart) =
    let e = Linked-LastTwo nodes (some p) q r rs w x vs linked apart in
    record {
      last = e.last;
      prior = e.prior;
      last_value = e.last_value;
      prior_value = e.prior_value;
      before = e.before;
      ends = e.ends;
      ends' = e.ends';
      value = e.value;
      last_here = e.last_here;
      prior_here = e.prior_here;
      distinct = e.distinct;
      last_away = λ y others. e.last_away y others.1;
      prior_away = λ y others. e.prior_away y others.1;
      cut = λ nodes' keep at_prior. (
        keep p (λ s. e.last_away p away (sym s)) (λ s. e.prior_away p away (sym s)) ∙ here,
        e.cut nodes' keep at_prior,
      );
    }
Linked-LastTwo nodes prev p q [] v w (x ∷ vs) (here, (next, linked)) apart = absurd linked
Linked-LastTwo nodes prev p q (r ∷ rs) v w [] (here, (next, linked)) apart = absurd linked

Apart-drop_last : (x : ℕ) (ps : List ℕ) → Apart x ps → Apart x (drop_last ps)
Apart-drop_last x [] apart = tt
Apart-drop_last x (p ∷ []) apart = tt
Apart-drop_last x (p ∷ q ∷ ps) (other, apart) = (other, Apart-drop_last x (q ∷ ps) apart)

AllApart-drop_last : (ps : List ℕ) → AllApart ps → AllApart (drop_last ps)
AllApart-drop_last [] apart = tt
AllApart-drop_last (p ∷ []) apart = tt
AllApart-drop_last (p ∷ q ∷ ps) (away, apart) =
    (Apart-drop_last p (q ∷ ps) away, AllApart-drop_last (q ∷ ps) apart)

Below-drop_last : (n : ℕ) (ps : List ℕ) → Below n ps → Below n (drop_last ps)
Below-drop_last n [] below = tt
Below-drop_last n (p ∷ []) below = tt
Below-drop_last n (p ∷ q ∷ ps) (low, below) = (low, Below-drop_last n (q ∷ ps) below)

length-drop_last : (p : ℕ) (ps : List ℕ) → length (drop_last (p ∷ ps)) ≡ length ps
length-drop_last p [] = refl
length-drop_last p (q ∷ ps) = ap suc (length-drop_last q ps)

module _ (ls : LinkedList) where
  -- On a list that stands for a sequence of values `list_rpop` runs without a fault, hands out the
  -- node of the last value and leaves the others; of no values it returns NULL.
  pub list_rpop-IsSeq :
      (vs : List Str)
      → IsSeq ls vs
      → Returns (list_rpop ls) λ r. IsSeq r.0 (drop_last vs) × (value_of r.0 r.1 ≡ end_of vs)
  unfolding list_rpop
  list_rpop-IsSeq vs seq =
      go seq.addresses vs seq.linked seq.apart seq.below seq.head seq.tail seq.len
    where
      go :
          (ps : List ℕ) (vs : List Str)
          → Linked ls.node_at none ps vs
          → AllApart ps
          → Below ls.fresh ps
          → ls.head ≡ head_of ps
          → ls.tail ≡ last_of none ps
          → ls.len ≡ length ps
          → Returns (list_rpop ls) λ r. IsSeq r.0 (drop_last vs) × (value_of r.0 r.1 ≡ end_of vs)
      go [] [] linked apart below head tail len =
          let empty : leb ls.len 0 ≡ true = ground arith in
          (
            (ls, none),
            rw empty refl,
            (
              record {
                addresses = [];
                linked = tt;
                apart = tt;
                below = tt;
                head = head;
                tail = tail;
                len = len;
              },
              refl,
            ),
          )
      go (p ∷ []) (v ∷ []) (here, linked) apart below head tail len =
          let some_left : leb ls.len 0 ≡ false = ground arith in
          let alone : ltb 0 (ls.len - 1) ≡ false = ground arith in
          let cut = record ls { head = none; tail = none; len = ls.len - 1 } in
          let n = node v none none in
          let b = record cut { node_at = write ls.node_at p (some n) } in
          let load_cut : load cut ls.tail ≡ ok (p, n) = ap (load cut) tail ∙ load-ok cut p n here in
          let load_b : load b ls.tail ≡ ok (p, n) =
            ap (load b) tail ∙ load-ok b p n (write_self ls.node_at p (some n)) in
          let c = record b { node_at = write b.node_at p (some n) } in
          (
            (c, ls.tail),
            rw (some_left, alone) (rw load_cut (rw load_b refl)),
            (
              record {
                addresses = [];
                linked = tt;
                apart = tt;
                below = tt;
                head = refl;
                tail = refl;
                len = omega (arith, len);
              },
              ap (value_of c) tail ∙ value_of-at c p n (write_self b.node_at p (some n)),
            ),
          )
      go (p ∷ q ∷ ps) (v ∷ w ∷ vs) linked apart below head tail len =
          let e = Linked-LastTwo ls.node_at none p q ps v w vs linked apart in
          let some_left : leb ls.len 0 ≡ false = ground arith in
          let more : ltb 0 (ls.len - 1) ≡ true = ground arith in
          let tail' : ls.tail ≡ some e.last = tail ∙ e.ends in
          let load_tail : load ls ls.tail ≡ ok (e.last, node e.last_value none (some e.prior)) =
            ap (load ls) tail' ∙ load-ok ls e.last _ e.last_here in
          let load_prior : load ls (some e.prior)
              ≡ ok (e.prior, node e.prior_value (some e.last) e.before) =
            load-ok ls e.prior _ e.prior_here in
          let a = record ls {
            node_at = write ls.node_at e.prior (some (node e.prior_value none e.before));
            tail = some e.prior;
            len = ls.len - 1;
          } in
          let load_a : load a ls.tail ≡ ok (e.last, node e.last_value none (some e.prior)) =
            ap (load a) tail'
            ∙ load-ok a e.last _
                (write_ne ls.node_at e.prior e.last _ (λ s. e.distinct (sym s)) ∙ e.last_here) in
          let m = node e.last_value none (some e.prior) in
          let b = record a { node_at = write a.node_at e.last (some m) } in
          let load_b : load b ls.tail ≡ ok (e.last, m) =
            ap (load b) tail' ∙ load-ok b e.last m (write_self a.node_at e.last (some m)) in
          let n = node e.last_value none none in
          let c = record b { node_at = write b.node_at e.last (some n) } in
          (
            (c, ls.tail),
            rw (some_left, more) (rw (load_tail, load_prior) (rw load_a (rw load_b refl))),
            (
              record {
                addresses = drop_last (p ∷ q ∷ ps);
                linked =
                    e.cut c.node_at
                      (λ x not_last not_prior.
                        write_ne b.node_at e.last x _ not_last
                        ∙ (write_ne a.node_at e.last x _ not_last
                            ∙ write_ne ls.node_at e.prior x _ not_prior))
                      (write_ne b.node_at e.last e.prior _ e.distinct
                        ∙ (write_ne a.node_at e.last e.prior _ e.distinct
                            ∙ write_self ls.node_at e.prior _));
                apart = AllApart-drop_last (p ∷ q ∷ ps) apart;
                below = Below-drop_last ls.fresh (p ∷ q ∷ ps) below;
                head = head;
                tail = sym e.ends';
                len = omega (arith, len, length-drop_last p (q ∷ ps));
              },
              ap (value_of c) tail'
                  ∙ (value_of-at c e.last n (write_self b.node_at e.last (some n)) ∙ sym e.value),
            ),
          )
      go [] (v ∷ vs) linked apart below head tail len = absurd linked
      go (p ∷ ps) [] linked apart below head tail len = absurd linked
      go (p ∷ []) (v ∷ w ∷ vs) (here, linked) apart below head tail len = absurd linked
      go (p ∷ q ∷ ps) (v ∷ []) (here, linked) apart below head tail len = absurd linked
