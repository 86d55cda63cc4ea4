-- ===== src/List/Back.antt =====
-- `list_rpush` of src/list.c on the sequence that a list stands for.
use hyperkv.Base.{
  Safe, Safe-bind, int-Safe, int, ◌>>=◌, ok, subst, sym, ℕ, ◌+◌, ◌<◌, true, false, List, [], ◌∷◌,
  ◌++◌, Option, none, some, ◌≡◌, ◌≢◌, refl, ap, ◌∙◌, arith, Str, length, length-append, int-ok,
  int_max, Returns, ltb,
}
use hyperkv.List.{ListNode, node, LinkedList, write, load, node_init, list_rpush}
use hyperkv.List.Seq.{
  head_of, last_of, Linked, Apart, AllApart, Below, IsSeq, Below-Apart, write_ne, write_self,
  load-ok,
}

-- The last node of a linked sequence, and what becomes of the sequence when `f` is hung on to it.
record End (nodes : ℕ → Option ListNode) (prev : Option ℕ) (ps : List ℕ) (vs : List Str) (f : ℕ)
    (value : Str) : Type 0 where
  last : ℕ
  last_value : Str
  before : Option ℕ
  ends : last_of prev ps ≡ some last
  here : nodes last ≡ some (node last_value none before)
  away : (x : ℕ) → Apart x ps → last ≢ x
  join :
      (nodes' : ℕ → Option ListNode)
      → ((q : ℕ) → q ≢ last → q ≢ f → nodes' q ≡ nodes q)
      → nodes' last ≡ some (node last_value (some f) before)
      → nodes' f ≡ some (node value none (some last))
      → Linked nodes' prev (ps ++ f ∷ []) (vs ++ value ∷ [])

Linked-End :
    (nodes : ℕ → Option ListNode) (prev : Option ℕ) (p : ℕ) (ps : List ℕ) (v : Str) (vs : List Str)
    (f : ℕ) (value : Str)
    → Linked nodes prev (p ∷ ps) (v ∷ vs)
    → AllApart (p ∷ ps)
    → Apart f (p ∷ ps)
    → End nodes prev (p ∷ ps) (v ∷ vs) f value
Linked-End nodes prev p [] v [] f value (here, linked) apart fresh = record {
  last = p;
  last_value = v;
  before = prev;
  ends = refl;
  here = here;
  away = λ x other. other.0;
  join = λ nodes' keep at_last at_f. (at_last, (at_f, tt));
}
Linked-End nodes prev p (q ∷ ps) v (w ∷ vs) f value (here, linked) (away, apart) (other, fresh) =
    let e = Linked-End nodes (some p) q ps w vs f value linked apart fresh in
    record {
      last = e.last;
      last_value = e.last_value;
      before = e.before;
      ends = e.ends;
      here = e.here;
      away = λ x others. e.away x others.1;
      join = λ nodes' keep at_last at_f.
          (keep p (λ same. e.away p away (sym same)) other ∙ here, e.join nodes' keep at_last at_f);
    }
Linked-End nodes prev p [] v (w ∷ vs) f value (here, linked) apart fresh = absurd linked
Linked-End nodes prev p (q ∷ ps) v [] f value (here, linked) apart fresh = absurd linked

Apart-append : (p f : ℕ) (ps : List ℕ) → f ≢ p → Apart p ps → Apart p (ps ++ f ∷ [])
Apart-append p f [] other apart = (other, tt)
Apart-append p f (q ∷ ps) other (here, apart) = (here, Apart-append p f ps other apart)

AllApart-append : (f : ℕ) (ps : List ℕ) → Apart f ps → AllApart ps → AllApart (ps ++ f ∷ [])
AllApart-append f [] other apart = (tt, tt)
AllApart-append f (p ∷ ps) (other, others) (here, apart) =
    (Apart-append p f ps (λ e. other (sym e)) here, AllApart-append f ps others apart)

Below-append : (f : ℕ) (ps : List ℕ) → Below f ps → Below (f + 1) (ps ++ f ∷ [])
Below-append f [] low = (omega arith, tt)
Below-append f (p ∷ ps) (low, rest) = (omega (arith, low), Below-append f ps rest)

last_of-append : (prev : Option ℕ) (f : ℕ) (ps : List ℕ) → last_of prev (ps ++ f ∷ []) ≡ some f
last_of-append prev f [] = refl
last_of-append prev f (p ∷ ps) = last_of-append (some p) f ps

module _ (ls : LinkedList) (value : Str) where
  -- What the push makes of the list before it counts the value.
  abbrev Pushed : List Str → Type 0
  Pushed vs =
      (linked : LinkedList) × (list_rpush ls value
        ≡ (int (ls.len + 1) >>= λ len. ok (record linked { len = len })))
      × IsSeq (record linked { len = ls.len + 1 }) (vs ++ value ∷ [])

  list_rpush-Pushed : (vs : List Str) → IsSeq ls vs → Pushed vs
  unfolding list_rpush node_init
  list_rpush-Pushed vs seq =
      go seq.addresses vs seq.linked seq.apart seq.below seq.head seq.tail seq.len
    where
      go :
          (ps : List ℕ) (vs : List Str)
          → Linked ls.node_at none ps vs
          → AllApart ps
          → Below ls.fresh ps
          → ls.head ≡ head_of ps
          → ls.tail ≡ last_of none ps
          → ls.len ≡ length ps
          → Pushed vs
      go [] [] linked apart below head tail len =
          let n = node value none none in
          let none_yet : ltb 0 ls.len ≡ false = ground arith in
          (
            record (node_init ls value) {
              head = some ls.fresh;
              tail = some ls.fresh;
              len = ls.len + 1;
            },
            rw (none_yet) refl,
            record {
              addresses = ls.fresh ∷ [];
              linked = (write_self ls.node_at ls.fresh (some n), tt);
              apart = (tt, tt);
              below = (omega arith, tt);
              head = refl;
              tail = refl;
              len = omega (arith, len);
            },
          )
      go (p ∷ ps) (v ∷ vs) linked apart below head tail len =
          let f = ls.fresh in
          let fresh = Below-Apart f (p ∷ ps) below in
          let e = Linked-End ls.node_at none p ps v vs f value linked apart fresh in
          let other : e.last ≢ f = e.away f fresh in
          let tail' : ls.tail ≡ some e.last = tail ∙ e.ends in
          let made = node_init ls value in
          let first = node value none none in
          let some_yet : ltb 0 ls.len ≡ true = ground arith in
          let a = record made {
            node_at = write made.node_at f (some (record first { prev = ls.tail }));
          } in
          let there : a.node_at e.last ≡ some (node e.last_value none e.before) =
            write_ne made.node_at f e.last _ other
            ∙ (write_ne ls.node_at f e.last _ other ∙ e.here) in
          let load_tail : load a ls.tail ≡ ok (e.last, node e.last_value none e.before) =
            ap (load a) tail' ∙ load-ok a e.last (node e.last_value none e.before) there in
          let b = record a {
            node_at = write a.node_at e.last (some (node e.last_value (some f) e.before));
          } in
          (
            record b { tail = some f; len = ls.len + 1 },
            rw (some_yet, load-ok made f first (write_self ls.node_at f (some first)), load_tail)
                refl,
            record {
              addresses = p ∷ (ps ++ f ∷ []);
              linked =
                  e.join b.node_at
                    (λ q not_last not_f.
                      write_ne a.node_at e.last q _ not_last
                      ∙ (write_ne made.node_at f q _ not_f ∙ write_ne ls.node_at f q _ not_f))
                    (write_self a.node_at e.last _)
                    (write_ne a.node_at e.last f _ (λ s. other (sym s))
                      ∙ (write_self made.node_at f _ ∙ ap (λ q. some (node value none q)) tail'));
              apart = AllApart-append f (p ∷ ps) fresh apart;
              below = Below-append f (p ∷ ps) below;
              head = head;
              tail = sym (last_of-append (some p) f ps);
              len = omega (arith, len, length-append ps (f ∷ []));
            },
          )
      go [] (v ∷ vs) linked apart below head tail len = absurd linked
      go (p ∷ ps) [] linked apart below head tail len = absurd linked

  module _ (vs : List Str) (seq : IsSeq ls vs) where
    -- The length may overflow; nothing else may go wrong.
    pub list_rpush-Safe : Safe (λ r. IsSeq r (vs ++ value ∷ [])) (list_rpush ls value)
    list_rpush-Safe =
        let (linked, run, seq') = list_rpush-Pushed vs seq in
        rw run (
          Safe-bind _ (int-Safe (ls.len + 1)) λ len e.
            Safe.returns _
              (subst (λ n. IsSeq (record linked { len = n }) (vs ++ value ∷ [])) (sym e) seq'))

  -- On a list that stands for a sequence of values and whose length is below the greatest `int`,
  -- `list_rpush` runs without a fault, and puts the value after the others.
  pub list_rpush-IsSeq :
      ls.len + 1 < int_max
      → (vs : List Str) → IsSeq ls vs
      → Returns (list_rpush ls value) λ r. IsSeq r (vs ++ value ∷ [])
  list_rpush-IsSeq fits vs seq =
      let (linked, run, seq') = list_rpush-Pushed vs seq in
      (record linked { len = ls.len + 1 }, run ∙ rw (int-ok (ls.len + 1) fits) refl, seq')
