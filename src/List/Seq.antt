-- ===== src/List/Seq.antt =====
-- The sequence of values that a doubly linked list of src/list.c stands for.
use hyperkv.Base.{
  ℕ, ◌+◌, ◌<◌, List, [], ◌∷◌, Option, none, some, ◌≡◌, ◌≢◌, refl, arith, ok, Str, length, ◌==◌,
  Bool-cases, inl, inr,
}
use hyperkv.List.{ListNode, node, LinkedList, write, load, list_init}

abbrev pub head_of : List ℕ → Option ℕ
head_of [] = none
head_of (p ∷ ps) = some p

abbrev pub last_of : Option ℕ → List ℕ → Option ℕ
last_of prev [] = prev
last_of prev (p ∷ ps) = last_of (some p) ps

-- The nodes at the addresses hold the values in order, and point at one another.
abbrev pub Linked : (ℕ → Option ListNode) → Option ℕ → List ℕ → List Str → Type 0
Linked nodes prev [] [] = Unit
Linked nodes prev (p ∷ ps) (v ∷ vs) =
    (nodes p ≡ some (node v (head_of ps) prev)) × Linked nodes (some p) ps vs
Linked nodes prev _ _ = ⊥

abbrev pub Apart : ℕ → List ℕ → Type 0
Apart p [] = Unit
Apart p (q ∷ qs) = (q ≢ p) × Apart p qs

abbrev pub AllApart : List ℕ → Type 0
AllApart [] = Unit
AllApart (p ∷ ps) = Apart p ps × AllApart ps

abbrev pub Below : ℕ → List ℕ → Type 0
Below n [] = Unit
Below n (p ∷ ps) = (p < n) × Below n ps

-- The list stands for the values: its nodes are linked in their order, at different addresses that
-- have been handed out, between the head and the tail, and `len` counts them.
pub record IsSeq (ls : LinkedList) (vs : List Str) : Type 0 where
  pub addresses : List ℕ
  pub linked : Linked ls.node_at none addresses vs
  pub apart : AllApart addresses
  pub below : Below ls.fresh addresses
  pub head : ls.head ≡ head_of addresses
  pub tail : ls.tail ≡ last_of none addresses
  pub len : ls.len ≡ length addresses

pub Below-Apart : (n : ℕ) (ps : List ℕ) → Below n ps → Apart n ps
Below-Apart n [] low = tt
Below-Apart n (p ∷ ps) (low, rest) = ((λ e. omega (arith, e, low)), Below-Apart n ps rest)

pub Below-suc : (n : ℕ) (ps : List ℕ) → Below n ps → Below (n + 1) ps
Below-suc n [] low = tt
Below-suc n (p ∷ ps) (low, rest) = (omega (arith, low), Below-suc n ps rest)

pub write_ne :
    (nodes : ℕ → Option ListNode) (a q : ℕ) (n : Option ListNode)
    → q ≢ a
    → write nodes a n q ≡ nodes q
write_ne nodes a q n other = elim (Bool-cases (q == a)) [
  | inl e ↦ absurd (other (ground arith))
  | inr e ↦ rw e refl
]

pub write_self : (nodes : ℕ → Option ListNode) (a : ℕ) (n : Option ListNode) → write nodes a n a ≡ n
write_self nodes a n = elim (Bool-cases (a == a)) [ inl e ↦ rw e refl | inr e ↦ ground arith ]

-- A write to a node outside keeps the links.
pub write-Linked :
    (nodes : ℕ → Option ListNode) (a : ℕ) (n : Option ListNode) (prev : Option ℕ) (ps : List ℕ)
    (vs : List Str)
    → Apart a ps
    → Linked nodes prev ps vs
    → Linked (write nodes a n) prev ps vs
write-Linked nodes a n prev [] [] apart linked = tt
write-Linked nodes a n prev (p ∷ ps) (v ∷ vs) (other, apart) (here, linked) =
    (rw (write_ne nodes a p n other) here, write-Linked nodes a n (some p) ps vs apart linked)
write-Linked nodes a n prev [] (v ∷ vs) apart linked = linked
write-Linked nodes a n prev (p ∷ ps) [] apart linked = linked

pub length-Linked :
    (nodes : ℕ → Option ListNode) (prev : Option ℕ) (ps : List ℕ) (vs : List Str)
    → Linked nodes prev ps vs
    → length ps ≡ length vs
length-Linked nodes prev [] [] linked = refl
length-Linked nodes prev (p ∷ ps) (v ∷ vs) (here, linked) =
    omega (arith, length-Linked nodes (some p) ps vs linked)
length-Linked nodes prev [] (v ∷ vs) linked = absurd linked
length-Linked nodes prev (p ∷ ps) [] linked = absurd linked

-- A read of a node that is there.
pub load-ok :
    (ls : LinkedList) (p : ℕ) (n : ListNode) → ls.node_at p ≡ some n → load ls (some p) ≡ ok (p, n)
unfolding load
load-ok ls p n e = rw (e, load) refl

abbrev pub first_of : List Str → Option Str
first_of [] = none
first_of (v ∷ vs) = some v

-- The value of the node that a pointer leads to.
abbrev pub value_of : LinkedList → Option ℕ → Option Str
value_of ls none = none
value_of ls (some p) = elim (ls.node_at p) [ none ↦ none | some n ↦ some n.value ]

pub value_of-at :
    (ls : LinkedList) (p : ℕ) (n : ListNode)
    → ls.node_at p ≡ some n
    → value_of ls (some p) ≡ some n.value
value_of-at ls p n e = rw (value_of, e) refl

-- `list_init` stands for no values.
pub list_init-IsSeq : IsSeq list_init []
unfolding list_init
list_init-IsSeq = record {
  addresses = [];
  linked = tt;
  apart = tt;
  below = tt;
  head = refl;
  tail = refl;
  len = refl;
}
