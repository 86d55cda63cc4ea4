-- ===== src/Release/Lists.antt =====
-- `list_free` of src/list.c on a list that stands for some values.
use hyperkv.Base.{
  ℕ, suc, List, [], ◌∷◌, ◌++◌, Option, none, some, ◌≡◌, refl, ap, ◌∙◌, ok, Str, length,
}
use hyperkv.List.{ListNode, LinkedList, write, load, node_free}
use hyperkv.List.Seq.{head_of, Linked, AllApart, IsSeq, write-Linked, load-ok}
use hyperkv.Release.{Block, string_block, node_block, struct_block, free_nodes, list_free}

-- What a list of the values owns, node by node.
abbrev pub node_blocks : List Str → List Block
node_blocks [] = []
node_blocks (v ∷ vs) = string_block v ∷ node_block ∷ node_blocks vs

abbrev pub list_blocks : List Str → List Block
list_blocks vs = node_blocks vs ++ struct_block ∷ []

free_nodes-step :
    (len p : ℕ) (ls : LinkedList) (n : ListNode) (rest : List Block)
    → load ls (some p) ≡ ok (p, n)
    → free_nodes len (record ls { node_at = write ls.node_at p none }) n.next ≡ ok rest
    → free_nodes (suc len) ls (some p) ≡ ok (string_block n.value ∷ node_block ∷ rest)
unfolding free_nodes node_free
free_nodes-step len p ls n rest reads later = rw reads (rw later refl)

free_nodes-Linked :
    (ls : LinkedList) (prev : Option ℕ) (ps : List ℕ) (vs : List Str)
    → Linked ls.node_at prev ps vs
    → AllApart ps
    → free_nodes (length ps) ls (head_of ps) ≡ ok (node_blocks vs)
unfolding free_nodes
free_nodes-Linked ls prev [] [] linked apart = refl
free_nodes-Linked ls prev (p ∷ ps) (v ∷ vs) (here, linked) (away, apart) =
    let reads = load-ok ls p _ here in
    free_nodes-step (length ps) p ls _ (node_blocks vs) reads (
      free_nodes-Linked (record ls { node_at = write ls.node_at p none }) (some p) ps vs
        (write-Linked ls.node_at p none (some p) ps vs away linked) apart)
free_nodes-Linked ls prev [] (v ∷ vs) linked apart = absurd linked
free_nodes-Linked ls prev (p ∷ ps) [] linked apart = absurd linked

-- `list_free` of a list that stands for some values frees the string and the node of each value, in
-- their order, and the list, and reads no node that it has freed.
pub list_free-IsSeq :
    (ls : LinkedList) (vs : List Str) → IsSeq ls vs → list_free ls ≡ ok (list_blocks vs)
unfolding list_free
list_free-IsSeq ls vs seq =
    let run : free_nodes ls.len ls ls.head ≡ ok (node_blocks vs) =
      ap (λ n. free_nodes n ls ls.head) seq.len
      ∙ (ap (free_nodes (length seq.addresses) ls) seq.head
          ∙ free_nodes-Linked ls none seq.addresses vs seq.linked seq.apart) in
    rw run refl
