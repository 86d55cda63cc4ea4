-- ===== src/List.antt =====
-- The doubly linked list of src/list.c. A list owns its nodes, so each one comes with the part of
-- the heap that holds them: `node` by address, and `fresh`, the address that `malloc` returns next.
pub mod Rem
pub mod Seq
pub mod Front
pub mod Back
pub mod Rpop
pub mod Ends
pub mod Read
pub mod Edit
pub mod Range
pub mod Split
pub mod Unlink
pub mod Remaining
pub mod Removal
use hyperkv.Base.{
  ℕ, zero, suc, ◌+◌, ◌-◌, ℤ, pos, negsuc, ◌+ℤ◌, ◌-ℤ◌, pos_part, is_zero, leb_ℤ, Bool, true, false,
  not, ◌&&◌, List, [], ◌∷◌, Option, none, some, Run, ok, fault, Fault, ◌>>=◌, int, Str, str_eq, ltb,
  leb, ◌==◌, if◌then◌else◌,
}

pub record ListNode : Type 0 where
  pub value : Str
  pub next : Option ℕ
  pub prev : Option ℕ

abbrev pub node : Str → Option ℕ → Option ℕ → ListNode
node value next prev = record { value = value; next = next; prev = prev }

pub record LinkedList : Type 0 where
  pub len : ℕ
  pub head : Option ℕ
  pub tail : Option ℕ
  pub node_at : ℕ → Option ListNode
  pub fresh : ℕ

abbrev pub write : (ℕ → Option ListNode) → ℕ → Option ListNode → ℕ → Option ListNode
write nodes p n q = if q == p then n else nodes q

abbrev pub same_ptr : Option ℕ → Option ℕ → Bool
same_ptr none none = true
same_ptr (some p) (some q) = p == q
same_ptr _ _ = false

-- `*p`
unfoldable pub load : LinkedList → Option ℕ → Run (ℕ × ListNode)
load ls none = fault Fault.null_pointer
load ls (some p) = elim (ls.node_at p) [ none ↦ fault Fault.use_after_free | some n ↦ ok (p, n) ]

-- `p->next = q`, `p->prev = q` and `p->value = v`
unfoldable pub set_next : LinkedList → Option ℕ → Option ℕ → Run LinkedList
unfolding load
set_next ls p q = do
  (a, n) ← load ls p
  ok (record ls { node_at = write ls.node_at a (some (record n { next = q })) })

unfoldable pub set_prev : LinkedList → Option ℕ → Option ℕ → Run LinkedList
unfolding load
set_prev ls p q = do
  (a, n) ← load ls p
  ok (record ls { node_at = write ls.node_at a (some (record n { prev = q })) })

unfoldable pub set_value : LinkedList → Option ℕ → Str → Run LinkedList
unfolding load
set_value ls p v = do
  (a, n) ← load ls p
  ok (record ls { node_at = write ls.node_at a (some (record n { value = v })) })

-- `node_free`
unfoldable pub node_free : LinkedList → Option ℕ → Run LinkedList
unfolding load
node_free ls p = do (a, n) ← load ls p; ok (record ls { node_at = write ls.node_at a none })

unfoldable pub list_init : LinkedList
list_init = record { len = 0; head = none; tail = none; node_at = λ p. none; fresh = 0 }

-- `node_init`: the list with the new node in its heap; the address is `ls.fresh`.
unfoldable pub node_init : LinkedList → Str → LinkedList
node_init ls value = record ls {
  node_at = write ls.node_at ls.fresh (some (node value none none));
  fresh = ls.fresh + 1;
}

unfoldable pub list_lpush : LinkedList → Str → Run LinkedList
unfolding node_init set_next set_prev
list_lpush ls value = do
  let new_node = some ls.fresh
  let made = node_init ls value
  linked ←
      if ltb 0 ls.len
      then (do
        a ← set_next made new_node ls.head
        b ← set_prev a ls.head new_node
        ok (record b { head = new_node }))
      else ok (record made { head = new_node; tail = new_node })
  len ← int (ls.len + 1)
  ok (record linked { len = len })

unfoldable pub list_rpush : LinkedList → Str → Run LinkedList
unfolding node_init set_next set_prev
list_rpush ls value = do
  let new_node = some ls.fresh
  let made = node_init ls value
  linked ←
      if ltb 0 ls.len
      then (do
        a ← set_prev made new_node ls.tail
        b ← set_next a ls.tail new_node
        ok (record b { tail = new_node }))
      else ok (record made { head = new_node; tail = new_node })
  len ← int (ls.len + 1)
  ok (record linked { len = len })

-- The node that is handed out keeps its place in the heap.
unfoldable pub list_lpop : LinkedList → Run (LinkedList × Option ℕ)
unfolding load set_next set_prev
list_lpop ls = if leb ls.len 0 then ok (ls, none) else do
  let popped = ls.head
  cut ←
      if ltb 0 (ls.len - 1)
      then (do
        (_, n) ← load ls popped
        a ← set_prev ls n.next none
        ok (record a { head = n.next }))
      else ok (record ls { head = none; tail = none })
  b ← set_next (record cut { len = ls.len - 1 }) popped none
  c ← set_prev b popped none
  ok (c, popped)

unfoldable pub list_rpop : LinkedList → Run (LinkedList × Option ℕ)
unfolding load set_next set_prev
list_rpop ls = if leb ls.len 0 then ok (ls, none) else do
  let popped = ls.tail
  cut ←
      if ltb 0 (ls.len - 1)
      then (do
        (_, n) ← load ls popped
        a ← set_next ls n.prev none
        ok (record a { tail = n.prev }))
      else ok (record ls { head = none; tail = none })
  b ← set_next (record cut { len = ls.len - 1 }) popped none
  c ← set_prev b popped none
  ok (c, popped)

-- `while (i++ < id && cur != NULL) cur = cur->next;` with `id - i` rounds left
pub walk : ℕ → LinkedList → Option ℕ → Run (Option ℕ)
unfolding load
walk zero ls cur = ok cur
walk (suc rounds) ls none = ok none
walk (suc rounds) ls (some p) = do (_, n) ← load ls (some p); walk rounds ls n.next

unfoldable pub list_index : LinkedList → ℤ → Run (Option ℕ)
unfolding walk
list_index ls id = walk (pos_part id) ls ls.head

unfoldable pub list_set : LinkedList → ℤ → Str → Run (LinkedList × Bool)
unfolding walk set_value
list_set ls id value = do
  cur ← walk (pos_part id) ls ls.head
  elim cur [
    | none ↦ ok (ls, false)
    | some p ↦ set_value ls (some p) value >>= λ ls'. ok (ls', true)
  ]

-- `negsuc 0` is -1. The loops from here on run on fuel, and are given `len + 1` rounds.
pub pos_loop : ℕ → LinkedList → Option ℕ → ℕ → Str → Run ℤ
unfolding load
pos_loop zero ls cur i value = fault Fault.out_of_fuel
pos_loop (suc fuel) ls none i value = ok (negsuc 0)
pos_loop (suc fuel) ls (some p) i value = do
  (_, n) ← load ls (some p)
  let rest = pos_loop fuel ls n.next (i + 1) value
  if str_eq n.value value then ok (pos i) else rest

unfoldable pub list_pos : LinkedList → Str → Run ℤ
unfolding pos_loop
list_pos ls value = pos_loop (ls.len + 1) ls ls.head 0 value
