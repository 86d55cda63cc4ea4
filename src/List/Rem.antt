-- ===== src/List/Rem.antt =====
-- `list_rem` and `list_range` of src/list.c.
use hyperkv.Base.{
  ℕ, zero, suc, ◌+◌, ◌-◌, ℤ, pos, ◌+ℤ◌, ◌-ℤ◌, is_zero, leb_ℤ, true, false, not, ◌&&◌, List, [], ◌∷◌,
  Option, none, some, Run, ok, fault, Fault, ◌>>=◌, Str, str_eq, ◌==◌, if◌then◌else◌,
}
use hyperkv.List.{LinkedList, same_ptr, load, set_next, set_prev, node_free}

-- The node stays in the heap, and keeps its own pointers.
unfoldable pub node_del : LinkedList → Option ℕ → Run LinkedList
node_del ls nd =
    if same_ptr ls.head none
    then ok ls
    else if ls.len == 1
    then ok (record ls { head = none; tail = none })
    else if same_ptr nd ls.head
    then (do (_, n) ← load ls nd; a ← set_prev ls n.next none; ok (record a { head = n.next }))
    else if same_ptr nd ls.tail
    then (do (_, n) ← load ls nd; a ← set_next ls n.prev none; ok (record a { tail = n.prev }))
    else (do
      (_, n) ← load ls nd
      a ← set_next ls n.prev n.next
      (_, m) ← load a nd
      set_prev a m.next m.prev)

-- The loop's `pos` is `start`, which keeps the sign of the first `count`.
unfoldable pub rem_loop :
    ℕ → LinkedList → (start count : ℤ) → ℕ → Option ℕ → Str → Run (LinkedList × ℕ)
unfolding node_del
rem_loop zero ls start count i cur value = fault Fault.out_of_fuel
rem_loop (suc fuel) ls start count i none value = ok (ls, i)
rem_loop (suc fuel) ls start count i (some p) value =
    let forward = leb_ℤ (pos 0) start in
    elim (not (is_zero start) && is_zero count) [
      | true ↦ ok (ls, i)
      | false ↦ do
        (_, n) ← load ls (some p)
        elim (str_eq n.value value) [
          | true ↦ do
            a ← node_del ls (some p)
            let cut = record a { len = a.len - 1 }
            (_, m) ← load cut (some p)
            freed ← node_free cut (some p)
            rem_loop fuel freed start (if forward then count -ℤ pos 1 else count +ℤ pos 1) (i + 1)
                (if forward then m.next else m.prev) value
          | false ↦ rem_loop fuel ls start count i (if forward then n.next else n.prev) value
        ]
    ]

unfoldable pub list_rem : LinkedList → ℤ → Str → Run (LinkedList × ℕ)
unfolding rem_loop
list_rem ls count value =
    rem_loop (ls.len + 1) ls count count 0 (if leb_ℤ (pos 0) count then ls.head else ls.tail) value

-- `while (id < begin)`: the node is read with no test for NULL.
unfoldable pub skip : ℕ → LinkedList → Option ℕ → Run (Option ℕ)
skip zero ls cur = ok cur
skip (suc rounds) ls cur = do (_, n) ← load ls cur; skip rounds ls n.next

-- `while (id <= end)`
unfoldable pub collect : ℕ → LinkedList → Option ℕ → Run (List Str)
collect zero ls cur = ok []
collect (suc rounds) ls cur = do
  (_, n) ← load ls cur
  rest ← collect rounds ls n.next
  ok (n.value ∷ rest)

-- Its caller has checked that `0 <= begin <= end`.
unfoldable pub list_range : LinkedList → (begin end : ℕ) → Run (List Str)
unfolding skip collect
list_range ls begin end = do cur ← skip begin ls ls.head; collect (end + 1 - begin) ls cur
