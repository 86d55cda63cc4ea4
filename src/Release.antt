-- ===== src/Release.antt =====
-- The release of memory: `list_free` of src/list.c, `set_free` of src/set.c, `item_free` and
-- `htable_free` of src/htable.c, and `close_server` of src/hyperkv.c.
pub mod Lists
pub mod Slots
pub mod Shutdown
pub mod Resize
use hyperkv.Base.{
  ℕ, zero, suc, ◌+◌, List, [], ◌∷◌, ◌++◌, Option, none, some, Run, ok, ◌>>=◌, Str, at,
}
use hyperkv.HTable.{HashTable}
use hyperkv.List.{LinkedList, load, node_free}
use hyperkv.Parser.{Command}
use hyperkv.Parser.Tokens.{Parser}
use hyperkv.Set.{StrSet}
use hyperkv.Slots.{Slot, empty, deleted, item}
use hyperkv.Value.{Value, str_t, hash_t, list_t, set_t, FieldTable, Store}

-- What `free` is given: a string with its text, a node of a list, an item of a table, the array of a
-- table or a set, or the struct of a table, a list or a set.
pub data Block : Type 0 where
  string_block : Str → Block
  node_block item_block array_block struct_block : Block

-- `while (ls->len--)`: the next node is read before the node at the cursor goes.
unfoldable pub free_nodes : ℕ → LinkedList → Option ℕ → Run (List Block)
unfolding load node_free
free_nodes zero ls cur = ok []
free_nodes (suc len) ls cur = do
  (_, n) ← load ls cur
  ls' ← node_free ls cur
  rest ← free_nodes len ls' n.next
  ok (string_block n.value ∷ node_block ∷ rest)

-- The blocks that are freed, in their order.
unfoldable pub list_free : LinkedList → Run (List Block)
unfolding free_nodes
list_free ls = do freed ← free_nodes ls.len ls ls.head; ok (freed ++ struct_block ∷ [])

module _ {V : Type 0} (free_entry : Str → V → Run (List Block)) where
  -- The loop over the slots, from `i` on.
  unfoldable pub free_slots : (rounds i : ℕ) → List (Slot V) → Run (List Block)
  free_slots zero i items = ok []
  free_slots (suc rounds) i items = do
    tmp ← at items i
    freed ← elim tmp [ empty ↦ ok [] | deleted ↦ ok [] | item k v ↦ free_entry k v ]
    rest ← free_slots rounds (i + 1) items
    ok (freed ++ rest)

  -- The loop, the array and the struct.
  unfoldable pub free_table : HashTable V → Run (List Block)
  unfolding free_slots
  free_table ht = do
    freed ← free_slots ht.size 0 ht.items
    ok (freed ++ array_block ∷ struct_block ∷ [])

unfoldable pub set_free : StrSet → Run (List Block)
unfolding free_table
set_free st = free_table (λ member _. ok (string_block member ∷ [])) st

-- `free_hash` frees a table that an item holds. A value may be NULL, which nothing is freed of.
unfoldable pub item_free :
    {H : Type 0} → (free_hash : H → Run (List Block)) → Str → Option (Value H) → Run (List Block)
unfolding list_free set_free
item_free free_hash key value = do
  freed ← elim value [
    | none ↦ ok []
    | some (str_t s) ↦ ok (string_block s ∷ [])
    | some (hash_t h) ↦ free_hash h
    | some (list_t ls) ↦ list_free ls
    | some (set_t st) ↦ set_free st
  ]
  ok (freed ++ string_block key ∷ item_block ∷ [])

-- The items of a table of fields hold no table.
unfoldable pub fields_free : FieldTable → Run (List Block)
unfolding item_free free_table
fields_free h = free_table (λ key value. item_free (λ no_table. absurd no_table) key (some value)) h

unfoldable pub htable_free : Store → Run (List Block)
unfolding item_free free_table fields_free
htable_free ht = free_table (λ key value. item_free fields_free key (some value)) ht

-- What `item_swap` leaves of an item that it has inserted into the new table.
abbrev pub swapped : {V : Type 0} → List (Slot V) → List (Slot (Option V))
swapped [] = []
swapped (empty ∷ items) = empty ∷ swapped items
swapped (deleted ∷ items) = deleted ∷ swapped items
swapped (item k v ∷ items) = item k none ∷ swapped items

-- At the end of `htable_resize` the struct of the new table takes the old array with it.
unfoldable pub resize_free : Store → Run (List Block)
unfolding item_free free_table fields_free
resize_free ht =
    free_table (item_free fields_free)
      (record { size = ht.size; used = ht.used; items = swapped ht.items })

-- `command_free` at the end of `interpret`, and `parser_free` at the end of `parse`.
string_blocks : List Str → List Block
string_blocks [] = []
string_blocks (arg ∷ argv) = string_block arg ∷ string_blocks argv

unfoldable pub command_free : Command → List Block
unfolding string_blocks
command_free cmd = string_blocks cmd.argv ++ array_block ∷ struct_block ∷ []

unfoldable pub parser_free : Parser → List Block
parser_free parser = string_block parser.string ∷ struct_block ∷ []
