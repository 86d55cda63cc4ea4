-- ===== src/Release/Shutdown.antt =====
-- `htable_free` of src/htable.c on the server's table: what each object owns.
use hyperkv.Base.{some, none, List, [], ◌∷◌, ◌++◌, ◌≡◌, refl, Run, ok, Returns, Str}
use hyperkv.HTable.Sound.{IsSound}
use hyperkv.List.Seq.{IsSeq}
use hyperkv.Release.{
  Block, string_block, item_block, list_free, set_free, item_free, fields_free, htable_free,
}
use hyperkv.Release.Lists.{list_blocks, list_free-IsSeq}
use hyperkv.Release.Slots.{TableOwns, free_table-own}
use hyperkv.Set.{StrSet}
use hyperkv.Set.Safe.{Any}
use hyperkv.Value.{Value, str_t, hash_t, list_t, set_t, FieldTable, Store}
use hyperkv.Value.Safe.{IsText, IsWhole, IsSafeStore}

abbrev pub MemberOwns : Str → Unit {0} → List Block → Type 0
MemberOwns member _ blocks = blocks ≡ string_block member ∷ []

-- A string owns its text, a list the strings and nodes of the values that it stands for, a set its
-- members; `HashOwns` says it of a table.
abbrev pub ValueOwns :
    {H : Type 0} → (HashOwns : H → List Block → Type 0) → Value H → List Block → Type 0
ValueOwns HashOwns (str_t s) blocks = blocks ≡ string_block s ∷ []
ValueOwns HashOwns (hash_t h) blocks = HashOwns h blocks
ValueOwns HashOwns (list_t ls) blocks = (vs : List Str) × IsSeq ls vs × (blocks ≡ list_blocks vs)
ValueOwns HashOwns (set_t st) blocks = TableOwns MemberOwns st blocks

-- The key and the item of an entry come behind what its value owns.
abbrev pub EntryOwns :
    {H : Type 0} → (HashOwns : H → List Block → Type 0) → Str → Value H → List Block → Type 0
EntryOwns HashOwns key value blocks =
    (own : List Block) × ValueOwns HashOwns value own
    × (blocks ≡ own ++ string_block key ∷ item_block ∷ [])

abbrev pub FieldsOwn : FieldTable → List Block → Type 0
FieldsOwn = TableOwns (EntryOwns (λ no_table blocks. ⊥))

abbrev pub StoreOwns : Store → List Block → Type 0
StoreOwns = TableOwns (EntryOwns FieldsOwn)

set_free-own : (st : StrSet) → IsSound Any st → Returns (set_free st) (TableOwns MemberOwns st)
unfolding set_free
set_free-own st sound =
    free_table-own _ MemberOwns Any (λ member _ _. (string_block member ∷ [], refl, refl)) st
      sound.width sound.kept

module _ {H : Type 0} (free_hash : H → Run (List Block)) (HashOwns : H → List Block → Type 0) where
  entry_step :
      (key : Str) (value : Value H) (own : List Block)
      → elim (some value) [
        | none ↦ ok []
        | some (str_t s) ↦ ok (string_block s ∷ [])
        | some (hash_t h) ↦ free_hash h
        | some (list_t ls) ↦ list_free ls
        | some (set_t st) ↦ set_free st
      ]
        ≡ ok own
      → ValueOwns HashOwns value own
      → Returns (item_free free_hash key (some value)) (EntryOwns HashOwns key value)
  unfolding item_free
  entry_step key value own run owns =
      (own ++ string_block key ∷ item_block ∷ [], rw run refl, (own, owns, refl))

field_free-own :
    (key : Str) (value : Value ⊥)
    → IsText value
    → Returns
        (item_free (λ no_table. absurd no_table) key (some value))
        (EntryOwns (λ no_table blocks. ⊥) key value)
field_free-own key (str_t s) whole =
    entry_step (λ no_table. absurd no_table) (λ no_table blocks. ⊥) key (str_t s)
      (string_block s ∷ []) refl refl
field_free-own key (hash_t no_table) whole = absurd no_table
field_free-own key (list_t ls) whole = absurd whole
field_free-own key (set_t st) whole = absurd whole

fields_free-own : (h : FieldTable) → IsSound IsText h → Returns (fields_free h) (FieldsOwn h)
unfolding fields_free
fields_free-own h sound = free_table-own _ _ IsText field_free-own h sound.width sound.kept

item_free-own :
    (key : Str) (value : Value FieldTable)
    → IsWhole value
    → Returns (item_free fields_free key (some value)) (EntryOwns FieldsOwn key value)
item_free-own key (str_t s) whole =
    entry_step fields_free FieldsOwn key (str_t s) (string_block s ∷ []) refl refl
item_free-own key (hash_t h) sound =
    let (own, run, owns) = fields_free-own h sound in
    entry_step fields_free FieldsOwn key (hash_t h) own run owns
item_free-own key (list_t ls) (vs, seq) =
    entry_step fields_free FieldsOwn key (list_t ls) (list_blocks vs) (list_free-IsSeq ls vs seq)
      (vs, seq, refl)
item_free-own key (set_t st) sound =
    let (own, run, owns) = set_free-own st sound in
    entry_step fields_free FieldsOwn key (set_t st) own run owns

-- `htable_free` of a sound table ends without a fault, and what it frees is what the table owns:
-- slot by slot, the value's blocks by its type, the key and the item, and at the end the array and the
-- table. A list that it frees stands for the values whose strings and nodes go.
pub htable_free-own : (ht : Store) → IsSafeStore ht → Returns (htable_free ht) (StoreOwns ht)
unfolding htable_free
htable_free-own ht sound = free_table-own _ _ IsWhole item_free-own ht sound.width sound.kept
