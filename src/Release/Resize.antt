-- ===== src/Release/Resize.antt =====
-- The release of the old array at the end of `htable_resize`, in src/htable.c.
use hyperkv.Base.{List, [], ◌∷◌, Option, none, some, ◌≡◌, refl, ◌∙◌, arith, Returns, Str, length}
use hyperkv.HTable.Sound.{AllKept}
use hyperkv.Release.{Block, string_block, item_block, item_free, fields_free, swapped, resize_free}
use hyperkv.Release.Slots.{TableOwns, free_table-own}
use hyperkv.Slots.{Slot, empty, deleted, item}
use hyperkv.Value.{Value, FieldTable, Store}
use hyperkv.Value.Safe.{IsSafeStore}

-- An entry of the old array owns its key and its item, and no longer its value.
abbrev KeyOwns : Str → Option (Value FieldTable) → List Block → Type 0
KeyOwns key value blocks = blocks ≡ string_block key ∷ item_block ∷ []

abbrev IsNull : Option (Value FieldTable) → Type 0
IsNull none = Unit
IsNull (some v) = ⊥

swapped-AllKept : (items : List (Slot (Value FieldTable))) → AllKept IsNull (swapped items)
swapped-AllKept [] = tt
swapped-AllKept (empty ∷ items) = (tt, swapped-AllKept items)
swapped-AllKept (deleted ∷ items) = (tt, swapped-AllKept items)
swapped-AllKept (item k v ∷ items) = (tt, swapped-AllKept items)

length-swapped : (items : List (Slot (Value FieldTable))) → length (swapped items) ≡ length items
length-swapped [] = refl
length-swapped (empty ∷ items) = omega (arith, length-swapped items)
length-swapped (deleted ∷ items) = omega (arith, length-swapped items)
length-swapped (item k v ∷ items) = omega (arith, length-swapped items)

old_item_free-own :
    (key : Str) (value : Option (Value FieldTable))
    → IsNull value
    → Returns (item_free fields_free key value) (KeyOwns key value)
unfolding item_free
old_item_free-own key none null = (string_block key ∷ item_block ∷ [], refl, refl)
old_item_free-own key (some v) null = absurd null

-- The release of the old array at the end of a resize ends without a fault, and frees of each entry the
-- key and the item, and none of the values, which the new array holds.
resize_free-own :
    (ht : Store)
    → IsSafeStore ht
    → Returns
        (resize_free ht)
        (TableOwns KeyOwns (record { size = ht.size; used = ht.used; items = swapped ht.items }))
unfolding resize_free
resize_free-own ht sound =
    free_table-own _ KeyOwns IsNull old_item_free-own
      (record { size = ht.size; used = ht.used; items = swapped ht.items })
      (length-swapped ht.items ∙ sound.width) (swapped-AllKept ht.items)
