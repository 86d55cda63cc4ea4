-- ===== src/Value/Safe.antt =====
-- What keeps the objects that a table holds sound.
use hyperkv.Base.{List, Str}
use hyperkv.HTable.Sound.{IsSound}
use hyperkv.List.Seq.{IsSeq}
use hyperkv.Set.Safe.{Any}
use hyperkv.Value.{Value, str_t, hash_t, list_t, set_t, FieldTable, Store}

-- A field holds a string.
abbrev pub IsText : Value ⊥ → Type 0
IsText (str_t s) = Unit
IsText _ = ⊥

-- A table of fields and a set are sound themselves, and a list stands for some values.
abbrev pub IsWhole : Value FieldTable → Type 0
IsWhole (str_t s) = Unit
IsWhole (hash_t h) = IsSound IsText h
IsWhole (list_t ls) = (vs : List Str) × IsSeq ls vs
IsWhole (set_t st) = IsSound Any st

-- The whole table of the server.
abbrev pub IsSafeStore : Store → Type 0
IsSafeStore ht = IsSound IsWhole ht
