-- ===== src/Commands.antt =====
-- The commands of src/interpreter.c: a table and the arguments to the table and the reply.
pub mod Safe
pub mod Keys
pub mod Numbers
pub mod Strings
pub mod Hashes
pub mod Lists
pub mod Sets
pub mod Typed
use Prim.Native.String.{String}
use hyperkv.Base.{List, Run, ok, ◌>>=◌, Str, if◌then◌else◌, codes, length}
use hyperkv.Objects.{htable_type}
use hyperkv.Reply.{is_type, reply_err_type, reply_err_argc}
use hyperkv.Value.{Store}

abbrev pub Result : Type 0
Result = Run (Store × Str)

-- The test that most commands begin with: the key is free or holds the type.
unfoldable pub with_type : Store → Str → String → Result → Result
with_type ht key expected body = do
  type ← htable_type ht key
  if is_type type (codes expected) then body else ok (ht, reply_err_type)

unfoldable pub wrong_argc : Store → List Str → String → Result
wrong_argc ht argv expected = ok (ht, reply_err_argc (length argv) (codes expected))
