-- ===== src/Interpreter/Refusal.antt =====
-- The type that a key has, and what a command on another type makes of it.
use Prim.Native.String.{String}
use hyperkv.Base.{
  ◌≤◌, Bool, true, false, List, [], ◌∷◌, Option, none, some, ◌≡◌, ◌≢◌, refl, str_eq, ◌⊎◌, inl, inr,
  ok, Str, codes, length, ap, ◌∙◌, if◌then◌else◌,
}
use hyperkv.Commands.{Result, with_type, wrong_argc}
use hyperkv.Commands.Hashes.{
  exec_hset, exec_hget, exec_hdel, exec_hgetall, exec_hexists, exec_hkeyvals, exec_hkeys,
  exec_hvals, exec_hmget, exec_hlen,
}
use hyperkv.Commands.Lists.{
  exec_push, exec_pop, exec_llen, exec_lindex, exec_lrange, exec_lset, exec_lrem, exec_lpos,
}
use hyperkv.Commands.Numbers.{exec_incr, exec_decr, exec_incrby, exec_decrby}
use hyperkv.Commands.Sets.{exec_sadd, exec_srem, exec_sismember, exec_smembers, exec_smismember}
use hyperkv.Commands.Strings.{exec_get, exec_mget, exec_strlen}
use hyperkv.Commands.Typed.{with_type-view}
use hyperkv.Helper.Hash.{max_size}
use hyperkv.HTable.Valid.{IsValid}
use hyperkv.Interpreter.{exec_lpush, exec_rpush, exec_lpop, exec_rpop, interpret}
use hyperkv.Interpreter.Dispatch.{handler, interpret-handler}
use hyperkv.Objects.{type_name}
use hyperkv.Parser.{CommandType, Command}
use hyperkv.Reply.{is_type, reply_err_type, reply_err_argc}
use hyperkv.Slots.View.{view}
use hyperkv.Value.{Store, Value, FieldTable, str_t, hash_t, list_t, set_t}

-- The types of a key.
pub data Kind : Type 0 where
  string : Kind
  hash : Kind
  list : Kind
  set : Kind

abbrev pub kind_of : Value FieldTable → Kind
kind_of (str_t s) = Kind.string
kind_of (hash_t h) = Kind.hash
kind_of (list_t l) = Kind.list
kind_of (set_t st) = Kind.set

abbrev name_of : Kind → String
name_of Kind.string = "string"
name_of Kind.hash = "hash"
name_of Kind.list = "list"
name_of Kind.set = "set"

-- The test of the source tells every two types apart.
is_type-other :
    (kind : Kind) (v : Value FieldTable)
    → kind_of v ≢ kind
    → is_type (type_name v) (codes (name_of kind)) ≡ false
unfolding is_type str_eq
is_type-other Kind.string (str_t s) other = absurd (other refl)
is_type-other Kind.string (hash_t h) other = refl
is_type-other Kind.string (list_t l) other = refl
is_type-other Kind.string (set_t st) other = refl
is_type-other Kind.hash (str_t s) other = refl
is_type-other Kind.hash (hash_t h) other = absurd (other refl)
is_type-other Kind.hash (list_t l) other = refl
is_type-other Kind.hash (set_t st) other = refl
is_type-other Kind.list (str_t s) other = refl
is_type-other Kind.list (hash_t h) other = refl
is_type-other Kind.list (list_t l) other = absurd (other refl)
is_type-other Kind.list (set_t st) other = refl
is_type-other Kind.set (str_t s) other = refl
is_type-other Kind.set (hash_t h) other = refl
is_type-other Kind.set (list_t l) other = refl
is_type-other Kind.set (set_t st) other = absurd (other refl)

-- The type of the keys that a command works on, where it works on one.
abbrev pub tested : CommandType → Option Kind
tested CommandType.get = some Kind.string
tested CommandType.mget = some Kind.string
tested CommandType.incr = some Kind.string
tested CommandType.decr = some Kind.string
tested CommandType.incrby = some Kind.string
tested CommandType.decrby = some Kind.string
tested CommandType.strlen = some Kind.string
tested CommandType.hset = some Kind.hash
tested CommandType.hget = some Kind.hash
tested CommandType.hdel = some Kind.hash
tested CommandType.hgetall = some Kind.hash
tested CommandType.hexists = some Kind.hash
tested CommandType.hkeys = some Kind.hash
tested CommandType.hvals = some Kind.hash
tested CommandType.hmget = some Kind.hash
tested CommandType.hlen = some Kind.hash
tested CommandType.lpush = some Kind.list
tested CommandType.lpop = some Kind.list
tested CommandType.rpush = some Kind.list
tested CommandType.rpop = some Kind.list
tested CommandType.llen = some Kind.list
tested CommandType.lindex = some Kind.list
tested CommandType.lrange = some Kind.list
tested CommandType.lset = some Kind.list
tested CommandType.lrem = some Kind.list
tested CommandType.lpos = some Kind.list
tested CommandType.sadd = some Kind.set
tested CommandType.srem = some Kind.set
tested CommandType.sismember = some Kind.set
tested CommandType.smembers = some Kind.set
tested CommandType.smismember = some Kind.set
tested _ = none

abbrev pub IsOther : Option Kind → Value FieldTable → Type 0
IsOther none v = ⊥
IsOther (some kind) v = kind_of v ≢ kind

-- A refusal: the table stays as it is, and the reply is an error.
abbrev pub Refuses : Store → List Str → Result → Type 0
Refuses ht argv run =
    (reply : Str) × (run ≡ ok (ht, reply))
    × ((reply ≡ reply_err_type)
        ⊎ ((expected : Str) × (reply ≡ reply_err_argc (length argv) expected)))

module _ (ht : Store) (valid : IsValid ht) (small : ht.size ≤ max_size) (key : Str)
    (v : Value FieldTable) (held : view ht.items key ≡ some v) where
  type_error :
      (argv : List Str) (kind : Kind) (body : Result)
      → kind_of v ≢ kind
      → Refuses ht argv (with_type ht key (name_of kind) body)
  type_error argv kind body other = (
    reply_err_type,
    with_type-view ht valid small key (name_of kind) body
        ∙ rw (held, is_type-other kind v other) refl,
    inl refl,
  )

  argc_error : (argv : List Str) (expected : String) → Refuses ht argv (wrong_argc ht argv expected)
  unfolding wrong_argc
  argc_error argv expected =
      (reply_err_argc (length argv) (codes expected), refl, inr (codes expected, refl))

  Refuses-if :
      (argv : List Str) {x y : Result} (b : Bool)
      → Refuses ht argv x
      → Refuses ht argv y
      → Refuses ht argv (if b then x else y)
  Refuses-if argv true first second = first
  Refuses-if argv false first second = second

  refuses :
      (kind : CommandType) (argv : List Str)
      → IsOther (tested kind) v
      → Refuses ht (key ∷ argv) (handler kind ht (key ∷ argv))
  unfolding exec_get exec_mget exec_incr exec_decr exec_incrby exec_decrby exec_strlen exec_hset
      exec_hget exec_hdel exec_hgetall exec_hexists exec_hkeys exec_hvals exec_hmget exec_hlen
      exec_llen exec_lindex exec_lrange exec_lset exec_lrem exec_lpos exec_sadd exec_srem
      exec_sismember exec_smembers exec_smismember exec_hkeyvals exec_push exec_pop exec_lpush
      exec_rpush exec_lpop exec_rpop
  refuses CommandType.get [] other = type_error (key ∷ []) Kind.string _ other
  refuses CommandType.get (a ∷ argv) other = argc_error (key ∷ a ∷ argv) "1"
  refuses CommandType.mget argv other = type_error (key ∷ argv) Kind.string _ other
  refuses CommandType.incr [] other = type_error (key ∷ []) Kind.string _ other
  refuses CommandType.incr (a ∷ argv) other = argc_error (key ∷ a ∷ argv) "1"
  refuses CommandType.decr [] other = type_error (key ∷ []) Kind.string _ other
  refuses CommandType.decr (a ∷ argv) other = argc_error (key ∷ a ∷ argv) "1"
  refuses CommandType.incrby [] other = argc_error (key ∷ []) "2"
  refuses CommandType.incrby (a ∷ []) other = type_error (key ∷ a ∷ []) Kind.string _ other
  refuses CommandType.incrby (a ∷ b ∷ argv) other = argc_error (key ∷ a ∷ b ∷ argv) "2"
  refuses CommandType.decrby [] other = argc_error (key ∷ []) "2"
  refuses CommandType.decrby (a ∷ []) other = type_error (key ∷ a ∷ []) Kind.string _ other
  refuses CommandType.decrby (a ∷ b ∷ argv) other = argc_error (key ∷ a ∷ b ∷ argv) "2"
  refuses CommandType.strlen [] other = type_error (key ∷ []) Kind.string _ other
  refuses CommandType.strlen (a ∷ argv) other = argc_error (key ∷ a ∷ argv) "1"
  refuses CommandType.hset argv other =
      Refuses-if (key ∷ argv) _ (type_error (key ∷ argv) Kind.hash _ other)
        (argc_error (key ∷ argv) "3+")
  refuses CommandType.hget [] other = argc_error (key ∷ []) "2"
  refuses CommandType.hget (a ∷ []) other = type_error (key ∷ a ∷ []) Kind.hash _ other
  refuses CommandType.hget (a ∷ b ∷ argv) other = argc_error (key ∷ a ∷ b ∷ argv) "2"
  refuses CommandType.hdel [] other = argc_error (key ∷ []) "2+"
  refuses CommandType.hdel (a ∷ argv) other = type_error (key ∷ a ∷ argv) Kind.hash _ other
  refuses CommandType.hgetall [] other = type_error (key ∷ []) Kind.hash _ other
  refuses CommandType.hgetall (a ∷ argv) other = argc_error (key ∷ a ∷ argv) "1"
  refuses CommandType.hexists [] other = argc_error (key ∷ []) "2"
  refuses CommandType.hexists (a ∷ []) other = type_error (key ∷ a ∷ []) Kind.hash _ other
  refuses CommandType.hexists (a ∷ b ∷ argv) other = argc_error (key ∷ a ∷ b ∷ argv) "2"
  refuses CommandType.hkeys [] other = type_error (key ∷ []) Kind.hash _ other
  refuses CommandType.hkeys (a ∷ argv) other = argc_error (key ∷ a ∷ argv) "1"
  refuses CommandType.hvals [] other = type_error (key ∷ []) Kind.hash _ other
  refuses CommandType.hvals (a ∷ argv) other = argc_error (key ∷ a ∷ argv) "1"
  refuses CommandType.hmget [] other = argc_error (key ∷ []) "2+"
  refuses CommandType.hmget (a ∷ argv) other = type_error (key ∷ a ∷ argv) Kind.hash _ other
  refuses CommandType.hlen [] other = type_error (key ∷ []) Kind.hash _ other
  refuses CommandType.hlen (a ∷ argv) other = argc_error (key ∷ a ∷ argv) "1"
  refuses CommandType.lpush [] other = argc_error (key ∷ []) "2+"
  refuses CommandType.lpush (a ∷ argv) other = type_error (key ∷ a ∷ argv) Kind.list _ other
  refuses CommandType.lpop [] other = type_error (key ∷ []) Kind.list _ other
  refuses CommandType.lpop (a ∷ argv) other = argc_error (key ∷ a ∷ argv) "1"
  refuses CommandType.rpush [] other = argc_error (key ∷ []) "2+"
  refuses CommandType.rpush (a ∷ argv) other = type_error (key ∷ a ∷ argv) Kind.list _ other
  refuses CommandType.rpop [] other = type_error (key ∷ []) Kind.list _ other
  refuses CommandType.rpop (a ∷ argv) other = argc_error (key ∷ a ∷ argv) "1"
  refuses CommandType.llen [] other = type_error (key ∷ []) Kind.list _ other
  refuses CommandType.llen (a ∷ argv) other = argc_error (key ∷ a ∷ argv) "1"
  refuses CommandType.lindex [] other = argc_error (key ∷ []) "2"
  refuses CommandType.lindex (a ∷ []) other = type_error (key ∷ a ∷ []) Kind.list _ other
  refuses CommandType.lindex (a ∷ b ∷ argv) other = argc_error (key ∷ a ∷ b ∷ argv) "2"
  refuses CommandType.lrange [] other = argc_error (key ∷ []) "3"
  refuses CommandType.lrange (a ∷ []) other = argc_error (key ∷ a ∷ []) "3"
  refuses CommandType.lrange (a ∷ b ∷ []) other = type_error (key ∷ a ∷ b ∷ []) Kind.list _ other
  refuses CommandType.lrange (a ∷ b ∷ d ∷ argv) other = argc_error (key ∷ a ∷ b ∷ d ∷ argv) "3"
  refuses CommandType.lset [] other = argc_error (key ∷ []) "3"
  refuses CommandType.lset (a ∷ []) other = argc_error (key ∷ a ∷ []) "3"
  refuses CommandType.lset (a ∷ b ∷ []) other = type_error (key ∷ a ∷ b ∷ []) Kind.list _ other
  refuses CommandType.lset (a ∷ b ∷ d ∷ argv) other = argc_error (key ∷ a ∷ b ∷ d ∷ argv) "3"
  refuses CommandType.lrem [] other = argc_error (key ∷ []) "3"
  refuses CommandType.lrem (a ∷ []) other = argc_error (key ∷ a ∷ []) "3"
  refuses CommandType.lrem (a ∷ b ∷ []) other = type_error (key ∷ a ∷ b ∷ []) Kind.list _ other
  refuses CommandType.lrem (a ∷ b ∷ d ∷ argv) other = argc_error (key ∷ a ∷ b ∷ d ∷ argv) "3"
  refuses CommandType.lpos [] other = argc_error (key ∷ []) "2"
  refuses CommandType.lpos (a ∷ []) other = type_error (key ∷ a ∷ []) Kind.list _ other
  refuses CommandType.lpos (a ∷ b ∷ argv) other = argc_error (key ∷ a ∷ b ∷ argv) "2"
  refuses CommandType.sadd [] other = argc_error (key ∷ []) "2+"
  refuses CommandType.sadd (a ∷ argv) other = type_error (key ∷ a ∷ argv) Kind.set _ other
  refuses CommandType.srem [] other = argc_error (key ∷ []) "2+"
  refuses CommandType.srem (a ∷ argv) other = type_error (key ∷ a ∷ argv) Kind.set _ other
  refuses CommandType.sismember [] other = argc_error (key ∷ []) "2"
  refuses CommandType.sismember (a ∷ []) other = type_error (key ∷ a ∷ []) Kind.set _ other
  refuses CommandType.sismember (a ∷ b ∷ argv) other = argc_error (key ∷ a ∷ b ∷ argv) "2"
  refuses CommandType.smembers [] other = type_error (key ∷ []) Kind.set _ other
  refuses CommandType.smembers (a ∷ argv) other = argc_error (key ∷ a ∷ argv) "1"
  refuses CommandType.smismember [] other = argc_error (key ∷ []) "2+"
  refuses CommandType.smismember (a ∷ argv) other = type_error (key ∷ a ∷ argv) Kind.set _ other
  refuses CommandType.del argv other = absurd other
  refuses CommandType.exists argv other = absurd other
  refuses CommandType.type argv other = absurd other
  refuses CommandType.set argv other = absurd other
  refuses CommandType.mset argv other = absurd other
  refuses CommandType.quit argv other = absurd other
  refuses CommandType.shutdown argv other = absurd other
  refuses CommandType.unknown argv other = absurd other
  refuses CommandType.noop argv other = absurd other

  -- On a valid table of at most `max_size` slots, where a key holds a value, every command on keys of
  -- another of the four types (each of the commands on strings but set and mset, and all on hashes, lists and sets)
  -- refuses the key, whatever arguments follow it: it leaves the table as it is and replies that the
  -- type is wrong, or that the number of arguments is.
  pub interpret-Refuses :
      (cmd : Command) (argv : List Str)
      → IsOther (tested cmd.type) v
      → cmd.argv ≡ key ∷ argv
      → Refuses ht (key ∷ argv) (interpret ht cmd)
  interpret-Refuses cmd argv other e =
      let (reply, run, kind) = refuses cmd.type argv other in
      (reply, interpret-handler ht cmd ∙ (ap (handler cmd.type ht) e ∙ run), kind)
