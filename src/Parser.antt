-- ===== src/Parser.antt =====
-- The commands of src/common.h, and the parser of src/parser.c that makes them of a message.
pub mod Tokens
pub mod Total
pub mod Parse
pub mod Words
pub mod Taken
pub mod Spelled
pub mod Named
use Prim.Native.String.{String}
use hyperkv.Base.{
  ℕ, zero, suc, ◌+◌, ◌-◌, Bool, true, false, List, [], ◌∷◌, Option, none, some, Run, ok, fault,
  Fault, ◌>>=◌, Str, codes, str_eq, length, if◌then◌else◌,
}
use Tokens.{Parser, parser_init, get_next_token}

pub data CommandType : Type 0 where
  del exists type set get mset mget incr : CommandType
  decr incrby decrby strlen hset hget hdel hgetall : CommandType
  hexists hkeys hvals hmget hlen lpush lpop rpush : CommandType
  rpop llen lindex lrange lset lrem lpos sadd : CommandType
  srem sismember smembers smismember quit shutdown unknown noop : CommandType

-- `argc` is the length of `argv`.
pub record Command : Type 0 where
  pub type : CommandType
  pub argv : List Str

-- `get_argc`, before it takes 1 off for the command: the tokens that are left.
count_loop : ℕ → Parser → ℕ → Run ℕ
count_loop zero parser argc = fault Fault.out_of_fuel
count_loop (suc fuel) parser argc = do
  (parser', token) ← get_next_token parser
  elim token [ none ↦ ok argc | some _ ↦ count_loop fuel parser' (argc + 1) ]

unfoldable pub get_argc : Parser → Run ℕ
unfolding count_loop
get_argc parser = count_loop (length parser.string + 1) (parser_init parser.string) 0

-- The commands in the order of the tests.
abbrev command_names : List (String × CommandType)
command_names =
    ("del", CommandType.del)
    ∷ ("exists", CommandType.exists)
    ∷ ("type", CommandType.type)
    ∷ ("set", CommandType.set)
    ∷ ("get", CommandType.get)
    ∷ ("mset", CommandType.mset)
    ∷ ("mget", CommandType.mget)
    ∷ ("incr", CommandType.incr)
    ∷ ("decr", CommandType.decr)
    ∷ ("incrby", CommandType.incrby)
    ∷ ("decrby", CommandType.decrby)
    ∷ ("strlen", CommandType.strlen)
    ∷ ("hset", CommandType.hset)
    ∷ ("hget", CommandType.hget)
    ∷ ("hdel", CommandType.hdel)
    ∷ ("hgetall", CommandType.hgetall)
    ∷ ("hexists", CommandType.hexists)
    ∷ ("hkeys", CommandType.hkeys)
    ∷ ("hvals", CommandType.hvals)
    ∷ ("hmget", CommandType.hmget)
    ∷ ("hlen", CommandType.hlen)
    ∷ ("lpush", CommandType.lpush)
    ∷ ("lpop", CommandType.lpop)
    ∷ ("rpush", CommandType.rpush)
    ∷ ("llen", CommandType.llen)
    ∷ ("lindex", CommandType.lindex)
    ∷ ("lrange", CommandType.lrange)
    ∷ ("lset", CommandType.lset)
    ∷ ("lrem", CommandType.lrem)
    ∷ ("lpos", CommandType.lpos)
    ∷ ("rpop", CommandType.rpop)
    ∷ ("sadd", CommandType.sadd)
    ∷ ("srem", CommandType.srem)
    ∷ ("sismember", CommandType.sismember)
    ∷ ("smembers", CommandType.smembers)
    ∷ ("smismember", CommandType.smismember)
    ∷ ("quit", CommandType.quit)
    ∷ ("shutdown", CommandType.shutdown)
    ∷ []

name_loop : Str → List (String × CommandType) → CommandType
name_loop token [] = CommandType.unknown
name_loop token ((name, named) ∷ rest) =
    if str_eq token (codes name) then named else name_loop token rest

unfoldable pub command_type : Str → CommandType
unfolding name_loop
command_type token = name_loop token command_names

-- `strlen(token)` is called with no test for NULL.
arg_loop : ℕ → Parser → Run (List Str)
arg_loop zero parser = ok []
arg_loop (suc argc) parser = do
  (parser', token) ← get_next_token parser
  elim token [
    | none ↦ fault Fault.null_pointer
    | some arg ↦ arg_loop argc parser' >>= λ args. ok (arg ∷ args)
  ]

-- `get_argc` counts from the start of the message; with no token at all there is no command.
unfoldable pub parse : Str → Run Command
unfolding arg_loop
parse msg = do
  (parser, token) ← get_next_token (parser_init msg)
  tokens ← get_argc parser
  elim token [
    | none ↦ ok (record { type = CommandType.noop; argv = [] })
    | some name ↦ do
      args ← arg_loop (tokens - 1) parser
      ok (record { type = command_type name; argv = args })
  ]
