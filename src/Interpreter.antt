-- ===== src/Interpreter.antt =====
-- The dispatch of src/interpreter.c, the ends of a list as commands, and the commands that leave the
-- table alone.
pub mod Safe
pub mod Dispatch
pub mod Refusal
use hyperkv.Base.{ℕ, List, [], ◌∷◌, ◌++◌, ok, ◌>>=◌, Str, codes, at}
use hyperkv.Commands.{Result}
use hyperkv.Commands.Hashes.{
  exec_hset, exec_hget, exec_hdel, exec_hgetall, exec_hexists, exec_hkeys, exec_hvals, exec_hmget,
  exec_hlen,
}
use hyperkv.Commands.Keys.{exec_del, exec_exists, exec_type}
use hyperkv.Commands.Lists.{
  exec_push, exec_pop, exec_llen, exec_lindex, exec_lrange, exec_lset, exec_lrem, exec_lpos,
}
use hyperkv.Commands.Numbers.{exec_incr, exec_decr, exec_incrby, exec_decrby}
use hyperkv.Commands.Sets.{exec_sadd, exec_srem, exec_sismember, exec_smembers, exec_smismember}
use hyperkv.Commands.Strings.{exec_set, exec_get, exec_mset, exec_mget, exec_strlen}
use hyperkv.Objects.Lists.{ListDirection}
use hyperkv.Parser.{CommandType, Command}
use hyperkv.Reply.{crlf}
use hyperkv.Value.{Store}

abbrev pub Handler : Type 0
Handler = Store → List Str → Result

unfoldable pub exec_unknown : Handler
exec_unknown ht argv = ok (ht, codes "-ERR unrecognized command" ++ crlf)

unfoldable pub exec_quit : Handler
exec_quit ht argv = ok (ht, codes "q")

unfoldable pub exec_shutdown : Handler
exec_shutdown ht argv = ok (ht, codes "x")

unfoldable pub exec_noop : Handler
exec_noop ht argv = ok (ht, [])

unfoldable pub exec_lpush : Handler
exec_lpush ht argv = exec_push ht argv ListDirection.left

unfoldable pub exec_rpush : Handler
exec_rpush ht argv = exec_push ht argv ListDirection.right

unfoldable pub exec_lpop : Handler
exec_lpop ht argv = exec_pop ht argv ListDirection.left

unfoldable pub exec_rpop : Handler
exec_rpop ht argv = exec_pop ht argv ListDirection.right

-- The number of an enumerator.
unfoldable pub code_of : CommandType → ℕ
code_of CommandType.del = 0
code_of CommandType.exists = 1
code_of CommandType.type = 2
code_of CommandType.set = 3
code_of CommandType.get = 4
code_of CommandType.mset = 5
code_of CommandType.mget = 6
code_of CommandType.incr = 7
code_of CommandType.decr = 8
code_of CommandType.incrby = 9
code_of CommandType.decrby = 10
code_of CommandType.strlen = 11
code_of CommandType.hset = 12
code_of CommandType.hget = 13
code_of CommandType.hdel = 14
code_of CommandType.hgetall = 15
code_of CommandType.hexists = 16
code_of CommandType.hkeys = 17
code_of CommandType.hvals = 18
code_of CommandType.hmget = 19
code_of CommandType.hlen = 20
code_of CommandType.lpush = 21
code_of CommandType.lpop = 22
code_of CommandType.rpush = 23
code_of CommandType.rpop = 24
code_of CommandType.llen = 25
code_of CommandType.lindex = 26
code_of CommandType.lrange = 27
code_of CommandType.lset = 28
code_of CommandType.lrem = 29
code_of CommandType.lpos = 30
code_of CommandType.sadd = 31
code_of CommandType.srem = 32
code_of CommandType.sismember = 33
code_of CommandType.smembers = 34
code_of CommandType.smismember = 35
code_of CommandType.quit = 36
code_of CommandType.shutdown = 37
code_of CommandType.unknown = 38
code_of CommandType.noop = 39

unfoldable pub fns : List Handler
fns =
    exec_del ∷ exec_exists ∷ exec_type ∷ exec_set ∷ exec_get ∷ exec_mset ∷ exec_mget ∷ exec_incr
    ∷ exec_decr ∷ exec_incrby ∷ exec_decrby ∷ exec_strlen ∷ exec_hset ∷ exec_hget ∷ exec_hdel
    ∷ exec_hgetall ∷ exec_hexists ∷ exec_hkeys ∷ exec_hvals ∷ exec_hmget ∷ exec_hlen ∷ exec_lpush
    ∷ exec_lpop ∷ exec_rpush ∷ exec_rpop ∷ exec_llen ∷ exec_lindex ∷ exec_lrange ∷ exec_lset
    ∷ exec_lrem ∷ exec_lpos ∷ exec_sadd ∷ exec_srem ∷ exec_sismember ∷ exec_smembers
    ∷ exec_smismember ∷ exec_quit ∷ exec_shutdown ∷ exec_unknown ∷ exec_noop ∷ []

-- `fns[cmd->type](ht, cmd)`
unfoldable pub interpret : Store → Command → Result
unfolding code_of fns
interpret ht cmd = do fn ← at fns (code_of cmd.type); fn ht cmd.argv
