-- ===== src/Interpreter/Dispatch.antt =====
-- The command that each enumerator of src/common.h names, against the table `fns` of
-- src/interpreter.c.
use hyperkv.Base.{◌≡◌, refl, at}
use hyperkv.Commands.Hashes.{
  exec_hset, exec_hget, exec_hdel, exec_hgetall, exec_hexists, exec_hkeys, exec_hvals, exec_hmget,
  exec_hlen,
}
use hyperkv.Commands.Keys.{exec_del, exec_exists, exec_type}
use hyperkv.Commands.Lists.{exec_llen, exec_lindex, exec_lrange, exec_lset, exec_lrem, exec_lpos}
use hyperkv.Commands.Numbers.{exec_incr, exec_decr, exec_incrby, exec_decrby}
use hyperkv.Commands.Sets.{exec_sadd, exec_srem, exec_sismember, exec_smembers, exec_smismember}
use hyperkv.Commands.Strings.{exec_set, exec_get, exec_mset, exec_mget, exec_strlen}
use hyperkv.Interpreter.{
  Handler, exec_unknown, exec_quit, exec_shutdown, exec_noop, exec_lpush, exec_rpush, exec_lpop,
  exec_rpop, code_of, fns, interpret,
}
use hyperkv.Parser.{CommandType, Command}
use hyperkv.Value.{Store}

-- The function of the command that an enumerator names.
abbrev pub handler : CommandType → Handler
handler CommandType.del = exec_del
handler CommandType.exists = exec_exists
handler CommandType.type = exec_type
handler CommandType.set = exec_set
handler CommandType.get = exec_get
handler CommandType.mset = exec_mset
handler CommandType.mget = exec_mget
handler CommandType.incr = exec_incr
handler CommandType.decr = exec_decr
handler CommandType.incrby = exec_incrby
handler CommandType.decrby = exec_decrby
handler CommandType.strlen = exec_strlen
handler CommandType.hset = exec_hset
handler CommandType.hget = exec_hget
handler CommandType.hdel = exec_hdel
handler CommandType.hgetall = exec_hgetall
handler CommandType.hexists = exec_hexists
handler CommandType.hkeys = exec_hkeys
handler CommandType.hvals = exec_hvals
handler CommandType.hmget = exec_hmget
handler CommandType.hlen = exec_hlen
handler CommandType.lpush = exec_lpush
handler CommandType.lpop = exec_lpop
handler CommandType.rpush = exec_rpush
handler CommandType.rpop = exec_rpop
handler CommandType.llen = exec_llen
handler CommandType.lindex = exec_lindex
handler CommandType.lrange = exec_lrange
handler CommandType.lset = exec_lset
handler CommandType.lrem = exec_lrem
handler CommandType.lpos = exec_lpos
handler CommandType.sadd = exec_sadd
handler CommandType.srem = exec_srem
handler CommandType.sismember = exec_sismember
handler CommandType.smembers = exec_smembers
handler CommandType.smismember = exec_smismember
handler CommandType.quit = exec_quit
handler CommandType.shutdown = exec_shutdown
handler CommandType.unknown = exec_unknown
handler CommandType.noop = exec_noop

-- For every command `interpret` stays within `fns` and runs the function that the command's
-- enumerator names.
pub interpret-handler :
    (ht : Store) (cmd : Command) → interpret ht cmd ≡ handler cmd.type ht cmd.argv
unfolding interpret code_of fns at
interpret-handler ht cmd = go cmd.type
  where
    go :
        (type : CommandType)
        → interpret ht (record { type = type; argv = cmd.argv }) ≡ handler type ht cmd.argv
    go CommandType.del = refl
    go CommandType.exists = refl
    go CommandType.type = refl
    go CommandType.set = refl
    go CommandType.get = refl
    go CommandType.mset = refl
    go CommandType.mget = refl
    go CommandType.incr = refl
    go CommandType.decr = refl
    go CommandType.incrby = refl
    go CommandType.decrby = refl
    go CommandType.strlen = refl
    go CommandType.hset = refl
    go CommandType.hget = refl
    go CommandType.hdel = refl
    go CommandType.hgetall = refl
    go CommandType.hexists = refl
    go CommandType.hkeys = refl
    go CommandType.hvals = refl
    go CommandType.hmget = refl
    go CommandType.hlen = refl
    go CommandType.lpush = refl
    go CommandType.lpop = refl
    go CommandType.rpush = refl
    go CommandType.rpop = refl
    go CommandType.llen = refl
    go CommandType.lindex = refl
    go CommandType.lrange = refl
    go CommandType.lset = refl
    go CommandType.lrem = refl
    go CommandType.lpos = refl
    go CommandType.sadd = refl
    go CommandType.srem = refl
    go CommandType.sismember = refl
    go CommandType.smembers = refl
    go CommandType.smismember = refl
    go CommandType.quit = refl
    go CommandType.shutdown = refl
    go CommandType.unknown = refl
    go CommandType.noop = refl
