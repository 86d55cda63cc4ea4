-- ===== src/Interpreter/Safe.antt =====
-- Every command keeps the server's table sound, and only two end the server's loop.
use hyperkv.Base.{List, Str, codes, ◌≡◌, refl, ◌⊎◌, inl, inr, Safe, Safe-map}
use hyperkv.Commands.Hashes.Safe.{
  exec_hset-Safe, exec_hget-Safe, exec_hdel-Safe, exec_hgetall-Safe, exec_hexists-Safe,
  exec_hkeys-Safe, exec_hvals-Safe, exec_hmget-Safe, exec_hlen-Safe,
}
use hyperkv.Commands.Keys.Safe.{exec_del-Safe, exec_exists-Safe, exec_type-Safe}
use hyperkv.Commands.Lists.Safe.{
  exec_push-Safe, exec_pop-Safe, exec_llen-Safe, exec_lindex-Safe, exec_lrange-Safe, exec_lset-Safe,
  exec_lrem-Safe, exec_lpos-Safe,
}
use hyperkv.Commands.Numbers.Safe.{
  exec_incr-Safe, exec_decr-Safe, exec_incrby-Safe, exec_decrby-Safe,
}
use hyperkv.Commands.Safe.{SafeResult}
use hyperkv.Commands.Sets.Safe.{
  exec_sadd-Safe, exec_srem-Safe, exec_sismember-Safe, exec_smembers-Safe, exec_smismember-Safe,
}
use hyperkv.Commands.Strings.Safe.{
  exec_set-Safe, exec_get-Safe, exec_mset-Safe, exec_mget-Safe, exec_strlen-Safe,
}
use hyperkv.Interpreter.{
  exec_unknown, exec_quit, exec_shutdown, exec_noop, exec_lpush, exec_rpush, exec_lpop, exec_rpop,
  interpret,
}
use hyperkv.Interpreter.Dispatch.{handler, interpret-handler}
use hyperkv.Objects.Lists.{ListDirection}
use hyperkv.Parser.{CommandType, Command}
use hyperkv.Reply.Safe.{Plain}
use hyperkv.Value.{Store}
use hyperkv.Value.Safe.{IsSafeStore}

-- What a command of the type may reply.
abbrev pub Replied : CommandType → Str → Type 0
Replied kind resp =
    ((kind ≡ CommandType.quit) × (resp ≡ codes "q"))
    ⊎ (((kind ≡ CommandType.shutdown) × (resp ≡ codes "x")) ⊎ Plain resp)

module _ (ht : Store) (sound : IsSafeStore ht) where
  abbrev Answers : CommandType → List Str → Type 0
  Answers kind argv = Safe (λ r. IsSafeStore r.0 × Replied kind r.1) (handler kind ht argv)

  plain :
      (kind : CommandType) (argv : List Str) → SafeResult (handler kind ht argv) → Answers kind argv
  plain kind argv safe = Safe-map safe λ r (sound', p). (sound', inr (inr p))

  handler-Safe : (kind : CommandType) (argv : List Str) → Answers kind argv
  unfolding exec_unknown exec_quit exec_shutdown exec_noop exec_lpush exec_rpush exec_lpop exec_rpop
  handler-Safe CommandType.del argv = plain CommandType.del argv (exec_del-Safe ht sound argv)
  handler-Safe CommandType.exists argv =
      plain CommandType.exists argv (exec_exists-Safe ht sound argv)
  handler-Safe CommandType.type argv = plain CommandType.type argv (exec_type-Safe ht sound argv)
  handler-Safe CommandType.set argv = plain CommandType.set argv (exec_set-Safe ht sound argv)
  handler-Safe CommandType.get argv = plain CommandType.get argv (exec_get-Safe ht sound argv)
  handler-Safe CommandType.mset argv = plain CommandType.mset argv (exec_mset-Safe ht sound argv)
  handler-Safe CommandType.mget argv = plain CommandType.mget argv (exec_mget-Safe ht sound argv)
  handler-Safe CommandType.incr argv = plain CommandType.incr argv (exec_incr-Safe ht sound argv)
  handler-Safe CommandType.decr argv = plain CommandType.decr argv (exec_decr-Safe ht sound argv)
  handler-Safe CommandType.incrby argv =
      plain CommandType.incrby argv (exec_incrby-Safe ht sound argv)
  handler-Safe CommandType.decrby argv =
      plain CommandType.decrby argv (exec_decrby-Safe ht sound argv)
  handler-Safe CommandType.strlen argv =
      plain CommandType.strlen argv (exec_strlen-Safe ht sound argv)
  handler-Safe CommandType.hset argv = plain CommandType.hset argv (exec_hset-Safe ht sound argv)
  handler-Safe CommandType.hget argv = plain CommandType.hget argv (exec_hget-Safe ht sound argv)
  handler-Safe CommandType.hdel argv = plain CommandType.hdel argv (exec_hdel-Safe ht sound argv)
  handler-Safe CommandType.hgetall argv =
      plain CommandType.hgetall argv (exec_hgetall-Safe ht sound argv)
  handler-Safe CommandType.hexists argv =
      plain CommandType.hexists argv (exec_hexists-Safe ht sound argv)
  handler-Safe CommandType.hkeys argv = plain CommandType.hkeys argv (exec_hkeys-Safe ht sound argv)
  handler-Safe CommandType.hvals argv = plain CommandType.hvals argv (exec_hvals-Safe ht sound argv)
  handler-Safe CommandType.hmget argv = plain CommandType.hmget argv (exec_hmget-Safe ht sound argv)
  handler-Safe CommandType.hlen argv = plain CommandType.hlen argv (exec_hlen-Safe ht sound argv)
  handler-Safe CommandType.lpush argv =
      plain CommandType.lpush argv (exec_push-Safe ht sound argv ListDirection.left)
  handler-Safe CommandType.lpop argv =
      plain CommandType.lpop argv (exec_pop-Safe ht sound argv ListDirection.left)
  handler-Safe CommandType.rpush argv =
      plain CommandType.rpush argv (exec_push-Safe ht sound argv ListDirection.right)
  handler-Safe CommandType.rpop argv =
      plain CommandType.rpop argv (exec_pop-Safe ht sound argv ListDirection.right)
  handler-Safe CommandType.llen argv = plain CommandType.llen argv (exec_llen-Safe ht sound argv)
  handler-Safe CommandType.lindex argv =
      plain CommandType.lindex argv (exec_lindex-Safe ht sound argv)
  handler-Safe CommandType.lrange argv =
      plain CommandType.lrange argv (exec_lrange-Safe ht sound argv)
  handler-Safe CommandType.lset argv = plain CommandType.lset argv (exec_lset-Safe ht sound argv)
  handler-Safe CommandType.lrem argv = plain CommandType.lrem argv (exec_lrem-Safe ht sound argv)
  handler-Safe CommandType.lpos argv = plain CommandType.lpos argv (exec_lpos-Safe ht sound argv)
  handler-Safe CommandType.sadd argv = plain CommandType.sadd argv (exec_sadd-Safe ht sound argv)
  handler-Safe CommandType.srem argv = plain CommandType.srem argv (exec_srem-Safe ht sound argv)
  handler-Safe CommandType.sismember argv =
      plain CommandType.sismember argv (exec_sismember-Safe ht sound argv)
  handler-Safe CommandType.smembers argv =
      plain CommandType.smembers argv (exec_smembers-Safe ht sound argv)
  handler-Safe CommandType.smismember argv =
      plain CommandType.smismember argv (exec_smismember-Safe ht sound argv)
  handler-Safe CommandType.quit argv = Safe.returns _ (sound, inl (refl, refl))
  handler-Safe CommandType.shutdown argv = Safe.returns _ (sound, inr (inl (refl, refl)))
  handler-Safe CommandType.unknown argv = Safe.returns _ (sound, inr (inr (refl, refl)))
  handler-Safe CommandType.noop argv = Safe.returns _ (sound, inr (inr (refl, refl)))

  -- On a sound table `interpret` runs every command to its end, leaves a sound table, and replies "q"
  -- to quit, "x" to shutdown and to every other command something that begins with neither letter; or
  -- it stops in a signed overflow, a read through NULL or a cast to a wrong type.
  pub interpret-Safe :
      (cmd : Command) → Safe (λ r. IsSafeStore r.0 × Replied cmd.type r.1) (interpret ht cmd)
  interpret-Safe cmd = rw (interpret-handler ht cmd) (handler-Safe cmd.type cmd.argv)
