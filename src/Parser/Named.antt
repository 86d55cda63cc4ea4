-- ===== src/Parser/Named.antt =====
-- Every command of src/parser.c by its name.
use Prim.Native.String.{String}
use hyperkv.Base.{Bool, true, List, ◌≡◌, refl, ◌∙◌, ap, map, ok, codes, str_eq}
use hyperkv.Parser.{CommandType, command_type, parse}
use hyperkv.Parser.Spelled.{spell_command, parse-spell}
use hyperkv.Parser.Taken.{all_words}
use hyperkv.Parser.Words.{Word, text, is_word}

-- The name that a client gives a command.
abbrev pub name_of : CommandType → String
name_of CommandType.del = "del"
name_of CommandType.exists = "exists"
name_of CommandType.type = "type"
name_of CommandType.set = "set"
name_of CommandType.get = "get"
name_of CommandType.mset = "mset"
name_of CommandType.mget = "mget"
name_of CommandType.incr = "incr"
name_of CommandType.decr = "decr"
name_of CommandType.incrby = "incrby"
name_of CommandType.decrby = "decrby"
name_of CommandType.strlen = "strlen"
name_of CommandType.hset = "hset"
name_of CommandType.hget = "hget"
name_of CommandType.hdel = "hdel"
name_of CommandType.hgetall = "hgetall"
name_of CommandType.hexists = "hexists"
name_of CommandType.hkeys = "hkeys"
name_of CommandType.hvals = "hvals"
name_of CommandType.hmget = "hmget"
name_of CommandType.hlen = "hlen"
name_of CommandType.lpush = "lpush"
name_of CommandType.lpop = "lpop"
name_of CommandType.rpush = "rpush"
name_of CommandType.llen = "llen"
name_of CommandType.lindex = "lindex"
name_of CommandType.lrange = "lrange"
name_of CommandType.lset = "lset"
name_of CommandType.lrem = "lrem"
name_of CommandType.lpos = "lpos"
name_of CommandType.rpop = "rpop"
name_of CommandType.sadd = "sadd"
name_of CommandType.srem = "srem"
name_of CommandType.sismember = "sismember"
name_of CommandType.smembers = "smembers"
name_of CommandType.smismember = "smismember"
name_of CommandType.quit = "quit"
name_of CommandType.shutdown = "shutdown"
name_of CommandType.unknown = ""
name_of CommandType.noop = ""

abbrev pub HasName : CommandType → Type 0
HasName CommandType.unknown = ⊥
HasName CommandType.noop = ⊥
HasName _ = Unit

command_type-name_of :
    (kind : CommandType) → HasName kind → command_type (codes (name_of kind)) ≡ kind
unfolding command_type str_eq
command_type-name_of CommandType.del h = refl
command_type-name_of CommandType.exists h = refl
command_type-name_of CommandType.type h = refl
command_type-name_of CommandType.set h = refl
command_type-name_of CommandType.get h = refl
command_type-name_of CommandType.mset h = refl
command_type-name_of CommandType.mget h = refl
command_type-name_of CommandType.incr h = refl
command_type-name_of CommandType.decr h = refl
command_type-name_of CommandType.incrby h = refl
command_type-name_of CommandType.decrby h = refl
command_type-name_of CommandType.strlen h = refl
command_type-name_of CommandType.hset h = refl
command_type-name_of CommandType.hget h = refl
command_type-name_of CommandType.hdel h = refl
command_type-name_of CommandType.hgetall h = refl
command_type-name_of CommandType.hexists h = refl
command_type-name_of CommandType.hkeys h = refl
command_type-name_of CommandType.hvals h = refl
command_type-name_of CommandType.hmget h = refl
command_type-name_of CommandType.hlen h = refl
command_type-name_of CommandType.lpush h = refl
command_type-name_of CommandType.lpop h = refl
command_type-name_of CommandType.rpush h = refl
command_type-name_of CommandType.llen h = refl
command_type-name_of CommandType.lindex h = refl
command_type-name_of CommandType.lrange h = refl
command_type-name_of CommandType.lset h = refl
command_type-name_of CommandType.lrem h = refl
command_type-name_of CommandType.lpos h = refl
command_type-name_of CommandType.rpop h = refl
command_type-name_of CommandType.sadd h = refl
command_type-name_of CommandType.srem h = refl
command_type-name_of CommandType.sismember h = refl
command_type-name_of CommandType.smembers h = refl
command_type-name_of CommandType.smismember h = refl
command_type-name_of CommandType.quit h = refl
command_type-name_of CommandType.shutdown h = refl
command_type-name_of CommandType.unknown h = absurd h
command_type-name_of CommandType.noop h = absurd h

-- The name of one of the 38 commands and the arguments behind it, each after one space, with or without
-- a newline at the end, is read back as that command with those arguments, where the name and every
-- argument is a word: bare, with no space or quote in it, or between quotes.
pub parse-name_of :
    (kind : CommandType)
    → HasName kind
    → (newline : Bool) (name : Word) (words : List Word) → text name ≡ codes (name_of kind)
    → is_word name ≡ true
    → all_words words ≡ true
    → parse (spell_command newline name words) ≡ ok (record { type = kind; argv = map text words })
parse-name_of kind has newline name words e named good =
    parse-spell newline name words named good
    ∙ ap (λ t. ok (record { type = t; argv = map text words }))
        (ap command_type e ∙ command_type-name_of kind has)
