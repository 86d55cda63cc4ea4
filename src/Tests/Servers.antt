-- ===== src/Tests/Servers.antt =====
-- Clients and the server, with a message and a reply on their way between them.
use hyperkv.Base.{
  ℕ, map, ◌+◌, ◌≤◌, ◌<◌, ◌⊎◌, ◌≡◌, refl, arith, List, [], ◌∷◌, ◌++◌, ok, fault, Fault, Returns, Str,
  codes, pos, negsuc, some, none, length, leb, replicate, if◌then◌else◌, Safe,
}
use hyperkv.Client.{parse_str, parse_int, parse_err}
use hyperkv.Client.RoundTrip.{parse-reply}
use hyperkv.Helper.Number.{print_int}
use hyperkv.Parser.{CommandType, parse}
use hyperkv.Parser.Parse.{parse_total}
use hyperkv.Reply.{crlf, reply_string, reply_integer, reply_err_argc}
use hyperkv.Reply.Buffers.{
  intostr_size, reply_string_size, reply_integer_size, reply_array_size, reply_err_argc_size,
  reply-fits,
}
use hyperkv.Slots.{empty}
use hyperkv.Socket.{buffer_size, received, readline, writeline}
use hyperkv.Socket.RoundTrip.{readline-writeline}
use hyperkv.Value.{Store}

abbrev start : Store
start = record { size = 2; used = 0; items = empty ∷ empty ∷ [] }

abbrev messages : List Str
messages = codes "rpush a 1 2" ∷ codes "lrem a -1 2" ∷ codes "quit" ∷ []

-- What the client writes for each, in buffers that held nothing.
abbrev buffers : List (List ℕ)
buffers = map writeline messages

parse_total_example : Returns (parse (codes "GET a")) λ cmd.
    (length cmd.argv < length (codes "GET a"))
    ⊎ (cmd ≡ record { type = CommandType.noop; argv = [] })
parse_total_example = parse_total (codes "GET a")

readline-writeline_example :
    readline (received (writeline (codes "GET a")) (replicate buffer_size 0)) ≡ (
      if leb (length (codes "GET a") + 2) buffer_size
      then ok (codes "GET a")
      else fault Fault.out_of_bounds)
readline-writeline_example = readline-writeline (codes "GET a") (replicate buffer_size 0) refl refl

parse-reply_example :
    (parse_str (reply_string (some (codes "ab"))) ≡ ok (some (codes "ab")))
    × (parse_str (reply_string none) ≡ ok none)
    × (parse_int (reply_integer (negsuc 41)) ≡ ok (negsuc 41))
    × (parse_err (codes "lost") (b'-' ∷ (codes "ERR" ++ crlf)) ≡ ok (codes "ERR" ++ codes "lost"))
parse-reply_example =
    parse-reply (codes "ab") (negsuc 41) (codes "ERR") (codes "lost") (omega arith) (omega arith)
      (omega arith)

reply-fits_example :
    (Returns (intostr_size (negsuc 41)) λ room. length (print_int (negsuc 41)) + 1 ≤ room)
    × (Returns
        (reply_string_size (codes "ab"))
        λ room. length (reply_string (some (codes "ab"))) + 1 ≤ room)
    × (Returns
        (reply_integer_size (negsuc 41))
        λ room. length (reply_integer (negsuc 41)) + 1 ≤ room)
    × (Returns
        (reply_array_size 0 [])
        λ room. length (b'*' ∷ (print_int (pos 0) ++ (crlf ++ []))) + 1 ≤ room)
    × (Returns
        (reply_err_argc_size 0 (codes "1+"))
        λ room. length (reply_err_argc 0 (codes "1+")) + 1 ≤ room)
reply-fits_example =
    reply-fits (negsuc 41) (codes "ab") [] (codes "1+") 0 (omega arith) (omega arith) (omega arith)
      (omega arith)
