-- ===== src/Tests/Sessions.antt =====
-- Whole sessions, and the program with its system calls.
use hyperkv.Base.{
  ℕ, suc, ◌≢◌, ◌^◌, ◌-◌, if◌then◌else◌, true, ◌≤◌, ◌+◌, length, str_eq, List, [], ◌∷◌, pos, some,
  ◌≡◌, refl, arith, ok, Str, codes, map, set, replicate, Returns, Safe,
}
use hyperkv.Client.{repl}
use hyperkv.Client.Exchange.{connection}
use hyperkv.Client.Session.{set_line, get_line, quoted_line, repl-set_get}
use hyperkv.Helper.Number.{print_int, decimal}
use hyperkv.Interpreter.{interpret}
use hyperkv.Interpreter.Refusal.{Kind, kind_of, Refuses, interpret-Refuses}
use hyperkv.List.{list_init}
use hyperkv.Network.{Call, Sys, recorded, init_server, connect_server, localhost, port_num}
use hyperkv.Network.Traces.{Opens, Connects, sockets-Opens}
use hyperkv.Parser.{Command, CommandType, parse}
use hyperkv.Parser.Spelled.{spell_command}
use hyperkv.Parser.Named.{parse-name_of}
use hyperkv.Parser.Tokens.{is_space, is_quote}
use hyperkv.Parser.Words.{Word, bare, quoted, text}
use hyperkv.Release.{htable_free}
use hyperkv.Release.Shutdown.{StoreOwns, htable_free-own}
use hyperkv.Reply.{reply_string}
use hyperkv.Slots.{live, item}
use hyperkv.Slots.View.{view}
use hyperkv.Socket.{buffer_size, writeline}
use hyperkv.Tests.Commands.{
  counter, counter-IsValid, dated, date_run, date_free, date_moves, mixed, mixed-IsValid,
}
use hyperkv.Tests.Lists.{two, two-IsSeq, values}
use hyperkv.Value.{Store, list_t}
use hyperkv.Value.Safe.{IsSafeStore}

-- An argument with a space in it stands between quotes.
abbrev words : List Word
words = bare (codes "a") ∷ quoted (codes "b c") ∷ []

parse-name_of_example :
    parse (spell_command true (bare (codes "set")) words)
    ≡ ok (record { type = CommandType.set; argv = map text words })
unfolding is_space is_quote
parse-name_of_example =
    parse-name_of CommandType.set tt true (bare (codes "set")) words refl refl refl

abbrev date_word : Word
date_word = bare (codes "date")

abbrev seven : Word
seven = quoted (codes "7")

abbrev zeros : List ℕ
zeros = replicate buffer_size 0

date_fits : length (reply_string (some (codes "7"))) + 2 ≤ buffer_size
unfolding reply_string print_int decimal
date_fits = omega arith

repl-set_get_example :
    repl (connection zeros zeros) [] counter (set_line date_word seven ∷ get_line date_word ∷ [])
    ≡ ok (dated, quoted_line (codes "OK") ∷ quoted_line (codes "7") ∷ [])
unfolding is_space is_quote
repl-set_get_example =
    repl-set_get date_word seven refl refl refl refl zeros zeros refl refl [] counter
      counter-IsValid (omega arith) date_free (omega arith) date_fits date_run
      (λ _. (date_moves, λ grown. absurd (grown refl)))

abbrev get_fig : Command
get_fig = record { type = CommandType.get; argv = codes "fig" ∷ [] }

holds_fig : view mixed.items (codes "fig") ≡ some (list_t list_init)
unfolding view str_eq
holds_fig = refl

not_string : kind_of (list_t list_init) ≢ Kind.string
not_string e = absurd (let no : Kind.list ≡ Kind.string = e in cc)

interpret-Refuses_example : Refuses mixed (codes "fig" ∷ []) (interpret mixed get_fig)
interpret-Refuses_example =
    interpret-Refuses mixed mixed-IsValid (omega arith) (codes "fig") (list_t list_init) holds_fig
      get_fig [] not_string refl

-- "a" holds a string, and "fig" a list of two values.
abbrev owner : Store
owner = record {
  size = 11;
  used = 2;
  items = set counter.items 4 (item (codes "fig") (list_t two));
}

owner-IsSound : IsSafeStore owner
unfolding live
owner-IsSound = record {
  width = refl;
  positive = omega arith;
  counted = omega arith;
  kept = (tt, (tt, (tt, (tt, ((values, two-IsSeq), (tt, (tt, (tt, (tt, (tt, (tt, tt)))))))))));
}

htable_free-own_example : Returns (htable_free owner) (StoreOwns owner)
htable_free-own_example = htable_free-own owner owner-IsSound

-- A system that counts its calls: the server's socket is 3, every client's 4.
abbrev counting : Sys ℕ
counting n Call.socket = (suc n, pos 3)
counting n (Call.accept sfd) = (suc n, pos 4)
counting n _ = (suc n, pos 0)

-- Only the address of this machine is known.
abbrev known : Str → ℕ
known addr = if str_eq addr localhost then 16777343 else 2 ^ 32 - 1

sockets-Opens_example :
    Opens (init_server (recorded counting) (0, [])).1 (init_server (recorded counting) (0, [])).0.1
    × Connects
        (known localhost)
        port_num
        (connect_server (recorded counting) known (0, []) localhost port_num).1
        (connect_server (recorded counting) known (0, []) localhost port_num).0.1
sockets-Opens_example = sockets-Opens counting 0 known localhost port_num

abbrev connections : List (List (List ℕ))
connections =
    (writeline (codes "set a 1") ∷ writeline (codes "quit") ∷ [])
    ∷ (writeline (codes "shutdown") ∷ [])
    ∷ []
