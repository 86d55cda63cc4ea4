-- ===== src/Client/Session.antt =====
-- A client of src/client.c that sets a key and gets it again.
use mathlib.Core.List.{append_assoc}
use hyperkv.Base.{
  ℕ, suc, ◌+◌, ◌≤◌, ◌<◌, true, false, List, [], ◌∷◌, ◌++◌, none, some, pos, ◌≡◌, refl, ◌∙◌, ap,
  arith, ok, Str, codes, length, length-append, get_or, str_eq, int_max, ◌==◌,
}
use hyperkv.Client.{parse_str, parse_resp, print_quote_encase, repl}
use hyperkv.Client.RoundTrip.{parse-reply}
use hyperkv.Commands.Strings.{exec_set}
use hyperkv.Commands.Strings.Laws.{exec_get-set}
use hyperkv.Helper.Number.{decimal, print_int, all_digits}
use hyperkv.Helper.Number.Print.{decimal-digits}
use hyperkv.HTable.Valid.{IsValid, HasRoom}
use hyperkv.Interpreter.Dispatch.{interpret-handler}
use hyperkv.Parser.{Command, CommandType, command_type, parse}
use hyperkv.Parser.Spelled.{spell_command, parse-spell}
use hyperkv.Parser.Tokens.{is_space, is_quote}
use hyperkv.Parser.Words.{Word, bare, quoted, text, spell, is_word}
use hyperkv.Reply.{crlf, reply_string}
use hyperkv.Slots.View.{view}
use hyperkv.Socket.{buffer_size}
use hyperkv.Socket.RoundTrip.{no_nul}
use hyperkv.Strings.Laws.{takes_string, NoneStuck}
use hyperkv.Value.{Store}
use hyperkv.Client.Exchange.{connection, exchange}

no_nul-append : (xs ys : Str) → no_nul xs ≡ true → no_nul ys ≡ true → no_nul (xs ++ ys) ≡ true
no_nul-append [] ys h h' = h'
no_nul-append (c ∷ xs) ys h h' = ground (arith, no_nul-append xs ys)

digits_plain : (digits : Str) → all_digits digits ≡ true → no_nul digits ≡ true
unfolding all_digits
digits_plain [] h = refl
digits_plain (c ∷ digits) h = ground (arith, digits_plain digits)

-- A reply that is a string, as the client receives and prints it.
reply-no_nul : (str : Str) → no_nul str ≡ true → no_nul (reply_string (some str)) ≡ true
unfolding reply_string print_int
reply-no_nul str plain =
    no_nul-append (decimal (suc (length str)) (length str)) (crlf ++ (str ++ crlf))
      (digits_plain _ (decimal-digits (suc (length str)) (length str)))
      (no_nul-append str crlf plain refl)

-- A string between quotes on a line of its own.
abbrev pub quoted_line : Str → Str
quoted_line str = b'"' ∷ (str ++ b'"' ∷ 10 ∷ [])

prints-quoted_line : (str : Str) → print_quote_encase str ≡ quoted_line str
unfolding print_quote_encase
prints-quoted_line str = ap (λ t. b'"' ∷ t) (append_assoc str (b'"' ∷ []) (10 ∷ []))

prints_string :
    (stale resp str : Str)
    → parse_str (b'$' ∷ resp) ≡ ok (some str)
    → parse_resp stale (b'$' ∷ resp) ≡ ok (print_quote_encase str)
unfolding parse_resp
prints_string stale resp str reads = rw reads refl

prints_reply :
    (stale str : Str)
    → length str < int_max
    → parse_resp stale (reply_string (some str)) ≡ ok (print_quote_encase str)
unfolding reply_string
prints_reply stale str fits =
    prints_string stale _ str (parse-reply str (pos 0) [] [] fits (omega arith) (omega arith)).0

prints_line :
    (stale str : Str)
    → length str < int_max
    → parse_resp stale (reply_string (some str)) ≡ ok (quoted_line str)
prints_line stale str fits = prints_reply stale str fits ∙ ap ok (prints-quoted_line str)

first_letter : (str : Str) → get_or (reply_string (some str)) 0 0 ≡ b'$'
unfolding reply_string
first_letter str = refl

length-reply : (str : Str) → length str ≤ length (reply_string (some str))
unfolding reply_string print_int
length-reply str = omega (
  arith,
  length-append (decimal (suc (length str)) (length str)) (crlf ++ (str ++ crlf)),
  length-append str crlf,
)

spell-no_nul : (w : Word) → no_nul (text w) ≡ true → no_nul (spell w) ≡ true
spell-no_nul (bare s) plain = plain
spell-no_nul (quoted s) plain = no_nul-append s (b'"' ∷ []) plain refl

-- What the client types.
abbrev pub set_line : (key value : Word) → Str
set_line key value = spell_command true (bare (codes "set")) (key ∷ value ∷ [])

abbrev pub get_line : Word → Str
get_line key = spell_command true (bare (codes "get")) (key ∷ [])

get_word : is_word (bare (codes "get")) ≡ true
unfolding is_space is_quote
get_word = refl

set_word : is_word (bare (codes "set")) ≡ true
unfolding is_space is_quote
set_word = refl

get_names : command_type (codes "get") ≡ CommandType.get
unfolding command_type str_eq
get_names = refl

set_names : command_type (codes "set") ≡ CommandType.set
unfolding command_type str_eq
set_names = refl

answers_plainly :
    (str : Str)
    → ((get_or (reply_string (some str)) 0 0 == b'q') ≡ false)
      × ((get_or (reply_string (some str)) 0 0 == b'x') ≡ false)
answers_plainly str =
    (ap (λ c. c == b'q') (first_letter str), ap (λ c. c == b'x') (first_letter str))

ok_fits : length (reply_string (some (codes "OK"))) + 2 ≤ buffer_size
unfolding reply_string print_int decimal
ok_fits = omega arith

no_more :
    (old old' : List ℕ) (stale : Str) (r : Store)
    → repl (connection old old') stale r [] ≡ ok (r, [])
unfolding repl
no_more old old' stale r = refl

module _ (key value : Word) (key_word : is_word key ≡ true) (value_word : is_word value ≡ true)
    (plain_key : no_nul (text key) ≡ true) (plain_value : no_nul (text value) ≡ true) where
  get-no_nul : no_nul (get_line key) ≡ true
  get-no_nul = no_nul-append (spell key) (10 ∷ []) (spell-no_nul key plain_key) refl

  set-no_nul : no_nul (set_line key value) ≡ true
  set-no_nul =
      no_nul-append (spell key) (32 ∷ (spell value ++ 10 ∷ [])) (spell-no_nul key plain_key)
        (no_nul-append (spell value) (10 ∷ []) (spell-no_nul value plain_value) refl)

  get_shorter : length (get_line key) ≤ length (set_line key value)
  get_shorter = omega (
    arith,
    length-append (spell key) (10 ∷ []),
    length-append (spell key) (32 ∷ (spell value ++ 10 ∷ [])),
  )

  get_parses : parse (get_line key) ≡ ok (record { type = CommandType.get; argv = text key ∷ [] })
  get_parses =
      parse-spell true (bare (codes "get")) (key ∷ []) get_word (ground arith)
      ∙ ap (λ t. ok (record { type = t; argv = text key ∷ [] })) get_names

  set_parses :
      parse (set_line key value)
      ≡ ok (record { type = CommandType.set; argv = text key ∷ text value ∷ [] })
  set_parses =
      parse-spell true (bare (codes "set")) (key ∷ value ∷ []) set_word (ground arith)
      ∙ ap (λ t. ok (record { type = t; argv = text key ∷ text value ∷ [] })) set_names

  module _ (old old' : List ℕ) (room : length old ≡ buffer_size) (room' : length old' ≡ buffer_size)
      (stale : Str) (ht : Store) (valid : IsValid ht) (grows : HasRoom ht)
      (takes : takes_string (view ht.items (text key)) ≡ true)
      (fits : length (set_line key value) + 2 ≤ buffer_size)
      (fits' : length (reply_string (some (text value))) + 2 ≤ buffer_size) where
    -- A client that sets a key to a value and then gets the key prints two lines, OK and the value,
    -- each between double quotes, and the server's table is the one that `exec_set` leaves. The table is
    -- valid with room to grow, the key is free or holds a string, key and value are words with no NUL,
    -- the line and the reply fit the buffers of 1024 bytes, and a new key is not stuck at its home and
    -- no key is stuck in an array that has grown.
    pub repl-set_get :
        {r : Store} {reply : Str}
        → exec_set ht (text key ∷ text value ∷ []) ≡ ok (r, reply)
        → (view ht.items (text key) ≡ none → NoneStuck ht (text key) r)
        → repl (connection old old') stale ht (set_line key value ∷ get_line key ∷ [])
          ≡ ok (r, quoted_line (codes "OK") ∷ quoted_line (text value) ∷ [])
    repl-set_get {r} {reply} run moves =
        let (replied, gets, _) =
          exec_get-set ht valid grows (text key) (text value) takes run moves in
        let set_cmd : Command = record {
          type = CommandType.set;
          argv = text key ∷ text value ∷ [];
        } in
        let get_cmd : Command = record { type = CommandType.get; argv = text key ∷ [] } in
        let ok_str = codes "OK" in
        exchange old old' room room' stale ht r r (set_line key value) (reply_string (some ok_str))
          (quoted_line ok_str) set_cmd (get_line key ∷ []) (quoted_line (text value) ∷ [])
          set-no_nul fits set_parses
          (interpret-handler ht set_cmd ∙ (run ∙ ap (λ t. ok (r, t)) replied))
          (answers_plainly ok_str).0 (answers_plainly ok_str).1 (reply-no_nul ok_str refl) ok_fits
          (prints_line stale ok_str (omega arith))
          (exchange old old' room room' stale r r r (get_line key)
            (reply_string (some (text value))) (quoted_line (text value)) get_cmd [] [] get-no_nul
            (omega (arith, get_shorter)) get_parses (interpret-handler r get_cmd ∙ gets)
            (answers_plainly (text value)).0 (answers_plainly (text value)).1
            (reply-no_nul (text value) plain_value) fits'
            (prints_line stale (text value) (omega (arith, length-reply (text value))))
            (no_more old old' stale r))
