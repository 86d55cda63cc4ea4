-- ===== src/Parser/Tokens.antt =====
-- The tokens of src/parser.c.
use hyperkv.Base.{
  ℕ, zero, suc, ◌+◌, Bool, not, ◌&&◌, ◌||◌, [], ◌∷◌, ◌++◌, Option, none, some, Run, ok, fault,
  Fault, ◌>>=◌, Str, length, get_or, ltb, leb, ◌==◌, if◌then◌else◌,
}

-- `current_char` is 0 at the end of the string.
pub record Parser : Type 0 where
  pub string : Str
  pub pos : ℕ
  pub current_char : ℕ

-- `isspace`
unfoldable pub is_space : ℕ → Bool
is_space c = (c == 32) || (leb 9 c && leb c 13)

unfoldable pub is_quote : ℕ → Bool
is_quote c = (c == b'"') || (c == 39)

unfoldable pub parser_init : Str → Parser
parser_init msg = record { string = msg; pos = 0; current_char = get_or msg 0 0 }

unfoldable pub parser_advance : Parser → Parser
parser_advance parser =
    if ltb parser.pos (length parser.string)
    then record parser {
      pos = parser.pos + 1;
      current_char = get_or parser.string (parser.pos + 1) 0;
    }
    else parser

-- The loops run on fuel, and are given one round more than the string has characters.
unfoldable pub id_loop : ℕ → Parser → Str → Run (Parser × Str)
unfolding parser_advance is_space
id_loop zero parser token = fault Fault.out_of_fuel
id_loop (suc fuel) parser token =
    let rest = id_loop fuel (parser_advance parser) (token ++ parser.current_char ∷ []) in
    if not (is_space parser.current_char) && ltb parser.pos (length parser.string)
    then rest
    else ok (parser, token)

unfoldable pub parse_id : Parser → Run (Parser × Str)
unfolding id_loop
parse_id parser = id_loop (length parser.string + 1) parser []

-- Either quote ends a string, whichever began it.
unfoldable pub string_loop : ℕ → Parser → Str → Run (Parser × Str)
unfolding parser_advance is_quote
string_loop zero parser token = fault Fault.out_of_fuel
string_loop (suc fuel) parser token =
    let rest = string_loop fuel (parser_advance parser) (token ++ parser.current_char ∷ []) in
    if not (is_quote parser.current_char) && ltb parser.pos (length parser.string)
    then rest
    else ok (parser, token)

unfoldable pub parse_string : Parser → Run (Parser × Str)
unfolding string_loop
parse_string parser = do
  (parser', token) ← string_loop (length parser.string + 1) (parser_advance parser) []
  ok (parser_advance parser', token)

unfoldable pub skip_loop : ℕ → Parser → Run Parser
unfolding parser_advance is_space
skip_loop zero parser = fault Fault.out_of_fuel
skip_loop (suc fuel) parser =
    let rest = skip_loop fuel (parser_advance parser) in
    if is_space parser.current_char then rest else ok parser

unfoldable pub get_next_token : Parser → Run (Parser × Option Str)
unfolding skip_loop parse_string parse_id
get_next_token parser =
    if ltb parser.pos (length parser.string)
    then (do
      skipped ← skip_loop (length parser.string + 1) parser
      if skipped.current_char == 0
          then ok (skipped, none)
          else if is_quote skipped.current_char
          then parse_string skipped >>= (λ r. ok (r.0, some r.1))
          else parse_id skipped >>= (λ r. ok (r.0, some r.1)))
    else ok (parser, none)
