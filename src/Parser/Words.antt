-- ===== src/Parser/Words.antt =====
-- The words of a message, and how the tokenizer of src/parser.c reads one.
use hyperkv.Base.{
  ℕ, zero, suc, ◌+◌, ◌<◌, Bool, true, false, not, ◌&&◌, [], ◌∷◌, ◌++◌, ◌≡◌, refl, sym, ◌∙◌, ap,
  arith, Returns, Str, length, length-append, get_or, ltb, ◌==◌,
}
use mathlib.Core.List.{append_assoc, append-nil}
use hyperkv.Parser.Tokens.{
  Parser, is_space, is_quote, parser_init, parser_advance, id_loop, string_loop, parse_string,
  skip_loop,
}

-- A word is written as it is, or between quotes.
pub data Word : Type 0 where
  bare : Str → Word
  quoted : Str → Word

abbrev pub text : Word → Str
text (bare s) = s
text (quoted s) = s

abbrev pub spell : Word → Str
spell (bare s) = s
spell (quoted s) = b'"' ∷ (s ++ b'"' ∷ [])

abbrev pub no_space : Str → Bool
no_space [] = true
no_space (c ∷ s) = not (is_space c) && no_space s

abbrev pub no_quote : Str → Bool
no_quote [] = true
no_quote (c ∷ s) = not (is_quote c) && no_quote s

-- A bare word has a first character, which is neither a quote nor NUL, and no space in it; a quoted one
-- has no quote in it.
abbrev pub is_word : Word → Bool
is_word (bare []) = false
is_word (bare (c ∷ s)) = not (is_quote c) && (not (c == 0) && no_space (c ∷ s))
is_word (quoted s) = no_quote s

-- What follows a word: the end, or a space.
abbrev pub is_break : Str → Bool
is_break [] = true
is_break (c ∷ rest) = is_space c

-- The parser has come to where the rest of the message begins.
pub record Sees (msg rest : Str) (parser : Parser) : Type 0 where
  pub before : Str
  pub split : msg ≡ before ++ rest
  pub string : parser.string ≡ msg
  pub pos : parser.pos ≡ length before
  pub here : parser.current_char ≡ get_or rest 0 0

pub get_or-append : (xs ys : Str) (i : ℕ) → get_or (xs ++ ys) (length xs + i) 0 ≡ get_or ys i 0
get_or-append [] ys i = let e : 0 + i ≡ i = omega arith in ap (λ n. get_or ys n 0) e
get_or-append (x ∷ xs) ys i =
    let e : suc (length xs) + i ≡ suc (length xs + i) = omega arith in
    ap (λ n. get_or (x ∷ (xs ++ ys)) n 0) e ∙ get_or-append xs ys i

module _ {msg : Str} where
  pub begins : Sees msg msg (parser_init msg)
  unfolding parser_init
  begins = record { before = []; split = refl; string = refl; pos = refl; here = refl }

  pub length-Sees :
      {rest : Str} {parser : Parser}
      → Sees msg rest parser
      → length parser.string ≡ parser.pos + length rest
  length-Sees {rest} sees =
      ap length (sees.string ∙ sees.split)
      ∙ (length-append sees.before rest ∙ ap (λ n. n + length rest) (sym sees.pos))

  pub more_left :
      {c : ℕ} {rest : Str} {parser : Parser}
      → Sees msg (c ∷ rest) parser
      → ltb parser.pos (length parser.string) ≡ true
  more_left sees = ground (arith, length-Sees sees)

  advance-Sees :
      {c : ℕ} {rest : Str} {parser : Parser}
      → Sees msg (c ∷ rest) parser
      → Sees msg rest (parser_advance parser)
  unfolding parser_advance
  advance-Sees {c} {rest} {parser} sees = rw (more_left sees) (record {
    before = sees.before ++ c ∷ [];
    split = sees.split ∙ sym (append_assoc sees.before (c ∷ []) rest);
    string = sees.string;
    pos = omega (arith, sees.pos, length-append sees.before (c ∷ []));
    here =
        ap (λ s. get_or s (parser.pos + 1) 0) (sees.string ∙ sees.split)
        ∙ (ap (λ n. get_or (sees.before ++ c ∷ rest) (n + 1) 0) sees.pos
            ∙ get_or-append sees.before (c ∷ rest) 1);
  })

module _ (msg : Str) where
  -- The parser has read the text, and goes on behind it.
  abbrev pub Took : Str → Str → Parser × Str → Type 0
  Took token rest r = (r.1 ≡ token) × Sees msg rest r.0

  longer : {c d : ℕ} (token s : Str) → c ≡ d → (token ++ c ∷ []) ++ s ≡ token ++ d ∷ s
  longer {c} token s e = append_assoc token (c ∷ []) s ∙ ap (λ x. token ++ x ∷ s) e

  pub id_loop-Took :
      (fuel : ℕ) (parser : Parser) (token s rest : Str)
      → Sees msg (s ++ rest) parser
      → no_space s ≡ true
      → is_break rest ≡ true
      → length s < fuel
      → Returns (id_loop fuel parser token) (Took (token ++ s) rest)
  unfolding id_loop
  id_loop-Took (suc fuel) parser token [] [] sees plain break enough =
      let past : ltb parser.pos (length parser.string) ≡ false = ground (arith, length-Sees sees) in
      let stop : (not (is_space parser.current_char) && ltb parser.pos (length parser.string))
          ≡ false =
        ground (arith, past) in
      ((parser, token), rw stop refl, (sym (append-nil token), sees))
  id_loop-Took (suc fuel) parser token [] (c ∷ rest) sees plain break enough =
      ((parser, token), rw (sees.here, break) refl, (sym (append-nil token), sees))
  id_loop-Took (suc fuel) parser token (c ∷ s) rest sees plain break enough =
      let plain' : no_space s ≡ true = ground arith in
      let goes_on : (not (is_space parser.current_char) && ltb parser.pos (length parser.string))
          ≡ true =
        (let more = more_left sees in let here = sees.here in ground (arith, ap is_space here)) in
      let (r, run, (e, sees')) =
        id_loop-Took fuel (parser_advance parser) (token ++ parser.current_char ∷ []) s rest
          (advance-Sees sees) plain' break (omega arith) in
      (r, rw goes_on run, (e ∙ longer token s sees.here, sees'))
  id_loop-Took zero parser token s rest sees plain break enough = absurd (omega arith)

  string_loop-Took :
      (fuel : ℕ) (parser : Parser) (token s rest : Str)
      → Sees msg (s ++ b'"' ∷ rest) parser
      → no_quote s ≡ true
      → length s < fuel
      → Returns (string_loop fuel parser token) (Took (token ++ s) (b'"' ∷ rest))
  unfolding string_loop
  string_loop-Took (suc fuel) parser token [] rest sees plain enough =
      let ends : (not (is_quote parser.current_char) && ltb parser.pos (length parser.string))
          ≡ false =
        ground (arith, ap is_quote sees.here) in
      ((parser, token), rw ends refl, (sym (append-nil token), sees))
  string_loop-Took (suc fuel) parser token (c ∷ s) rest sees plain enough =
      let plain' : no_quote s ≡ true = ground arith in
      let goes_on : (not (is_quote parser.current_char) && ltb parser.pos (length parser.string))
          ≡ true =
        (let more = more_left sees in let here = sees.here in ground (arith, ap is_quote here)) in
      let (r, run, (e, sees')) =
        string_loop-Took fuel (parser_advance parser) (token ++ parser.current_char ∷ []) s rest
          (advance-Sees sees) plain' (omega arith) in
      (r, rw goes_on run, (e ∙ longer token s sees.here, sees'))
  string_loop-Took zero parser token s rest sees plain enough = absurd (omega arith)

  pub parse_string-Took :
      (parser : Parser) (s rest : Str)
      → Sees msg (b'"' ∷ (s ++ b'"' ∷ rest)) parser
      → no_quote s ≡ true
      → Returns (parse_string parser) (Took s rest)
  unfolding parse_string
  parse_string-Took parser s rest sees plain =
      let (r, run, (e, sees')) =
        string_loop-Took (length parser.string + 1) (parser_advance parser) [] s rest
          (advance-Sees sees) plain
          (omega (arith, length-Sees sees, length-append s (b'"' ∷ rest))) in
      ((parser_advance r.0, r.1), rw run refl, (e, advance-Sees sees'))

  -- At most one space stands before a word.
  abbrev pub spaced : Bool → Str → Str
  spaced false rest = rest
  spaced true rest = 32 ∷ rest

  pub skip_loop-Sees :
      (fuel : ℕ) (space : Bool) (c : ℕ) (rest : Str) (parser : Parser)
      → Sees msg (spaced space (c ∷ rest)) parser
      → is_space c ≡ false
      → 1 < fuel
      → Returns (skip_loop fuel parser) (Sees msg (c ∷ rest))
  unfolding skip_loop
  skip_loop-Sees (suc fuel) false c rest parser sees plain enough =
      let stays : is_space parser.current_char ≡ false = ap is_space sees.here ∙ plain in
      (parser, rw stays refl, sees)
  skip_loop-Sees (suc (suc fuel)) true c rest parser sees plain enough =
      let goes_on : is_space parser.current_char ≡ true = ap is_space sees.here in
      let sees' = advance-Sees sees in
      let stays : is_space (parser_advance parser).current_char ≡ false =
        ap is_space sees'.here ∙ plain in
      (parser_advance parser, rw goes_on (rw stays refl), sees')
  skip_loop-Sees (suc zero) true c rest parser sees plain enough = absurd (omega arith)
  skip_loop-Sees zero space c rest parser sees plain enough = absurd (omega arith)

  -- The newline at the end of a message is skipped.
  pub skip_loop-end :
      (fuel : ℕ) (parser : Parser)
      → Sees msg (10 ∷ []) parser
      → 1 < fuel
      → Returns (skip_loop fuel parser) (λ p. (p.current_char == 0) ≡ true)
  unfolding skip_loop is_space
  skip_loop-end (suc (suc fuel)) parser sees enough =
      let goes_on : is_space parser.current_char ≡ true = ap is_space sees.here in
      let sees' = advance-Sees sees in
      let stays : is_space (parser_advance parser).current_char ≡ false = ap is_space sees'.here in
      (parser_advance parser, rw goes_on (rw stays refl), ap (λ x. x == 0) sees'.here)
  skip_loop-end (suc zero) parser sees enough = absurd (omega arith)
  skip_loop-end zero parser sees enough = absurd (omega arith)
