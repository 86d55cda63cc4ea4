-- ===== src/Parser/Taken.antt =====
-- The tokenizer of src/parser.c on the words of a command that is written out.
use mathlib.Core.List.{append_assoc}
use hyperkv.Base.{
  ℕ, ◌+◌, ◌<◌, ◌≤◌, Bool, true, false, ◌&&◌, List, [], ◌∷◌, ◌++◌, none, some, ◌≡◌, refl, ◌∙◌, ap,
  subst, arith, ok, Str, length, length-append, ltb, ◌==◌,
}
use hyperkv.Parser.Tokens.{
  Parser, is_space, is_quote, id_loop, parse_id, parse_string, skip_loop, get_next_token,
}
use hyperkv.Parser.Words.{
  Word, bare, quoted, text, spell, no_space, is_word, is_break, Sees, length-Sees, more_left,
  spaced, skip_loop-Sees, skip_loop-end, id_loop-Took, parse_string-Took,
}

abbrev pub all_words : List Word → Bool
all_words [] = true
all_words (w ∷ words) = is_word w && all_words words

-- A message may end in a newline, as the client sends it.
abbrev pub line_end : Bool → Str
line_end false = []
line_end true = 10 ∷ []

-- The arguments as they follow the command, each behind a space.
abbrev pub spell_rest : Bool → List Word → Str
spell_rest newline [] = line_end newline
spell_rest newline (w ∷ words) = 32 ∷ (spell w ++ spell_rest newline words)

pub rest_breaks : (newline : Bool) (words : List Word) → is_break (spell_rest newline words) ≡ true
unfolding is_space
rest_breaks false [] = refl
rest_breaks true [] = refl
rest_breaks newline (w ∷ words) = refl

pub length-spell_rest :
    (newline : Bool) (words : List Word) → length words ≤ length (spell_rest newline words)
length-spell_rest newline [] = omega arith
length-spell_rest newline (w ∷ words) =
    omega
      (arith, length-append (spell w) (spell_rest newline words), length-spell_rest newline words)

pub spell_pos : (w : Word) → is_word w ≡ true → 0 < length (spell w)
spell_pos (bare []) word = cc
spell_pos (bare (c ∷ s)) word = omega arith
spell_pos (quoted s) word = omega arith

word-start :
    (c : ℕ) (s : Str)
    → is_word (bare (c ∷ s)) ≡ true
    → (is_quote c ≡ false) × ((c == 0) ≡ false) × (no_space (c ∷ s) ≡ true) × (is_space c ≡ false)
word-start c s word = (ground arith, ground arith, ground arith, ground arith)

pub first_good :
    (w : Word) (words : List Word)
    → all_words (w ∷ words) ≡ true
    → (is_word w ≡ true) × (all_words words ≡ true)
first_good w words good = (ground arith, ground arith)

-- The runs of the tokenizer on a word of each kind.
bare_token :
    (parser p p' : Parser) (token : Str)
    → ltb parser.pos (length parser.string) ≡ true
    → skip_loop (length parser.string + 1) parser ≡ ok p
    → (p.current_char == 0) ≡ false
    → is_quote p.current_char ≡ false
    → id_loop (length p.string + 1) p [] ≡ ok (p', token)
    → get_next_token parser ≡ ok (p', some token)
unfolding get_next_token parse_id
bare_token parser p p' token more skips no_end no_quote reads =
    rw (more, skips) (rw (no_end, no_quote) (rw reads refl))

quoted_token :
    (parser p p' : Parser) (token : Str)
    → ltb parser.pos (length parser.string) ≡ true
    → skip_loop (length parser.string + 1) parser ≡ ok p
    → (p.current_char == 0) ≡ false
    → is_quote p.current_char ≡ true
    → parse_string p ≡ ok (p', token)
    → get_next_token parser ≡ ok (p', some token)
unfolding get_next_token
quoted_token parser p p' token more skips no_end quote reads =
    rw (more, skips) (rw (no_end, quote) (rw reads refl))

module _ (msg : Str) where
  -- The tokenizer takes the word and goes on behind it.
  abbrev pub Takes : Word → Str → Parser → Type 0
  Takes w rest parser =
      (p : Parser) × (get_next_token parser ≡ ok (p, some (text w))) × Sees msg rest p

  more_spaced :
      (space : Bool) (c : ℕ) (rest : Str) (parser : Parser)
      → Sees msg (spaced msg space (c ∷ rest)) parser
      → (ltb parser.pos (length parser.string) ≡ true) × (1 < length parser.string + 1)
  more_spaced false c rest parser sees = (more_left sees, omega (arith, length-Sees sees))
  more_spaced true c rest parser sees = (more_left sees, omega (arith, length-Sees sees))

  pub get_next_token-Takes :
      (space : Bool) (w : Word) (rest : Str) (parser : Parser)
      → Sees msg (spaced msg space (spell w ++ rest)) parser
      → is_word w ≡ true
      → is_break rest ≡ true
      → Takes w rest parser
  unfolding is_space is_quote
  get_next_token-Takes space (bare (c ∷ s)) rest parser sees word break =
      let (no_quote, no_nul, spaceless, plain) = word-start c s word in
      let (more, enough) = more_spaced space c (s ++ rest) parser sees in
      let (p, skips, sees') =
        skip_loop-Sees msg (length parser.string + 1) space c (s ++ rest) parser sees plain
          enough in
      let fuel : length (c ∷ s) < length p.string + 1 =
        omega (arith, length-Sees sees', length-append s rest) in
      let (r, reads, (e, sees'')) =
        id_loop-Took msg (length p.string + 1) p [] (c ∷ s) rest sees' spaceless break fuel in
      (
        r.0,
        bare_token parser p r.0 (c ∷ s) more skips (ap (λ x. x == 0) sees'.here ∙ no_nul)
            (ap is_quote sees'.here ∙ no_quote) (reads ∙ ap (λ t. ok (r.0, t)) e),
        sees'',
      )
  get_next_token-Takes space (quoted s) rest parser sees word break =
      let whole : (b'"' ∷ (s ++ b'"' ∷ [])) ++ rest ≡ b'"' ∷ (s ++ b'"' ∷ rest) =
        ap (λ t. b'"' ∷ t) (append_assoc s (b'"' ∷ []) rest) in
      let sees0 = subst (λ t. Sees msg (spaced msg space t) parser) whole sees in
      let (more, enough) = more_spaced space b'"' (s ++ b'"' ∷ rest) parser sees0 in
      let (p, skips, sees') =
        skip_loop-Sees msg (length parser.string + 1) space b'"' (s ++ b'"' ∷ rest) parser sees0
          quote_no_space enough in
      let (r, reads, (e, sees'')) = parse_string-Took msg p s rest sees' word in
      (
        r.0,
        quoted_token parser p r.0 s more skips (ap (λ x. x == 0) sees'.here)
            (ap is_quote sees'.here ∙ quote_quotes) (reads ∙ ap (λ t. ok (r.0, t)) e),
        sees'',
      )
    where
      quote_no_space : is_space b'"' ≡ false
      quote_no_space = refl

      quote_quotes : is_quote b'"' ≡ true
      quote_quotes = refl
  get_next_token-Takes space (bare []) rest parser sees word break = cc

  pub no_token :
      (newline : Bool) (parser : Parser)
      → Sees msg (line_end newline) parser
      → (p : Parser) × (get_next_token parser ≡ ok (p, none))
  unfolding get_next_token is_space
  no_token false parser sees =
      let past : ltb parser.pos (length parser.string) ≡ false = ground (arith, length-Sees sees) in
      (parser, rw past refl)
  no_token true parser sees =
      let (p, skips, ends) =
        skip_loop-end msg (length parser.string + 1) parser sees
          (omega (arith, length-Sees sees)) in
      (p, rw (more_left sees) (rw skips (rw ends refl)))
