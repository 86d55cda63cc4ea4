-- ===== src/Parser/Spelled.antt =====
-- A command that is written out, word by word, is read back by `parse`.
use hyperkv.Base.{
  ℕ, zero, suc, ◌+◌, ◌-◌, ◌<◌, Bool, true, false, List, [], ◌∷◌, ◌++◌, map, some, ◌≡◌, refl, ◌∙◌,
  ap, arith, ok, Str, length, length-append,
}
use hyperkv.Parser.{count_loop, get_argc, arg_loop, command_type, parse}
use hyperkv.Parser.Tokens.{Parser, parser_init, get_next_token}
use hyperkv.Parser.Words.{Word, text, spell, is_word, Sees, begins}
use hyperkv.Parser.Taken.{
  all_words, spell_rest, rest_breaks, length-spell_rest, spell_pos, first_good,
  get_next_token-Takes, no_token,
}

-- The loops on a token.
count_step :
    (fuel argc : ℕ) (parser p : Parser) (token : Str)
    → get_next_token parser ≡ ok (p, some token)
    → count_loop (suc fuel) parser argc ≡ count_loop fuel p (argc + 1)
unfolding count_loop
count_step fuel argc parser p token run = rw run refl

arg_step :
    (argc : ℕ) (parser p : Parser) (token : Str) (args : List Str)
    → get_next_token parser ≡ ok (p, some token)
    → arg_loop argc p ≡ ok args
    → arg_loop (suc argc) parser ≡ ok (token ∷ args)
unfolding arg_loop
arg_step argc parser p token args run rest = rw run (rw rest refl)

parse_steps :
    (msg : Str) (p : Parser) (name : Str) (argc : ℕ) (args : List Str)
    → get_next_token (parser_init msg) ≡ ok (p, some name)
    → get_argc p ≡ ok (suc argc)
    → arg_loop argc p ≡ ok args
    → parse msg ≡ ok (record { type = command_type name; argv = args })
unfolding parse
parse_steps msg p name argc args first count rest =
    let left : suc argc - 1 ≡ argc = omega arith in rw first (rw count (rw left (rw rest refl)))

module _ (msg : Str) where
  count_loop-words :
      (newline : Bool) (fuel : ℕ) (words : List Word) (parser : Parser) (argc : ℕ)
      → Sees msg (spell_rest newline words) parser
      → all_words words ≡ true
      → length words < fuel
      → count_loop fuel parser argc ≡ ok (argc + length words)
  unfolding count_loop
  count_loop-words newline (suc fuel) [] parser argc sees good enough =
      let (p, ends) = no_token msg newline parser sees in rw ends (ap ok (omega arith))
  count_loop-words newline (suc fuel) (w ∷ words) parser argc sees good enough =
      let (word, good') = first_good w words good in
      let (p, run, sees') =
        get_next_token-Takes msg true w (spell_rest newline words) parser sees word
          (rest_breaks newline words) in
      count_step fuel argc parser p (text w) run
      ∙ (count_loop-words newline fuel words p (argc + 1) sees' good' (omega arith)
          ∙ ap ok (omega arith))
  count_loop-words newline zero words parser argc sees good enough = absurd (omega arith)

  arg_loop-words :
      (newline : Bool) (words : List Word) (parser : Parser)
      → Sees msg (spell_rest newline words) parser
      → all_words words ≡ true
      → arg_loop (length words) parser ≡ ok (map text words)
  unfolding arg_loop
  arg_loop-words newline [] parser sees good = refl
  arg_loop-words newline (w ∷ words) parser sees good =
      let (word, good') = first_good w words good in
      let (p, run, sees') =
        get_next_token-Takes msg true w (spell_rest newline words) parser sees word
          (rest_breaks newline words) in
      arg_step (length words) parser p (text w) (map text words) run
        (arg_loop-words newline words p sees' good')

abbrev pub spell_command : Bool → Word → List Word → Str
spell_command newline name words = spell name ++ spell_rest newline words

module _ (newline : Bool) (name : Word) (words : List Word) (named : is_word name ≡ true)
    (good : all_words words ≡ true) where
  -- The tokens are counted from the start of the message.
  get_argc-words :
      (p : Parser)
      → Sees (spell_command newline name words) (spell_rest newline words) p
      → get_argc p ≡ ok (suc (length words))
  unfolding get_argc
  get_argc-words p sees =
      let msg = spell_command newline name words in
      let (p', run, sees') =
        get_next_token-Takes msg false name (spell_rest newline words) (parser_init msg) begins
          named (rest_breaks newline words) in
      let enough : length words < length msg = omega (
        arith,
        length-append (spell name) (spell_rest newline words),
        length-spell_rest newline words,
        length-spell,
      ) in
      ap (λ s. count_loop (length s + 1) (parser_init s) 0) sees.string
      ∙ (ap (λ n. count_loop n (parser_init msg) 0) one_more
          ∙ (count_step (length msg) 0 (parser_init msg) p' (text name) run
              ∙ (count_loop-words msg newline (length msg) words p' (0 + 1) sees' good enough
                  ∙ ap ok (omega arith))))
    where
      one_more :
          length (spell_command newline name words) + 1
          ≡ suc (length (spell_command newline name words))
      one_more = omega arith

      length-spell : 0 < length (spell name)
      length-spell = spell_pos name named

  -- A command, as its name and the arguments behind it, each after one space, with or without a newline
  -- at the end, is read back as the command of that name with those arguments, where every one of them
  -- is a word.
  pub parse-spell :
      parse (spell_command newline name words)
      ≡ ok (record { type = command_type (text name); argv = map text words })
  parse-spell =
      let msg = spell_command newline name words in
      let (p, run, sees) =
        get_next_token-Takes msg false name (spell_rest newline words) (parser_init msg) begins
          named (rest_breaks newline words) in
      parse_steps msg p (text name) (length words) (map text words) run (get_argc-words p sees)
        (arg_loop-words msg newline words p sees good)
