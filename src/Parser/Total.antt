-- ===== src/Parser/Total.antt =====
-- The tokenizer ends, and `parse` reads a command off every message.
use hyperkv.Base.{
  ℕ, zero, suc, ◌+◌, ◌<◌, ◌≤◌, true, false, not, ◌&&◌, [], ◌∷◌, ◌++◌, Option, none, some, ◌≡◌, ◌≢◌,
  refl, ◌∙◌, ap, arith, Run, ok, ◌>>=◌, Returns, Str, length, get_or, get_or_beyond, ltb, ◌==◌,
  if◌then◌else◌, Bool-cases, inl, inr, is_some,
}
use hyperkv.Parser.Tokens.{
  Parser, is_space, is_quote, parser_advance, id_loop, parse_id, string_loop, parse_string,
  skip_loop, get_next_token,
}

-- The parser stands in the string `msg` or at its end, and has read the character there.
pub record Stands (msg : Str) (parser : Parser) : Type 0 where
  pub string : parser.string ≡ msg
  pub within : parser.pos ≤ length msg
  pub here : parser.current_char ≡ get_or msg parser.pos 0

-- It stands at or behind `pos`.
abbrev pub From : Str → ℕ → Parser → Type 0
From msg pos parser = Stands msg parser × (pos ≤ parser.pos)

module _ (msg : Str) where
  advance :
      (parser : Parser)
      → Stands msg parser
      → parser.pos < length msg
      → (Stands msg (parser_advance parser)) × ((parser_advance parser).pos ≡ parser.pos + 1)
  unfolding parser_advance
  advance parser stands low =
      let e : ltb parser.pos (length parser.string) ≡ true = rw stands.string (ground arith) in
      rw e (
        record {
          string = stands.string;
          within = omega arith;
          here = ap (λ s. get_or s (parser.pos + 1) 0) stands.string;
        },
        refl,
      )

  -- A character that is not NUL lies within.
  not_end :
      (parser : Parser) → Stands msg parser → parser.current_char ≢ 0 → parser.pos < length msg
  not_end parser stands some_char = elim (Bool-cases (ltb parser.pos (length msg))) [
    | inl low ↦ ground arith
    | inr high ↦ absurd (some_char (stands.here ∙ get_or_beyond msg parser.pos 0 (ground arith)))
  ]

  skip_loop-From :
      (fuel : ℕ) (parser : Parser)
      → Stands msg parser
      → length msg < fuel + parser.pos
      → Returns
          (skip_loop fuel parser)
          λ r. From msg parser.pos r × (is_space r.current_char ≡ false)
  unfolding skip_loop
  skip_loop-From zero parser stands enough = absurd (omega (arith, stands.within))
  skip_loop-From (suc fuel) parser stands enough =
      elim (Bool-cases (is_space parser.current_char)) [
        | inl space ↦
            let low = not_end parser stands (λ e. cc (ap is_space e, end_no_space)) in
            let (stands', step) = advance parser stands low in
            let (r, run, ((s, le), plain)) =
              skip_loop-From fuel (parser_advance parser) stands' (omega (arith, step)) in
            (r, rw space run, ((s, omega (arith, step)), plain))
        | inr other ↦ (parser, rw other refl, ((stands, omega arith), other))
      ]
    where
      end_no_space : is_space 0 ≡ false
      end_no_space = refl

  id_loop-From :
      (fuel : ℕ) (parser : Parser) (token : Str)
      → Stands msg parser
      → length msg < fuel + parser.pos
      → Returns (id_loop fuel parser token) λ r. From msg parser.pos r.0
  unfolding id_loop
  id_loop-From zero parser token stands enough = absurd (omega (arith, stands.within))
  id_loop-From (suc fuel) parser token stands enough =
      elim (Bool-cases
        (not (is_space parser.current_char) && ltb parser.pos (length parser.string))) [
          | inl more ↦
              let low : parser.pos < length msg = rw (← stands.string) (ground arith) in
              let (stands', step) = advance parser stands low in
              let (r, run, (s, le)) =
                id_loop-From fuel (parser_advance parser) (token ++ parser.current_char ∷ [])
                  stands' (omega (arith, step)) in
              (r, rw more run, (s, omega (arith, step)))
          | inr done ↦ ((parser, token), rw done refl, (stands, omega arith))
        ]

  string_loop-From :
      (fuel : ℕ) (parser : Parser) (token : Str)
      → Stands msg parser
      → length msg < fuel + parser.pos
      → Returns (string_loop fuel parser token) λ r. From msg parser.pos r.0
  unfolding string_loop
  string_loop-From zero parser token stands enough = absurd (omega (arith, stands.within))
  string_loop-From (suc fuel) parser token stands enough =
      elim (Bool-cases
        (not (is_quote parser.current_char) && ltb parser.pos (length parser.string))) [
          | inl more ↦
              let low : parser.pos < length msg = rw (← stands.string) (ground arith) in
              let (stands', step) = advance parser stands low in
              let (r, run, (s, le)) =
                string_loop-From fuel (parser_advance parser) (token ++ parser.current_char ∷ [])
                  stands' (omega (arith, step)) in
              (r, rw more run, (s, omega (arith, step)))
          | inr done ↦ ((parser, token), rw done refl, (stands, omega arith))
        ]

  -- An advance at the end stays there.
  may_advance : (parser : Parser) → Stands msg parser → From msg parser.pos (parser_advance parser)
  unfolding parser_advance
  may_advance parser stands = elim (Bool-cases (ltb parser.pos (length parser.string))) [
    | inl low ↦
        let within : parser.pos < length msg = rw (← stands.string) (ground arith) in
        rw low (
          record {
            string = stands.string;
            within = omega arith;
            here = ap (λ s. get_or s (parser.pos + 1) 0) stands.string;
          },
          omega arith,
        )
    | inr high ↦ rw high (stands, omega arith)
  ]

  whole : (parser : Parser) → Stands msg parser → length parser.string ≡ length msg
  whole parser stands = ap length stands.string

  -- A first character that is no space is taken.
  id_loop-moves :
      (fuel : ℕ) (parser : Parser)
      → Stands msg parser
      → parser.pos < length msg
      → is_space parser.current_char ≡ false
      → length msg < fuel + parser.pos
      → Returns (id_loop fuel parser []) λ r. From msg (parser.pos + 1) r.0
  unfolding id_loop
  id_loop-moves zero parser stands low plain enough = absurd (omega arith)
  id_loop-moves (suc fuel) parser stands low plain enough =
      let e : ltb parser.pos (length parser.string) ≡ true = ground (arith, whole parser stands) in
      let (stands', step) = advance parser stands low in
      let (r, run, (s, le)) =
        id_loop-From fuel (parser_advance parser) (parser.current_char ∷ []) stands'
          (omega (arith, step)) in
      let both : (not (is_space parser.current_char) && ltb parser.pos (length parser.string))
          ≡ true =
        rw (plain, e) refl in
      (r, rw both run, (s, omega (arith, le, step)))

  parse_string-From :
      (parser : Parser)
      → Stands msg parser
      → parser.pos < length msg
      → Returns (parse_string parser) λ r. From msg (parser.pos + 1) r.0
  unfolding parse_string
  parse_string-From parser stands low =
      let (stands', step) = advance parser stands low in
      let (r, run, (s, le)) =
        string_loop-From (length parser.string + 1) (parser_advance parser) [] stands'
          (omega (arith, step, whole parser stands)) in
      let (s', le') = may_advance r.0 s in
      ((parser_advance r.0, r.1), rw run refl, (s', omega (arith, le, le', step)))

  -- What the tokenizer does from `pos` on: it ends within the message, and further on if it has found
  -- a token.
  abbrev pub Next : ℕ → Parser × Option Str → Type 0
  Next pos r = From msg (if is_some r.1 then pos + 1 else pos) r.0

  token_of :
      {r : Run (Parser × Str)} (pos pos' : ℕ)
      → pos ≤ pos'
      → Returns r (λ x. From msg (pos' + 1) x.0)
      → Returns (r >>= λ x. ok (x.0, some x.1)) (Next pos)
  token_of pos pos' le (x, run, (s, le')) = ((x.0, some x.1), rw run refl, (s, omega arith))

  pub get_next_token-Next :
      (parser : Parser) → Stands msg parser → Returns (get_next_token parser) (Next parser.pos)
  unfolding get_next_token parse_id
  get_next_token-Next parser stands = elim (Bool-cases (ltb parser.pos (length parser.string))) [
    | inr past ↦ ((parser, none), rw past refl, (stands, omega arith))
    | inl more ↦
        let (p, run, ((s, le), plain)) =
          skip_loop-From (length parser.string + 1) parser stands
            (omega (arith, whole parser stands)) in
        rw (more, run)
          (elim (Bool-cases (p.current_char == 0)) [
            | inl e ↦ rw e ((p, none), refl, (s, le))
            | inr e ↦
                let low = not_end p s (λ z. ground arith) in
                rw e (elim (Bool-cases (is_quote p.current_char)) [
                  | inl q ↦ rw q (token_of parser.pos p.pos le (parse_string-From p s low))
                  | inr q ↦ rw q (
                      token_of parser.pos p.pos le (
                        id_loop-moves (length p.string + 1) p s low plain
                          (omega (arith, whole p s))))
                ])
          ])
  ]
