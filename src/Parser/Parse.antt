-- ===== src/Parser/Parse.antt =====
-- `parse` ends on every message: the arguments are as many as the tokens counted before.
use hyperkv.Base.{
  ℕ, zero, suc, ◌+◌, ◌-◌, ◌<◌, ◌≤◌, [], ◌∷◌, Option, none, some, ◌≡◌, refl, sym, ap, subst, arith,
  ok, Returns, Str, length, ◌⊎◌, inl, inr,
}
use hyperkv.Parser.{CommandType, count_loop, get_argc, arg_loop, command_type, parse}
use hyperkv.Parser.Tokens.{Parser, parser_init, get_next_token}
use hyperkv.Parser.Total.{Stands, Next, get_next_token-Next}

-- The tokenizer finds `k` tokens, one after the other.
abbrev HasTokens : Parser → ℕ → Type 0
HasTokens parser zero = Unit
HasTokens parser (suc k) =
    (next : Parser) × (token : Str) × (get_next_token parser ≡ ok (next, some token))
    × HasTokens next k

module _ (msg : Str) where
  begins : Stands msg (parser_init msg)
  unfolding parser_init
  begins = record { string = refl; within = omega arith; here = refl }

  abbrev Counted : Parser → ℕ → ℕ → Type 0
  Counted parser argc n =
      (k : ℕ) × (n ≡ argc + k) × HasTokens parser k × (k + parser.pos ≤ length msg)

  count_loop-Counted :
      (fuel : ℕ) (parser : Parser) (argc : ℕ)
      → Stands msg parser
      → length msg < fuel + parser.pos
      → Returns (count_loop fuel parser argc) (Counted parser argc)
  unfolding count_loop
  count_loop-Counted zero parser argc stands enough = absurd (omega (arith, stands.within))
  count_loop-Counted (suc fuel) parser argc stands enough =
      let ((next, token), run, z) = get_next_token-Next msg parser stands in
      go (λ next s low. count_loop-Counted fuel next (argc + 1) s low) next token run z
    where
      go :
          ((next : Parser)
            → Stands msg next
            → length msg < fuel + next.pos
            → Returns (count_loop fuel next (argc + 1)) (Counted next (argc + 1)))
          → (next : Parser) (token : Option Str) → get_next_token parser ≡ ok (next, token)
          → Next msg parser.pos (next, token)
          → Returns (count_loop (suc fuel) parser argc) (Counted parser argc)
      go later next none run z =
          (argc, rw run refl, (0, omega arith, tt, omega (arith, stands.within)))
      go later next (some token) run (s, le) =
          let (n, run', (k, e, has, low)) = later next s (omega arith) in
          (n, rw run run', (suc k, omega arith, (next, token, run, has), omega arith))

  get_argc-Counted :
      (parser : Parser)
      → parser.string ≡ msg
      → Returns (get_argc parser) (Counted (parser_init msg) 0)
  unfolding get_argc parser_init
  get_argc-Counted parser e =
      subst
        (λ s. Returns (count_loop (length s + 1) (parser_init s) 0) (Counted (parser_init msg) 0))
        (sym e) (count_loop-Counted (length msg + 1) (parser_init msg) 0 begins (omega arith))

  arg_loop-length :
      (k : ℕ) (parser : Parser)
      → HasTokens parser k
      → Returns (arg_loop k parser) λ args. length args ≡ k
  unfolding arg_loop
  arg_loop-length zero parser has = ([], refl, refl)
  arg_loop-length (suc k) parser (next, token, run, has) =
      let (args, run', e) = arg_loop-length k next has in
      (token ∷ args, rw run (rw run' refl), ap suc e)

  -- `parse` ends on every message without a fault, with fewer arguments than the message has
  -- characters, or with no command and no arguments.
  pub parse_total :
      Returns (parse msg) λ cmd.
        (length cmd.argv < length msg) ⊎ (cmd ≡ record { type = CommandType.noop; argv = [] })
  unfolding parse
  parse_total =
      let ((next, token), run, z) = get_next_token-Next msg (parser_init msg) begins in
      let (n, run', counted) = get_argc-Counted next (z.0.string) in
      go next token n run run' counted z
    where
      go :
          (next : Parser) (token : Option Str) (n : ℕ)
          → get_next_token (parser_init msg) ≡ ok (next, token)
          → get_argc next ≡ ok n
          → Counted (parser_init msg) 0 n
          → Next msg (parser_init msg).pos (next, token)
          → Returns (parse msg) λ cmd.
            (length cmd.argv < length msg) ⊎ (cmd ≡ record { type = CommandType.noop; argv = [] })
      go next none n run run' counted z =
          (record { type = CommandType.noop; argv = [] }, rw (run, run') refl, inr refl)
      go next (some token) n run run' (zero, e, has, low) (s, le) =
          let none_left : n - 1 ≡ 0 = omega arith in
          (
            record { type = command_type token; argv = [] },
            rw (run, run', none_left) refl,
            inl (omega (arith, s.within)),
          )
      go next (some token) n run run' (suc k, e, (next', token', again, has), low) (s, le) =
          let same : next' ≡ next = cc in
          let (args, reads, len) = arg_loop-length k next (rw (← same) has) in
          let left : n - 1 ≡ k = omega arith in
          (
            record { type = command_type token; argv = args },
            rw (run, run', left) (rw reads refl),
            inl (omega arith),
          )
