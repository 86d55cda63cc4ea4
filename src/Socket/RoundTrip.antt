-- ===== src/Socket/RoundTrip.antt =====
-- What `readline` makes of the bytes that `writeline` has sent.
use mathlib.Core.List.{append_assoc, append-nil}
use hyperkv.Base.{
  ℕ, zero, suc, ◌+◌, ◌≤◌, Bool, true, false, ◌&&◌, not, List, [], ◌∷◌, ◌++◌, ◌≡◌, refl, sym, ◌∙◌,
  ap, arith, ok, fault, Fault, Str, take, drop, drop_last, take_long, drop_last-snoc, length,
  length-append, ◌==◌, if◌then◌else◌, leb, Bool-cases, inl, inr,
}
use hyperkv.Socket.{until_nul, received, readline, writeline, buffer_size}

abbrev pub no_nul : Str → Bool
no_nul [] = true
no_nul (c ∷ str) = not (c == 0) && no_nul str

until_nul-append :
    (msg : Str) (rest : List ℕ) → no_nul msg ≡ true → until_nul (msg ++ 0 ∷ rest) ≡ ok msg
unfolding until_nul
until_nul-append [] rest h = refl
until_nul-append (c ∷ msg) rest h =
    let plain : (c == 0) ≡ false = ground arith in
    rw (plain, until_nul-append msg rest (ground arith)) refl

until_nul-overrun : (msg : Str) → no_nul msg ≡ true → until_nul msg ≡ fault Fault.out_of_bounds
unfolding until_nul
until_nul-overrun [] h = refl
until_nul-overrun (c ∷ msg) h =
    let plain : (c == 0) ≡ false = ground arith in
    rw (plain, until_nul-overrun msg (ground arith)) refl

no_nul-snoc : (msg : Str) → no_nul msg ≡ true → no_nul (msg ++ 10 ∷ []) ≡ true
no_nul-snoc [] h = refl
no_nul-snoc (c ∷ msg) h = ground (arith, no_nul-snoc msg)

no_nul-take :
    (n : ℕ) (msg : Str) (rest : List ℕ)
    → n ≤ length msg
    → no_nul msg ≡ true
    → no_nul (take n (msg ++ rest)) ≡ true
no_nul-take zero msg rest low h = refl
no_nul-take (suc n) [] rest low h = absurd (omega arith)
no_nul-take (suc n) (c ∷ msg) rest low h = ground (arith, no_nul-take n msg rest)

drop_long : (n : ℕ) (xs : List ℕ) → length xs ≤ n → drop n xs ≡ []
drop_long zero [] h = refl
drop_long zero (x ∷ xs) h = absurd (omega arith)
drop_long (suc n) [] h = refl
drop_long (suc n) (x ∷ xs) h = drop_long n xs (omega arith)

readline-line :
    (msg : Str) (rest : List ℕ)
    → no_nul msg ≡ true
    → readline ((msg ++ 10 ∷ []) ++ 0 ∷ rest) ≡ ok msg
unfolding readline
readline-line msg rest h =
    rw (until_nul-append (msg ++ 10 ∷ []) rest (no_nul-snoc msg h)) (last msg)
  where
    last :
        (msg : Str)
        → elim (msg ++ 10 ∷ []) [
          | [] ↦ fault Fault.out_of_bounds
          | c ∷ rest ↦ ok (drop_last (c ∷ rest))
        ]
          ≡ ok msg
    last [] = refl
    last (c ∷ msg) = ap ok (drop_last-snoc (c ∷ msg) 10)

readline-overrun :
    (buffer : List ℕ) → no_nul buffer ≡ true → readline buffer ≡ fault Fault.out_of_bounds
unfolding readline
readline-overrun buffer h = rw (until_nul-overrun buffer h) refl

module _ (msg old : Str) (h : no_nul msg ≡ true) (room : length old ≡ buffer_size) where
  sent : length (msg ++ 10 ∷ 0 ∷ []) ≡ length msg + 2
  sent = length-append msg (10 ∷ 0 ∷ [])

  arrives : length msg + 2 ≤ buffer_size → readline (received (writeline msg) old) ≡ ok msg
  unfolding received writeline
  arrives fits =
      let old' = drop (length (msg ++ 10 ∷ 0 ∷ [])) old in
      ap (λ t. readline (t ++ old'))
        (take_long buffer_size (msg ++ 10 ∷ 0 ∷ []) (omega (arith, sent)))
      ∙ (ap readline
            (append_assoc msg (10 ∷ 0 ∷ []) old' ∙ sym (append_assoc msg (10 ∷ []) (0 ∷ old')))
          ∙ readline-line msg old' h)

  overruns :
      buffer_size ≤ length msg + 1
      → readline (received (writeline msg) old) ≡ fault Fault.out_of_bounds
  unfolding received writeline
  overruns long =
      let gone : drop (length (msg ++ 10 ∷ 0 ∷ [])) old ≡ [] =
        drop_long _ old (omega (arith, sent, room)) in
      let filled = take buffer_size ((msg ++ 10 ∷ []) ++ 0 ∷ []) in
      ap (λ t. readline (take buffer_size (msg ++ 10 ∷ 0 ∷ []) ++ t)) gone
      ∙ (ap readline (append-nil (take buffer_size (msg ++ 10 ∷ 0 ∷ [])))
          ∙ (ap (λ t. readline (take buffer_size t)) (sym (append_assoc msg (10 ∷ []) (0 ∷ [])))
              ∙ readline-overrun filled (
                  no_nul-take buffer_size (msg ++ 10 ∷ []) (0 ∷ [])
                    (omega (arith, long, length-append msg (10 ∷ []))) (no_nul-snoc msg h))))

  -- Whatever the buffer of 1024 bytes held, a message with no NUL in it that fits the buffer with its
  -- newline and its NUL arrives as it was sent; any longer one makes `readline` read past the
  -- buffer.
  pub readline-writeline :
      readline (received (writeline msg) old)
      ≡ (if leb (length msg + 2) buffer_size then ok msg else fault Fault.out_of_bounds)
  readline-writeline = elim (Bool-cases (leb (length msg + 2) buffer_size)) [
    | inl e ↦ rw e (arrives (ground arith))
    | inr e ↦ rw e (overruns (ground arith))
  ]
