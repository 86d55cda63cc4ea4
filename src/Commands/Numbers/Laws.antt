-- ===== src/Commands/Numbers/Laws.antt =====
-- What `exec_incr`, `exec_decr`, `exec_incrby` and `exec_decrby` make of a stored number and of a
-- missing key.
use hyperkv.Base.{
  ◌<◌, true, [], ◌∷◌, ℤ, pos, ◌+ℤ◌, ◌-ℤ◌, int_ℤ, none, some, ◌≡◌, refl, sym, ◌∙◌, arith, Run, ok,
  Returns, Str, str_eq, if◌then◌else◌, int_max, pos_part, neg_part,
}
use hyperkv.Commands.{with_type}
use hyperkv.Commands.Numbers.{
  store_number, exec_incr, exec_decr, incrby_from, decrby_from, is_number_at, strtoi_at,
  exec_incrby, exec_decrby,
}
use hyperkv.Commands.Typed.{with_type_string}
use hyperkv.Helper.Number.{print_int}
use hyperkv.Helper.Number.Digits.{intostr-ok}
use hyperkv.Helper.Number.Print.{strtoi-print_int}
use hyperkv.HTable.Valid.{IsValid, HasRoom}
use hyperkv.Reply.{reply_integer}
use hyperkv.Slots.View.{view}
use hyperkv.Strings.{htable_set, htable_get}
use hyperkv.Strings.Laws.{
  htable_set-IsValid, htable_get-set, htable_get-view, takes_string, NoneStuck,
}
use hyperkv.Value.{Store, str_t}

-- The key holds the number, and every other key reads as before.
abbrev pub Counts : Store → Str → ℤ → Store → Type 0
Counts ht key x r =
    IsValid r
    × ((q : Str)
        → htable_get r q ≡ (if str_eq key q then ok (some (print_int x)) else htable_get ht q))

-- The integer and its negation are an `int`.
abbrev pub Fits : ℤ → Type 0
Fits x = (pos_part x < int_max) × (neg_part x < int_max)

int_ℤ-ok : (x : ℤ) → Fits x → int_ℤ x ≡ ok x
unfolding int_ℤ
int_ℤ-ok (pos n) fits = let low : n < int_max = fits.0 in ground arith
int_ℤ-ok (ℤ.negsuc n) fits = let low : n < int_max = omega (arith, fits.1) in ground arith

module _ (ht : Store) (valid : IsValid ht) (room : HasRoom ht) (key : Str)
    (free : takes_string (view ht.items key) ≡ true) where
  store_number-Counts :
      (x : ℤ)
      → Fits x
      → ((r : Store)
          → htable_set ht key (print_int x) ≡ ok (r, true)
          → view ht.items key ≡ none
          → NoneStuck ht key r)
      → Returns (store_number ht key x) λ r. Counts ht key x r.0 × (r.1 ≡ reply_integer x)
  unfolding store_number
  store_number-Counts x fits moves =
      let ((r, flag), run, (valid', taken, _, _)) =
        htable_set-IsValid ht valid key room (print_int x) in
      let accepted : htable_set ht key (print_int x) ≡ ok (r, true) = cc (run, taken, free) in
      (
        (r, reply_integer x),
        rw (intostr-ok x fits.0 fits.1) (rw accepted refl),
        (
          (valid', htable_get-set ht valid room key (print_int x) accepted (moves r accepted)),
          refl,
        ),
      )

module _ (ht : Store) (valid : IsValid ht) (room : HasRoom ht) (key : Str) where
  passes :
      (body : Run (Store × Str))
      → takes_string (view ht.items key) ≡ true
      → with_type ht key "string" body ≡ body
  passes = with_type_string ht valid (omega arith) key

  module _ (x : ℤ) (fits : Fits x) (holds : view ht.items key ≡ some (str_t (print_int x))) where
    stored : htable_get ht key ≡ ok (some (print_int x))
    stored = htable_get-view ht valid key (omega arith) ∙ rw holds refl

    store :
        (tmp : ℤ)
        → Fits tmp
        → Returns (store_number ht key tmp) λ r. Counts ht key tmp r.0 × (r.1 ≡ reply_integer tmp)
    store tmp fits' =
        store_number-Counts ht valid room key (rw holds refl) tmp fits'
          (λ _ run absent. let no : some (str_t (print_int x)) ≡ none = sym holds ∙ absent in cc)

    -- On a valid table with room to grow, `exec_incr` of a key that holds an `int` above the least,
    -- whose successor is an `int`, stores the successor, replies it, and leaves what every other key reads.
    pub exec_incr-Counts :
        Fits (x +ℤ pos 1)
        → Returns
            (exec_incr ht (key ∷ []))
            λ r. Counts ht key (x +ℤ pos 1) r.0 × (r.1 ≡ reply_integer (x +ℤ pos 1))
    unfolding exec_incr
    exec_incr-Counts fits' =
        let (number, read) = strtoi-print_int x fits.0 fits.1 in
        rw (passes _ (rw holds refl), stored, number, read, int_ℤ-ok (x +ℤ pos 1) fits')
          (store (x +ℤ pos 1) fits')

    -- What `exec_incr` does with the successor `exec_decr` does with the predecessor, where it is an
    -- `int` above the least.
    pub exec_decr-Counts :
        Fits (x -ℤ pos 1)
        → Returns
            (exec_decr ht (key ∷ []))
            λ r. Counts ht key (x -ℤ pos 1) r.0 × (r.1 ≡ reply_integer (x -ℤ pos 1))
    unfolding exec_decr
    exec_decr-Counts fits' =
        let (number, read) = strtoi-print_int x fits.0 fits.1 in
        rw (passes _ (rw holds refl), stored, number, read, int_ℤ-ok (x -ℤ pos 1) fits')
          (store (x -ℤ pos 1) fits')

    module _ (y : ℤ) (fits_y : Fits y) where
      -- On a valid table with room to grow, where a key holds an `int` above the least, the amount is
      -- one, and the sum and the difference are too, `exec_incrby` stores and replies the sum,
      -- `exec_decrby` the difference, and each leaves what every other key reads.
      pub incrby-decrby-Counts :
          Fits (x +ℤ y)
          → Fits (x -ℤ y)
          → (Returns
              (exec_incrby ht (key ∷ print_int y ∷ []))
              λ r. Counts ht key (x +ℤ y) r.0 × (r.1 ≡ reply_integer (x +ℤ y)))
            × (Returns
                (exec_decrby ht (key ∷ print_int y ∷ []))
                λ r. Counts ht key (x -ℤ y) r.0 × (r.1 ≡ reply_integer (x -ℤ y)))
      unfolding exec_incrby exec_decrby incrby_from decrby_from is_number_at strtoi_at
      incrby-decrby-Counts sum difference =
          let (number, read) = strtoi-print_int x fits.0 fits.1 in
          let (number', read') = strtoi-print_int y fits_y.0 fits_y.1 in
          (
            rw
                (
                  passes _ (rw holds refl),
                  stored,
                  number,
                  number',
                  read,
                  read',
                  int_ℤ-ok (x +ℤ y) sum,
                )
                (store (x +ℤ y) sum),
            rw
                (
                  passes _ (rw holds refl),
                  stored,
                  number,
                  number',
                  read,
                  read',
                  int_ℤ-ok (x -ℤ y) difference,
                )
                (store (x -ℤ y) difference),
          )

  module _ (absent : view ht.items key ≡ none) (y : ℤ) (fits : Fits y)
      (moves : (r : Store)
        → htable_set ht key (print_int y) ≡ ok (r, true)
        → NoneStuck ht key r) where
    missing : htable_get ht key ≡ ok none
    missing = htable_get-view ht valid key (omega arith) ∙ rw absent refl

    -- On a key that a valid table with room to grow does not hold, with an amount that is an `int`
    -- above the least, `exec_incrby` and `exec_decrby` both store and reply the amount itself (neither
    -- negates it), and leave what every other key reads. The key is not stuck at its home, and neither
    -- it nor any key held is stuck in an array that has grown for it.
    pub exec_decrby-Counts :
        (Returns
          (exec_incrby ht (key ∷ print_int y ∷ []))
          λ r. Counts ht key y r.0 × (r.1 ≡ reply_integer y))
        × (Returns
            (exec_decrby ht (key ∷ print_int y ∷ []))
            λ r. Counts ht key y r.0 × (r.1 ≡ reply_integer y))
    unfolding exec_incrby exec_decrby incrby_from decrby_from
    exec_decrby-Counts =
        let (number, read) = strtoi-print_int y fits.0 fits.1 in
        let stores =
          store_number-Counts ht valid room key (rw absent refl) y fits (λ r run _. moves r run) in
        (
          rw (passes _ (rw absent refl), missing, number, read) stores,
          rw (passes _ (rw absent refl), missing, number, read) stores,
        )
