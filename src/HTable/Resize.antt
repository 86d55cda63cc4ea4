-- ===== src/HTable/Resize.antt =====
-- `htable_resize`: the entries move into a fresh array of another prime size.
use mathlib.Core.Option.{or_else}
use hyperkv.Base.{
  ℕ, suc, ◌+◌, ◌≤◌, List, [], ◌∷◌, Option, none, some, ◌≡◌, ◌≢◌, refl, ◌∙◌, ap, arith, true, false,
  Bool, Str, str_eq, eq_of_str_eq, str_eq_refl, Run, Returns, if◌then◌else◌, Bool-cases, inl, inr,
  ◌⊎◌, subst, replicate, ltb,
}
use hyperkv.Helper.Hash.{max_size, sdbm}
use hyperkv.Helper.Prime.{is_prime}
use hyperkv.Helper.Prime.Next.{IsNextPrime, next_prime-IsNextPrime}
use hyperkv.Helper.Prime.Sound.{is_prime_iff}
use hyperkv.HTable.{HashTable, htable_init, move_items, resize_by}
use hyperkv.HTable.Insert.{Light, Inserted, InsertsLightly}
use hyperkv.Slots.{Slot, empty, deleted, item, live}
use hyperkv.Slots.Count.{live-replicate}
use hyperkv.Slots.Path.{IsArranged, replicate-IsArranged, replicate-Lacks}
use hyperkv.Slots.View.{Unique, view, view-Lacks, Lacks-view}

-- The largest prime at which the hashes cannot overflow.
largest_prime : is_prime 46337 ≡ true
unfolding is_prime
largest_prime = refl

module _ {ℓ} {V : Type ℓ} where
  -- No key of the slots is stuck at its home in a table of the size.
  abbrev pub AllMove : List (Slot V) → ℕ → Type ℓ
  AllMove items size = (q : Str) (v : V) → view items q ≡ some v → sdbm q size ≢ 0

  -- The outcome of moving `items` into `fresh`.
  record Moved (items : List (Slot V)) (fresh r : HashTable V) : Type ℓ where
    size : r.size ≡ fresh.size
    arranged : IsArranged r.size r.items
    counted : live r.items + fresh.used ≡ live fresh.items + r.used
    used : r.used ≤ fresh.used + live items
    partly :
        (q : Str)
        → (view r.items q ≡ or_else (view fresh.items q) (view items q))
          ⊎ (view r.items q ≡ view fresh.items q)
    views :
        AllMove items fresh.size
        → (q : Str) → view r.items q ≡ or_else (view fresh.items q) (view items q)

  Unique-tail : (s : Slot V) (items : List (Slot V)) → Unique (s ∷ items) → Unique items
  Unique-tail s items unique p q key v w h h' =
      let e = unique (suc p) (suc q) key v w h h' in omega arith

  Unique-head :
      (k : Str) (v : V) (items : List (Slot V)) → Unique (item k v ∷ items) → view items k ≡ none
  Unique-head k v items unique =
      view-Lacks items k λ p w h. (let e = unique 0 (suc p) k v w refl h in omega arith)

  abbrev Apart : List (Slot V) → List (Slot V) → Type ℓ
  Apart items fresh = (q : Str) (v : V) → view items q ≡ some v → view fresh q ≡ none

  -- The lookups of one key: in the fresh table, among the items that are left, and after the first
  -- of them has moved.
  module _ (v : V) (same : Bool) (in_fresh in_rest in_first in_last : Option V)
      (out_fresh : same ≡ true → in_fresh ≡ none) (out_rest : same ≡ true → in_rest ≡ none) where
    first_apart :
        (w : V)
        → (in_first ≡ (if same then some v else in_fresh)) ⊎ (in_first ≡ in_fresh)
        → ((if same then some v else in_rest) ≡ some w → in_fresh ≡ none)
        → in_rest ≡ some w
        → in_first ≡ none
    first_apart w first apart h = ground arith

    last_partly :
        (in_first ≡ (if same then some v else in_fresh)) ⊎ (in_first ≡ in_fresh)
        → (in_last ≡ or_else in_first in_rest) ⊎ (in_last ≡ in_first)
        → (in_last ≡ or_else in_fresh (if same then some v else in_rest)) ⊎ (in_last ≡ in_fresh)
    unfolding or_else
    last_partly first last = ground arith

    last_views :
        in_first ≡ (if same then some v else in_fresh)
        → in_last ≡ or_else in_first in_rest
        → in_last ≡ or_else in_fresh (if same then some v else in_rest)
    unfolding or_else
    last_views first last = ground arith

  -- A lookup that finds nothing finds nothing under an equal key.
  view_of :
      (k : Str) (items : List (Slot V))
      → view items k ≡ none
      → (q : Str) → str_eq k q ≡ true
      → view items q ≡ none
  view_of k items h q e = subst (λ t. view items t ≡ none) (eq_of_str_eq k q e) h

  first_cases :
      {fresh r : HashTable V} {key : Str} {v : V}
      → Inserted fresh key v r
      → (q : Str)
      → (view r.items q ≡ (if str_eq key q then some v else view fresh.items q))
        ⊎ (view r.items q ≡ view fresh.items q)
  first_cases is q = elim is.views [
    | inl views ↦ inl (views q)
    | inr same ↦ inr (ap (λ (t : HashTable V). view t.items q) same)
  ]

  -- The outcome of a resize to the next prime from `new_size` on.
  pub record Resized (ht : HashTable V) (new_size : ℕ) (r : HashTable V) : Type ℓ where
    pub next : IsNextPrime new_size r.size
    pub small : r.size ≤ 46337
    pub used : r.used ≡ ht.used
    pub arranged : IsArranged r.size r.items
    pub counted : live r.items ≤ live ht.items
    pub partly : (q : Str) → (view r.items q ≡ view ht.items q) ⊎ (view r.items q ≡ none)
    pub views : AllMove ht.items r.size → (q : Str) → view r.items q ≡ view ht.items q

module _ {ℓ} {V : Type ℓ} (insert : HashTable V → Str → V → Run (HashTable V))
    (law : InsertsLightly insert) where
  move_items-Moved :
      (items : List (Slot V)) (fresh : HashTable V)
      → IsArranged fresh.size fresh.items
      → fresh.size ≤ max_size
      → Light (fresh.used + live items) fresh.size
      → live fresh.items ≤ fresh.used
      → Unique items
      → Apart items fresh.items
      → Returns (move_items insert items fresh) (Moved items fresh)
  unfolding move_items live view or_else
  move_items-Moved [] fresh arranged small light count unique apart = (
    fresh,
    refl,
    record {
      size = refl;
      arranged = arranged;
      counted = omega arith;
      used = omega arith;
      partly = λ q. inr refl;
      views = λ moves q. ground arith;
    },
  )
  move_items-Moved (empty ∷ items) fresh arranged small light count unique apart =
      let (r, run, m) =
        move_items-Moved items fresh arranged small light count (Unique-tail empty items unique)
          apart in
      (
        r,
        run,
        record {
          size = m.size;
          arranged = m.arranged;
          counted = m.counted;
          used = m.used;
          partly = m.partly;
          views = m.views;
        },
      )
  move_items-Moved (deleted ∷ items) fresh arranged small light count unique apart =
      let (r, run, m) =
        move_items-Moved items fresh arranged small light count (Unique-tail deleted items unique)
          apart in
      (
        r,
        run,
        record {
          size = m.size;
          arranged = m.arranged;
          counted = m.counted;
          used = m.used;
          partly = m.partly;
          views = m.views;
        },
      )
  move_items-Moved (item k v ∷ items) fresh arranged small light count unique apart =
      let at_key = apart k v (rw str_eq_refl) in
      let in_rest = view_of k items (Unique-head k v items unique) in
      let in_fresh = view_of k fresh.items at_key in
      let (r₁, run₁, is) =
        law fresh arranged small k v (Lacks-view fresh.items k at_key) (omega arith) in
      let size = is.size in
      let (r, run, m) =
        move_items-Moved items r₁ is.arranged (omega arith) (omega (arith, is.used))
          (omega (arith, is.counted)) (Unique-tail (item k v) items unique)
          (λ q w.
            first_apart v (str_eq k q) (view fresh.items q) (view items q) (view r₁.items q) none
              (in_fresh q) (in_rest q) w (first_cases is q) (apart q w)) in
      (
        r,
        rw run₁ run,
        record {
          size = rw (m.size, size);
          arranged = m.arranged;
          counted = omega (arith, m.counted, is.counted);
          used = omega (arith, m.used, is.used);
          partly = λ q.
              last_partly v (str_eq k q) (view fresh.items q) (view items q) (view r₁.items q)
                (view r.items q) (in_fresh q) (in_rest q) (first_cases is q) (m.partly q);
          views = λ moves q.
              last_views v (str_eq k q) (view fresh.items q) (view items q) (view r₁.items q)
                (view r.items q) (in_fresh q) (in_rest q)
                (is.stored (omega arith) (moves k v (rw str_eq_refl)) q)
                (m.views
                  (λ q w h. rw size (
                    moves q w (elim (Bool-cases (str_eq k q)) [
                      | inl e ↦ cc (in_rest q e)
                      | inr e ↦ rw e h
                    ])))
                  q);
        },
      )

  pub resize_by-Resized :
      (ht : HashTable V) (new_size : ℕ)
      → Unique ht.items
      → 2 ≤ new_size
      → new_size ≤ 46337
      → Light (live ht.items) new_size
      → Returns (resize_by insert ht new_size) (Resized ht new_size)
  unfolding resize_by htable_init or_else
  resize_by-Resized ht new_size unique two fits light =
      let (size, found, (next, le)) =
        next_prime-IsNextPrime new_size 46337 fits (omega arith) largest_prime two in
      let start = replicate-IsArranged {V = V} size ((is_prime_iff size).0 next.prime) in
      let nothing =
        λ (q : Str). view-Lacks (replicate size empty) q (replicate-Lacks {V = V} size q) in
      let (r, run, m) =
        move_items-Moved ht.items (record { size = size; used = 0; items = replicate size empty })
          start (omega arith) (omega (arith, next.above)) (omega (arith, live-replicate V size))
          unique (λ q v h. nothing q) in
      (
        record ht { size = r.size; items = r.items },
        (let enough : ltb new_size 2 ≡ false = ground arith in rw (enough, found, run)),
        record {
          next = rw m.size next;
          small = rw m.size le;
          used = refl;
          arranged = m.arranged;
          counted = omega (arith, m.counted, m.used, live-replicate V size);
          partly = λ q. ground (arith, m.partly q, nothing q);
          views = λ moves q.
              m.views (rw m.size at moves) q ∙ ap (λ o. or_else o (view ht.items q)) (nothing q);
        },
      )
