-- ===== src/HTable/Safe.antt =====
-- The table stays sound through insertions, deletions and resizes, or the run ends in an overflow. In
-- particular the insertions of a resize do not resize again.
use native.Mathlib.Nat.{div-lt_iff_lt-mul}
use hyperkv.Base.{
  ℕ, zero, suc, ◌+◌, ◌-◌, ◌*◌, ◌/◌, ◌≤◌, ◌<◌, true, List, [], ◌∷◌, ◌≡◌, refl, ◌∙◌, arith, Run,
  Fault, Str, ltb, set, length-replicate, replicate, Safe, Safe-bind, Safe-option, Safe-map,
  Safe-if, int-Safe,
}
use hyperkv.Helper.Prime.{is_prime, next_prime_loop, next_prime}
use hyperkv.HTable.{
  HashTable, htable_init, load, move_items, resize_by, resize_up_by, insert_at_depth, htable_insert,
  resize_down_by, htable_resize_down, htable_del,
}
use hyperkv.HTable.Insert.{Light}
use hyperkv.HTable.Sound.{
  AllKept, IsSound, free_loop-Safe, locate_loop-Safe, placed-IsSound, buried-IsSound,
}
use hyperkv.Slots.{Slot, empty, deleted, item, live}
use hyperkv.Slots.Count.{live-replicate, live-le-length}

next_prime_loop-Safe : (r y : ℕ) → Safe (λ p. y ≤ p) (next_prime_loop r y)
unfolding next_prime_loop
next_prime_loop-Safe zero y = Safe.fails Fault.overflow tt
next_prime_loop-Safe (suc r) y =
    Safe-if _ _ (is_prime y) (λ _. Safe.returns y (omega arith))
      (λ _. Safe-map (next_prime_loop-Safe r (y + 1)) λ p le. omega (arith, le))

next_prime-Safe : (x : ℕ) → Safe (λ p. (x ≤ p) × (2 ≤ p)) (next_prime x)
unfolding next_prime
next_prime-Safe x =
    Safe-if _ _ (ltb x 2) (λ low. Safe.returns 2 (ground arith, omega arith))
      (λ high. Safe-map (next_prime_loop-Safe _ x) λ p le. (le, ground arith))

module _ {V : Type 0} (P : V → Type 0) where
  replicate-AllKept : (n : ℕ) → AllKept P (replicate n empty)
  replicate-AllKept zero = tt
  replicate-AllKept (suc n) = (tt, replicate-AllKept n)

  pub htable_init-Safe :
      (size : ℕ)
      → Safe (λ ht. IsSound P ht × (size ≤ ht.size) × (ht.used ≡ 0)) (htable_init {V = V} size)
  unfolding htable_init
  htable_init-Safe size = Safe-bind _ (next_prime-Safe size) λ p (le, two). Safe.returns _ (
    record {
      width = length-replicate p empty;
      positive = omega arith;
      counted = omega (arith, live-replicate V p);
      kept = replicate-AllKept p;
    },
    le,
    refl,
  )

  -- What an insertion below the load does.
  abbrev pub Placed : HashTable V → HashTable V → Type 0
  Placed ht r = IsSound P r × (r.used ≤ ht.used + 1) × (r.size ≡ ht.size)

  abbrev pub InsertsSafely : (HashTable V → Str → V → Run (HashTable V)) → Type 0
  InsertsSafely insert =
      (ht : HashTable V)
      → IsSound P ht
      → Light (ht.used + 1) ht.size
      → (key : Str) (v : V) → P v
      → Safe (Placed ht) (insert ht key v)

  load-Safe : (ht : HashTable V) → Safe (λ percent. percent ≡ ht.used * 100 / ht.size) (load ht)
  unfolding load
  load-Safe ht = Safe-bind _ (int-Safe (ht.used * 100)) λ m e. Safe.returns _ (rw e refl)

  module _ (insert : HashTable V → Str → V → Run (HashTable V)) (law : InsertsSafely insert) where
    move_items-Safe :
        (items : List (Slot V)) (fresh : HashTable V)
        → AllKept P items
        → IsSound P fresh
        → Light (fresh.used + live items) fresh.size
        → Safe
            (λ r. IsSound P r × (r.used ≤ fresh.used + live items) × (r.size ≡ fresh.size))
            (move_items insert items fresh)
    unfolding move_items live
    move_items-Safe [] fresh kept sound light = Safe.returns fresh (sound, omega arith, refl)
    move_items-Safe (empty ∷ items) fresh kept sound light =
        move_items-Safe items fresh kept.1 sound light
    move_items-Safe (deleted ∷ items) fresh kept sound light =
        move_items-Safe items fresh kept.1 sound light
    move_items-Safe (item k v ∷ items) fresh kept sound light =
        Safe-bind _ (law fresh sound (omega arith) k v kept.0) λ r (sound', used, size).
          Safe-map (move_items-Safe items r kept.1 sound' (omega arith))
            λ r' (sound'', used', size'). (sound'', omega arith, size' ∙ size)

    pub resize_by-Safe :
        (ht : HashTable V) (new_size : ℕ)
        → IsSound P ht
        → (2 ≤ new_size → Light (live ht.items) new_size)
        → Safe (λ r. IsSound P r × (r.used ≡ ht.used)) (resize_by insert ht new_size)
    unfolding resize_by
    resize_by-Safe ht new_size sound light =
        Safe-if _ _ (ltb new_size 2) (λ _. Safe.returns ht (sound, refl))
          λ high.
            (Safe-bind _ (htable_init-Safe new_size) λ fresh (sound', le, none_used).
              Safe-bind _
                (move_items-Safe ht.items fresh sound.kept sound'
                  (let light' = light (ground arith) in omega arith))
                λ moved (sound'', used, size). Safe.returns _ (
                  record {
                    width = sound''.width;
                    positive = sound''.positive;
                    counted = omega (arith, sound''.counted, sound.counted);
                    kept = sound''.kept;
                  },
                  refl,
                ))

    pub resize_up_by-Safe :
        (ht : HashTable V)
        → IsSound P ht
        → Safe (λ r. IsSound P r × (r.used ≡ ht.used)) (resize_up_by insert ht)
    unfolding resize_up_by
    resize_up_by-Safe ht sound = Safe-bind _ (load-Safe ht) λ percent _.
        Safe-if _ _ (ltb 70 percent)
          (λ _. Safe-bind _ (int-Safe (ht.size * 2)) λ n e.
            resize_by-Safe ht n sound
              (λ _. omega (arith, e, live-le-length ht.items, sound.width, sound.positive)))
          (λ _. Safe.returns ht (sound, refl))

    pub resize_down_by-Safe :
        (ht : HashTable V)
        → IsSound P ht
        → Safe (λ r. IsSound P r × (r.used ≡ ht.used)) (resize_down_by insert ht)
    unfolding resize_down_by
    resize_down_by-Safe ht sound = Safe-bind _ (load-Safe ht) λ percent e.
        Safe-if _ _ (ltb percent 10)
          (λ low.
            let sparse : ht.used * 100 < 10 * ht.size =
              (div-lt_iff_lt-mul sound.positive).0 (ground arith) in
            resize_by-Safe ht (ht.size / 2) sound (λ two. omega (arith, sound.counted, sparse)))
          (λ _. Safe.returns ht (sound, refl))

  -- Below the load nothing is resized.
  pub resize_up_by-Light :
      (insert : HashTable V → Str → V → Run (HashTable V)) (ht : HashTable V)
      → 0 < ht.size
      → Light ht.used ht.size
      → Safe (λ r. r ≡ ht) (resize_up_by insert ht)
  unfolding resize_up_by
  resize_up_by-Light insert ht positive light = Safe-bind _ (load-Safe ht) λ percent e.
      let below : ht.used * 100 / ht.size < 71 = (div-lt_iff_lt-mul positive).1 light in
      Safe-if _ _ (ltb 70 percent) (λ heavy. absurd (ground arith)) (λ _. Safe.returns ht refl)

  pub insert_at_depth-Light : (depth : ℕ) → InsertsSafely (insert_at_depth (suc depth))
  unfolding insert_at_depth
  insert_at_depth-Light depth ht sound light key v kept =
      Safe-bind _ (free_loop-Safe sound key ht.size 0) (
        Safe-option _ _ _ (λ _. Safe.returns ht (sound, omega arith, refl))
          λ p gap. Safe-bind _ (int-Safe (ht.used + 1)) λ used e.
            let grown = record ht { used = used; items = set ht.items p (item key v) } in
            let sound' : IsSound P grown = rw e (placed-IsSound sound key p v gap kept) in
            Safe-map (resize_up_by-Light (insert_at_depth depth) grown sound.positive (rw e light))
              λ r same. rw same (sound', omega (arith, e), refl))

  pub insert_at_depth-Safe :
      (depth : ℕ) (ht : HashTable V)
      → IsSound P ht
      → (key : Str) (v : V) → P v
      → Safe (IsSound P) (insert_at_depth (suc (suc depth)) ht key v)
  unfolding insert_at_depth
  insert_at_depth-Safe depth ht sound key v kept =
      Safe-bind _ (free_loop-Safe sound key ht.size 0) (
        Safe-option _ _ _ (λ _. Safe.returns ht sound)
          λ p gap. Safe-bind _ (int-Safe (ht.used + 1)) λ used e.
            let grown = record ht { used = used; items = set ht.items p (item key v) } in
            let sound' : IsSound P grown = rw e (placed-IsSound sound key p v gap kept) in
            Safe-map
              (resize_up_by-Safe (insert_at_depth (suc depth)) (insert_at_depth-Light depth) grown
                sound')
              λ r z. z.0)

  pub htable_insert-Safe :
      (ht : HashTable V)
      → IsSound P ht
      → (key : Str) (v : V) → P v
      → Safe (IsSound P) (htable_insert ht key v)
  unfolding htable_insert
  htable_insert-Safe = insert_at_depth-Safe 0

  pub htable_del-Safe :
      (ht : HashTable V)
      → IsSound P ht
      → (key : Str) → Safe (λ r. IsSound P r.0) (htable_del ht key)
  unfolding htable_del htable_resize_down htable_insert
  htable_del-Safe ht sound key = Safe-bind _ (locate_loop-Safe sound key ht.size 0) (
      Safe-option _ _ _ (λ _. Safe.returns _ sound)
        λ x found.
          Safe-bind _
            (resize_down_by-Safe (insert_at_depth 2) (insert_at_depth-Light 1)
              (record ht { used = ht.used - 1; items = set ht.items x.0 deleted })
              (buried-IsSound sound key x.0 x.1 found))
            λ r z. Safe.returns (r, true) z.0)
