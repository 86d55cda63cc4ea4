-- ===== src/List/Remaining.antt =====
-- What `list_rem` of src/list.c leaves of a sequence, and one round of its loop.
use hyperkv.Base.{
  ℕ, suc, ◌+◌, ◌-◌, true, false, not, ◌&&◌, List, [], ◌∷◌, ℤ, pos, ◌+ℤ◌, ◌-ℤ◌, is_zero, leb_ℤ, none,
  some, ◌≡◌, refl, ok, ◌>>=◌, Str, str_eq, if◌then◌else◌,
}
use hyperkv.List.{ListNode, LinkedList, write, load, node_free}
use hyperkv.List.Rem.{node_del, rem_loop}
use hyperkv.List.Split.{onto}

-- The values, in the order in which they are visited, less those equal to `value`: all of them where
-- `start` is 0, and else as long as `count`, which goes towards 0, has not come there.
abbrev pub remaining : (start count : ℤ) → Str → List Str → List Str
remaining start count value [] = []
remaining start count value (v ∷ vs) = elim (not (is_zero start) && is_zero count) [
  | true ↦ v ∷ vs
  | false ↦ elim (str_eq v value) [
    | true ↦
        remaining start (if leb_ℤ (pos 0) start then count -ℤ pos 1 else count +ℤ pos 1) value vs
    | false ↦ v ∷ remaining start count value vs
  ]
]

-- A negative count visits them from the last.
abbrev pub without : ℤ → Str → List Str → List Str
without count value vs =
    if leb_ℤ (pos 0) count
    then remaining count count value vs
    else onto (remaining count count value (onto vs [])) []

module _ (start : ℤ) (value : Str) where
  pub stopped :
      (count : ℤ) (v : Str) (vs : List Str)
      → (not (is_zero start) && is_zero count) ≡ true
      → remaining start count value (v ∷ vs) ≡ v ∷ vs
  stopped count v vs e = rw (remaining, e) refl

  pub removed :
      (count : ℤ) (v : Str) (vs : List Str)
      → (not (is_zero start) && is_zero count) ≡ false
      → str_eq v value ≡ true
      → remaining start count value (v ∷ vs)
        ≡ remaining start (if leb_ℤ (pos 0) start then count -ℤ pos 1 else count +ℤ pos 1) value vs
  removed count v vs e same = rw (remaining, e) (rw same refl)

  pub kept :
      (count : ℤ) (v : Str) (vs : List Str)
      → (not (is_zero start) && is_zero count) ≡ false
      → str_eq v value ≡ false
      → remaining start count value (v ∷ vs) ≡ v ∷ remaining start count value vs
  kept count v vs e differs = rw (remaining, e) (rw differs refl)

  -- One round of the loop, at a value that goes and at one that stays.
  pub round_removed :
      (fuel : ℕ) (ls a : LinkedList) (count : ℤ) (i p : ℕ) (n : ListNode)
      → (not (is_zero start) && is_zero count) ≡ false
      → ls.node_at p ≡ some n
      → str_eq n.value value ≡ true
      → node_del ls (some p) ≡ ok a
      → a.node_at p ≡ some n
      → rem_loop (suc fuel) ls start count i (some p) value
        ≡ rem_loop fuel
            (record a { len = a.len - 1; node_at = write a.node_at p none })
            start
            (if leb_ℤ (pos 0) start then count -ℤ pos 1 else count +ℤ pos 1)
            (i + 1)
            (if leb_ℤ (pos 0) start then n.next else n.prev)
            value
  unfolding rem_loop node_free load
  round_removed fuel ls a count i p n e here same run here' =
      rw (rem_loop, e)
        (rw (here, load, ◌>>=◌) (rw (same, ◌>>=◌) (rw (run, ◌>>=◌) (rw (here', load, ◌>>=◌) refl))))

  pub round_kept :
      (fuel : ℕ) (ls : LinkedList) (count : ℤ) (i p : ℕ) (n : ListNode)
      → (not (is_zero start) && is_zero count) ≡ false
      → ls.node_at p ≡ some n
      → str_eq n.value value ≡ false
      → rem_loop (suc fuel) ls start count i (some p) value
        ≡ rem_loop fuel ls start count i (if leb_ℤ (pos 0) start then n.next else n.prev) value
  unfolding rem_loop load
  round_kept fuel ls count i p n e here differs =
      rw (rem_loop, e) (rw (here, load, ◌>>=◌) (rw (differs, ◌>>=◌) refl))
