-- ===== src/List/Removal.antt =====
-- `list_rem` of src/list.c on the sequence that a list stands for.
use hyperkv.Base.{
  ℕ, zero, suc, ◌+◌, ◌-◌, ◌<◌, Bool, true, false, not, ◌&&◌, List, [], ◌∷◌, ℤ, pos, ◌+ℤ◌, ◌-ℤ◌,
  is_zero, leb_ℤ, none, ◌≡◌, refl, ◌∙◌, ap, arith, Str, str_eq, length, Returns, Bool-cases, inl,
  inr,
}
use hyperkv.List.{LinkedList, write}
use hyperkv.List.Rem.{rem_loop, list_rem}
use hyperkv.List.Seq.{head_of, IsSeq}
use hyperkv.List.Split.{
  onto, length-onto, Split, Split-next, Split-prev, Split-IsSeq, IsSeq-first, Split-last,
}
use hyperkv.List.Unlink.{unlink-Split}
use hyperkv.List.Remaining.{remaining, without, stopped, removed, kept, round_removed, round_kept}

module _ (start : ℤ) (value : Str) where
  forward_loop-remaining :
      (fuel : ℕ) (ls : LinkedList) (qs : List ℕ) (us : List Str) (bs : List ℕ) (ws : List Str)
      (count : ℤ) (i : ℕ)
      → leb_ℤ (pos 0) start ≡ true
      → Split ls qs us bs ws
      → length bs < fuel
      → Returns (rem_loop fuel ls start count i (head_of bs) value) λ r.
        IsSeq r.0 (onto us (remaining start count value ws))
        × (r.1 + length (remaining start count value ws) ≡ i + length ws)
  unfolding rem_loop
  forward_loop-remaining (suc fuel) ls qs us [] [] count i forward s enough =
      ((ls, i), refl, (Split-IsSeq ls qs us [] [] s, refl))
  forward_loop-remaining (suc fuel) ls qs us (p ∷ bs) (v ∷ ws) count i forward s enough =
      elim (Bool-cases (not (is_zero start) && is_zero count)) [
        | inl e ↦ (
          (ls, i),
          rw (rem_loop, e) refl,
          (
            rw (stopped start value count v ws e) (Split-IsSeq ls qs us (p ∷ bs) (v ∷ ws) s),
            ap (λ t. i + length t) (stopped start value count v ws e),
          ),
        )
        | inr e ↦ elim (Bool-cases (str_eq v value)) [
          | inl same ↦
              let (a, run, here, s') = unlink-Split ls p v qs us bs ws s in
              let cut = record a { len = a.len - 1 } in
              let freed = record cut { node_at = write a.node_at p none } in
              let (r, run', (seq, n)) =
                forward_loop-remaining fuel freed qs us bs ws (count -ℤ pos 1) (i + 1) forward s'
                  (omega arith) in
              (
                r,
                rw
                    (
                      round_removed start value fuel ls a count i p _ e s.right.0 same run here,
                      forward,
                    )
                    run',
                (
                  rw (removed start value count v ws e same, forward) seq,
                  rw (removed start value count v ws e same, forward) (omega (arith, n)),
                ),
              )
          | inr differs ↦
              let (r, run', (seq, n)) =
                forward_loop-remaining fuel ls (p ∷ qs) (v ∷ us) bs ws count i forward
                  (Split-next ls qs us p bs v ws s) (omega arith) in
              (
                r,
                rw (round_kept start value fuel ls count i p _ e s.right.0 differs, forward) run',
                (
                  rw (kept start value count v ws e differs) seq,
                  rw (kept start value count v ws e differs) (omega (arith, n)),
                ),
              )
        ]
      ]
  forward_loop-remaining zero ls qs us bs ws count i forward s enough = absurd (omega arith)
  forward_loop-remaining fuel ls qs us [] (v ∷ ws) count i forward s enough = absurd s.right
  forward_loop-remaining fuel ls qs us (p ∷ bs) [] count i forward s enough = absurd s.right

  backward_loop-remaining :
      (fuel : ℕ) (ls : LinkedList) (qs : List ℕ) (us : List Str) (bs : List ℕ) (ws : List Str)
      (count : ℤ) (i : ℕ)
      → leb_ℤ (pos 0) start ≡ false
      → Split ls qs us bs ws
      → length qs < fuel
      → Returns (rem_loop fuel ls start count i (head_of qs) value) λ r.
        IsSeq r.0 (onto (remaining start count value us) ws)
        × (r.1 + length (remaining start count value us) ≡ i + length us)
  unfolding rem_loop
  backward_loop-remaining (suc fuel) ls [] [] bs ws count i backward s enough =
      ((ls, i), refl, (Split-IsSeq ls [] [] bs ws s, refl))
  backward_loop-remaining (suc fuel) ls (p ∷ qs) (v ∷ us) bs ws count i backward s enough =
      elim (Bool-cases (not (is_zero start) && is_zero count)) [
        | inl e ↦ (
          (ls, i),
          rw (rem_loop, e) refl,
          (
            rw (stopped start value count v us e) (Split-IsSeq ls (p ∷ qs) (v ∷ us) bs ws s),
            ap (λ t. i + length t) (stopped start value count v us e),
          ),
        )
        | inr e ↦ elim (Bool-cases (str_eq v value)) [
          | inl same ↦
              let (a, run, here, s') =
                unlink-Split ls p v qs us bs ws (Split-prev ls p qs v us bs ws s) in
              let cut = record a { len = a.len - 1 } in
              let freed = record cut { node_at = write a.node_at p none } in
              let (r, run', (seq, n)) =
                backward_loop-remaining fuel freed qs us bs ws (count +ℤ pos 1) (i + 1) backward s'
                  (omega arith) in
              (
                r,
                rw
                    (
                      round_removed start value fuel ls a count i p _ e s.left.0 same run here,
                      backward,
                    )
                    run',
                (
                  rw (removed start value count v us e same, backward) seq,
                  rw (removed start value count v us e same, backward) (omega (arith, n)),
                ),
              )
          | inr differs ↦
              let (r, run', (seq, n)) =
                backward_loop-remaining fuel ls qs us (p ∷ bs) (v ∷ ws) count i backward
                  (Split-prev ls p qs v us bs ws s) (omega arith) in
              (
                r,
                rw (round_kept start value fuel ls count i p _ e s.left.0 differs, backward) run',
                (
                  rw (kept start value count v us e differs) seq,
                  rw (kept start value count v us e differs) (omega (arith, n)),
                ),
              )
        ]
      ]
  backward_loop-remaining zero ls qs us bs ws count i backward s enough = absurd (omega arith)
  backward_loop-remaining fuel ls [] (v ∷ us) bs ws count i backward s enough = absurd s.left
  backward_loop-remaining fuel ls (p ∷ qs) [] bs ws count i backward s enough = absurd s.left

module _ (ls : LinkedList) (vs : List Str) (seq : IsSeq ls vs) where
  -- On a list that stands for a sequence of values `list_rem` ends without a fault, with a list that
  -- stands for the values less those to be removed, and returns how many these are: those equal to
  -- `value`, at most `count` of them from the first on, or `-count` from the last on where `count` is
  -- negative, and all of them where it is 0.
  pub list_rem-without :
      (count : ℤ) (value : Str)
      → Returns (list_rem ls count value) λ r.
        IsSeq r.0 (without count value vs) × (r.1 + length (without count value vs) ≡ length vs)
  unfolding list_rem
  list_rem-without count value = go (leb_ℤ (pos 0) count) refl
    where
      go :
          (forward : Bool)
          → leb_ℤ (pos 0) count ≡ forward
          → Returns (list_rem ls count value) λ r.
            IsSeq r.0 (without count value vs) × (r.1 + length (without count value vs) ≡ length vs)
      go true forward =
          let enough : length seq.addresses < ls.len + 1 = omega (arith, seq.len) in
          let (r, run, (seq', n)) =
            forward_loop-remaining count value (ls.len + 1) ls [] [] seq.addresses vs count 0
              forward (IsSeq-first ls vs seq) enough in
          (
            r,
            rw forward (ap (λ c. rem_loop (ls.len + 1) ls count count 0 c value) seq.head ∙ run),
            (rw forward seq', rw forward (omega (arith, n))),
          )
      go false backward =
          let (all, s) = Split-last ls [] [] seq.addresses vs (IsSeq-first ls vs seq) in
          let enough : length all < ls.len + 1 = omega (arith, s.len) in
          let (r, run, (seq', n)) =
            backward_loop-remaining count value (ls.len + 1) ls all (onto vs []) [] [] count 0
              backward s enough in
          (
            r,
            rw backward (ap (λ c. rem_loop (ls.len + 1) ls count count 0 c value) s.tail ∙ run),
            (
              rw backward seq',
              rw backward (
                  omega (
                    arith,
                    n,
                    length-onto (remaining count count value (onto vs [])) [],
                    length-onto vs [],
                  )),
            ),
          )
