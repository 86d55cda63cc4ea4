-- ===== src/Slots/Write.antt =====
-- What a write to one slot does to the map that the slots stand for.
use hyperkv.Base.{
  ℕ, ◌<◌, List, none, some, ◌≡◌, ◌≢◌, sym, ◌∙◌, ap, arith, Str, set, str_eq, eq_of_str_eq,
  str_eq_refl, if◌then◌else◌, Option-cases, Bool-cases, inl, inr, get_or-set_self, length, subst,
}
use hyperkv.Slots.{Slot, empty, deleted, item, slot_at}
use hyperkv.Slots.Count.{weight}
use hyperkv.Slots.Path.{Reach, NonEmpty, IsArranged, set_cases, set-IsArranged, in_bounds}
use hyperkv.Slots.View.{view, Holds, Lacks, Unique, view-Holds, view-Lacks, Holds-view, Lacks-view}

module _ {ℓ} {V : Type ℓ} where
  -- Two arrays that hold a key with the same values have the same view of it.
  pub view_eq :
      (items items' : List (Slot V)) (key : Str)
      → Unique items'
      → ((p : ℕ) (v : V) → Holds items p key v → (p' : ℕ) × Holds items' p' key v)
      → ((p : ℕ) (v : V) → Holds items' p key v → (p' : ℕ) × Holds items p' key v)
      → view items' key ≡ view items key
  view_eq items items' key unique to from = elim (Option-cases (view items key)) [
    | inl e ↦
        view-Lacks items' key (λ p v h. let (p', h') = from p v h in Lacks-view items key e p' v h')
        ∙ sym e
    | inr (v, e) ↦
        let (p, h) = Holds-view items key v e in
        let (p', h') = to p v h in view-Holds items' p' key v unique h' ∙ sym e
  ]

module _ {ℓ} {V : Type ℓ} {size : ℕ} {items : List (Slot V)} (arranged : IsArranged size items)
    (p : ℕ) (s : Slot V) (low : p < size) where
  in_array : p < length items
  in_array = rw arranged.width low

  -- A key that stands neither in the old slot nor in the new one keeps its view.
  pub view-set_other :
      (key : Str)
      → Unique (set items p s)
      → ((v : V) → slot_at items p ≢ item key v)
      → ((v : V) → s ≢ item key v)
      → view (set items p s) key ≡ view items key
  view-set_other key unique old new =
      view_eq items (set items p s) key unique
        (λ q v h. (
          q,
          elim (set_cases items p s q in_array) [
            | inl (q_p, e) ↦ absurd (old v (ap (slot_at items) (sym q_p) ∙ h))
            | inr (q_p, e) ↦ e ∙ h
          ],
        ))
        (λ q v h. (
          q,
          elim (set_cases items p s q in_array) [
            | inl (q_p, e) ↦ absurd (new v (sym e ∙ h))
            | inr (q_p, e) ↦ sym e ∙ h
          ],
        ))

  at_slot : slot_at (set items p s) p ≡ s
  at_slot = get_or-set_self items p s empty in_array

module _ {ℓ} {V : Type ℓ} {size : ℕ} {items : List (Slot V)} (arranged : IsArranged size items)
    (key : Str) (p : ℕ) where
  -- The array after an entry is written to a free slot on its key's path.
  module _ (v : V) (lacks : Lacks items key) (free : weight (slot_at items p) ≡ 0)
      (reach : Reach NonEmpty items size key p) (low : p < size) where
    pub place-IsArranged : IsArranged size (set items p (item key v))
    place-IsArranged =
        set-IsArranged arranged p (item key v) low (λ e. cc)
          (λ k w e. subst (λ t. Reach NonEmpty items size t p) (key_of e) reach)
          (λ k w w' q e ne h. lacks q w' (h ∙ sym (ap (λ t. item t w') (key_of e))))
      where
        key_of : {k : Str} {w : V} → item key v ≡ item k w → key ≡ k
        key_of e = cc

    pub view-place :
        (q : Str)
        → view (set items p (item key v)) q ≡ (if str_eq key q then some v else view items q)
    view-place q = elim (Bool-cases (str_eq key q)) [
      | inl same ↦ rw same (
          view-Holds (set items p (item key v)) p q v place-IsArranged.unique
            (at_slot arranged p (item key v) low ∙ ap (λ t. item t v) (eq_of_str_eq key q same)))
      | inr other ↦ rw other (
          view-set_other arranged p (item key v) low q place-IsArranged.unique
            (λ w e. absurd (omega (arith, ap weight e))) (λ w e. ground (arith, str_eq_refl key)))
    ]

  module _ {old : V} (held : Holds items p key old) where
    low : p < size
    low = rw (← arranged.width) (in_bounds items p key old held)

    -- The array after the value of a held key is written anew.
    pub update-IsArranged : (v : V) → IsArranged size (set items p (item key v))
    update-IsArranged v =
        set-IsArranged arranged p (item key v) low (λ e. cc)
          (λ k w e.
            subst (λ t. Reach NonEmpty items size t p) (key_of e) (arranged.placed p key old held))
          (λ k w w' q e ne h.
            ne (arranged.unique q p key w' old (h ∙ sym (ap (λ t. item t w') (key_of e))) held))
      where
        key_of : {k : Str} {w : V} → item key v ≡ item k w → key ≡ k
        key_of e = cc

    pub view-update :
        (v : V) (q : Str)
        → view (set items p (item key v)) q ≡ (if str_eq key q then some v else view items q)
    view-update v q = elim (Bool-cases (str_eq key q)) [
      | inl same ↦ rw same (
          view-Holds (set items p (item key v)) p q v (update-IsArranged v).unique
            (at_slot arranged p (item key v) low ∙ ap (λ t. item t v) (eq_of_str_eq key q same)))
      | inr other ↦ rw other (
          view-set_other arranged p (item key v) low q (update-IsArranged v).unique
            (λ w e. ground (arith, str_eq_refl key)) (λ w e. ground (arith, str_eq_refl key)))
    ]

    -- The array after a held key's slot becomes a tombstone.
    pub bury-IsArranged : IsArranged size (set items p deleted)
    bury-IsArranged =
        set-IsArranged arranged p deleted low (λ e. cc) (λ k w e. cc) (λ k w w' q e. cc)

    pub view-bury :
        (q : Str) → view (set items p deleted) q ≡ (if str_eq key q then none else view items q)
    view-bury q = elim (Bool-cases (str_eq key q)) [
      | inl same ↦ rw same (
          view-Lacks (set items p deleted) q (λ r w h.
            elim (set_cases items p deleted r (rw arranged.width low)) [
              | inl (_, e) ↦ cc
              | inr (ne, e) ↦ ne (
                  arranged.unique r p key w old
                    (sym e ∙ h ∙ ap (λ t. item t w) (sym (eq_of_str_eq key q same))) held)
            ]))
      | inr other ↦ rw other (
          view-set_other arranged p deleted low q bury-IsArranged.unique
            (λ w e. ground (arith, str_eq_refl key)) (λ w e. cc))
    ]
