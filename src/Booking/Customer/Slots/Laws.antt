-- ===== src/Booking/Customer/Slots/Laws.antt =====
-- What is shown is offered, and nothing better is left out.
use g_manager.Common.{
  ℕ, ◌≤◌, String, Bool, true, Option, none, some, List, [], ◌∷◌, ◌≡◌, refl, sym, ◌∙◌, ap, subst,
  arith, ltb, if◌then◌else◌, Dict, lookup, insert, lookup-insert, ◌===◌, ===_refl, eq_iff,
  Option-cases, Bool-cases, inl, inr, All, All-map, All-IsIn, IsIn, IsIn-here, IsIn-there,
  IsIn-cons, each_branch, both_branches,
}
use g_manager.Booking.Types.{AvailabilitySlot, EmployeeAvailability}
use g_manager.Booking.Customer.Slots.{
  rank, offered, add_slot, unique_slots, values, insert_slot, sort_slots, slots_of,
}

-- The entry for the start of a slot is at least as good.
abbrev Covers : Dict AvailabilitySlot → AvailabilitySlot → Type 0
Covers unique slot =
    (best : AvailabilitySlot) × (lookup slot.start_time unique ≡ some best)
    × (rank best ≤ rank slot)

abbrev rank_or : Option AvailabilitySlot → ℕ
rank_or none = 0
rank_or (some slot) = rank slot

lower_rank : (a b c : ℕ) → ltb a b ≡ true → b ≡ c → a ≤ c
lower_rank a b c h e = ground (arith, h, e)

module _ (value : AvailabilitySlot) (unique : Dict AvailabilitySlot) where
  inserted-new : Covers (insert value.start_time value unique) value
  inserted-new = (
    value,
    lookup-insert value.start_time value.start_time value unique
        ∙ rw (===_refl value.start_time) refl,
    omega arith,
  )

  inserted-old :
      (slot best : AvailabilitySlot)
      → lookup slot.start_time unique ≡ some best
      → rank best ≤ rank slot
      → ((value.start_time === slot.start_time) ≡ true → rank value ≤ rank best)
      → Covers (insert value.start_time value unique) slot
  inserted-old slot best e h better =
      let read = lookup-insert value.start_time slot.start_time value unique in
      elim (Bool-cases (value.start_time === slot.start_time)) [
        | inl t ↦ (value, read ∙ rw t refl, omega (arith, better t, h))
        | inr t ↦ (best, read ∙ rw t e, h)
      ]

  add_slot-none :
      lookup value.start_time unique ≡ none
      → add_slot value unique ≡ insert value.start_time value unique
  unfolding add_slot
  add_slot-none n = rw (add_slot, n) refl

  add_slot-some :
      (previous : AvailabilitySlot)
      → lookup value.start_time unique ≡ some previous
      → add_slot value unique ≡ (
          if ltb (rank value) (rank previous) then insert value.start_time value unique else unique)
  unfolding add_slot
  add_slot-some previous n = rw (add_slot, n) refl

  -- The start of both is the same, and so is the entry.
  same_entry :
      (slot : AvailabilitySlot)
      → (value.start_time === slot.start_time) ≡ true
      → lookup value.start_time unique ≡ lookup slot.start_time unique
  same_entry slot t = ap (λ k. lookup k unique) ((eq_iff value.start_time slot.start_time).0 t)

  add_slot-new : Covers (add_slot value unique) value
  add_slot-new = elim (Option-cases (lookup value.start_time unique)) [
    | inl n ↦ subst (λ u. Covers u value) (sym (add_slot-none n)) inserted-new
    | inr (previous, n) ↦
        subst (λ u. Covers u value) (sym (add_slot-some previous n))
          (each_branch (λ u. Covers u value) (ltb (rank value) (rank previous)) _ unique
            (λ e. inserted-new) (λ e. (previous, n, ground (arith, e))))
  ]

  add_slot-old :
      (slot : AvailabilitySlot) → Covers unique slot → Covers (add_slot value unique) slot
  add_slot-old slot (best, e, h) = elim (Option-cases (lookup value.start_time unique)) [
    | inl n ↦
        subst (λ u. Covers u slot) (sym (add_slot-none n))
          (inserted-old slot best e h
            (λ t. let clash = sym n ∙ same_entry slot t ∙ e in ground (arith, clash)))
    | inr (previous, n) ↦
        subst (λ u. Covers u slot) (sym (add_slot-some previous n))
          (each_branch (λ u. Covers u slot) (ltb (rank value) (rank previous)) _ unique
            (λ l. inserted-old slot best e h (λ t.
              let same = ap rank_or (sym n ∙ same_entry slot t ∙ e) in
              lower_rank (rank value) (rank previous) (rank best) l same))
            (λ l. (best, e, h)))
  ]

unique_slots-old :
    (vs : List AvailabilitySlot) (unique : Dict AvailabilitySlot) (slot : AvailabilitySlot)
    → Covers unique slot
    → Covers (unique_slots vs unique) slot
unfolding unique_slots
unique_slots-old [] unique slot h = h
unique_slots-old (v ∷ vs) unique slot h =
    unique_slots-old vs (add_slot v unique) slot (add_slot-old v unique slot h)

unique_slots-All :
    (vs : List AvailabilitySlot) (unique : Dict AvailabilitySlot)
    → All (Covers (unique_slots vs unique)) vs
unfolding unique_slots
unique_slots-All [] unique = tt
unique_slots-All (v ∷ vs) unique = (
  unique_slots-old vs (add_slot v unique) v (add_slot-new v unique),
  unique_slots-All vs (add_slot v unique),
)

-- Each entry stands under the start of its slot.
abbrev IsKeyed : Dict AvailabilitySlot → Type 0
IsKeyed unique = All (λ (key, slot). key ≡ slot.start_time) unique

module _ (P : AvailabilitySlot → Type 0) where
  -- What holds of all that are added holds of all entries.
  insert-All :
      (v : AvailabilitySlot) (unique : Dict AvailabilitySlot)
      → P v
      → All (λ (key, slot). P slot) unique
      → All (λ (key, slot). P slot) (insert v.start_time v unique)
  unfolding insert
  insert-All v [] pv h = (pv, tt)
  insert-All v ((key, old) ∷ unique) pv h =
      both_branches (All (λ (k, slot). P slot)) (key === v.start_time) _ _ (pv, h.1)
        (h.0, insert-All v unique pv h.1)

  add_slot-All :
      (v : AvailabilitySlot) (unique : Dict AvailabilitySlot)
      → P v
      → All (λ (key, slot). P slot) unique
      → All (λ (key, slot). P slot) (add_slot v unique)
  add_slot-All v unique pv h = elim (Option-cases (lookup v.start_time unique)) [
    | inl n ↦
        subst (All (λ (key, slot). P slot)) (sym (add_slot-none v unique n))
          (insert-All v unique pv h)
    | inr (previous, n) ↦
        subst (All (λ (key, slot). P slot)) (sym (add_slot-some v unique previous n))
          (both_branches (All (λ (key, slot). P slot)) _ _ unique (insert-All v unique pv h) h)
  ]

  unique_slots-P :
      (vs : List AvailabilitySlot) (unique : Dict AvailabilitySlot)
      → All P vs
      → All (λ (key, slot). P slot) unique
      → All (λ (key, slot). P slot) (unique_slots vs unique)
  unfolding unique_slots
  unique_slots-P [] unique hv h = h
  unique_slots-P (v ∷ vs) unique hv h =
      unique_slots-P vs (add_slot v unique) hv.1 (add_slot-All v unique hv.0 h)

  values-All :
      (unique : Dict AvailabilitySlot) → All (λ (key, slot). P slot) unique → All P (values unique)
  values-All [] h = tt
  values-All ((key, slot) ∷ unique) h = (h.0, values-All unique h.1)

  insert_slot-All :
      (not_after : String → String → Bool) (x : AvailabilitySlot) (xs : List AvailabilitySlot)
      → P x
      → All P xs
      → All P (insert_slot not_after x xs)
  insert_slot-All not_after x [] px h = (px, tt)
  insert_slot-All not_after x (y ∷ ys) px h =
      both_branches (All P) (not_after x.start_time y.start_time) _ _ (px, h)
        (h.0, insert_slot-All not_after x ys px h.1)

  sort_slots-All :
      (not_after : String → String → Bool) (xs : List AvailabilitySlot)
      → All P xs
      → All P (sort_slots not_after xs)
  sort_slots-All not_after [] h = tt
  sort_slots-All not_after (x ∷ xs) h =
      insert_slot-All not_after x (sort_slots not_after xs) h.0 (sort_slots-All not_after xs h.1)

-- Keys.
insert-IsKeyed :
    (v : AvailabilitySlot) (unique : Dict AvailabilitySlot)
    → IsKeyed unique
    → IsKeyed (insert v.start_time v unique)
unfolding insert
insert-IsKeyed v [] h = (refl, tt)
insert-IsKeyed v ((key, old) ∷ unique) h =
    both_branches IsKeyed (key === v.start_time) _ _ (refl, h.1) (h.0, insert-IsKeyed v unique h.1)

unique_slots-IsKeyed :
    (vs : List AvailabilitySlot) (unique : Dict AvailabilitySlot)
    → IsKeyed unique
    → IsKeyed (unique_slots vs unique)
unfolding unique_slots
unique_slots-IsKeyed [] unique h = h
unique_slots-IsKeyed (v ∷ vs) unique h =
    unique_slots-IsKeyed vs (add_slot v unique) (elim (Option-cases (lookup v.start_time unique)) [
      | inl n ↦ subst IsKeyed (sym (add_slot-none v unique n)) (insert-IsKeyed v unique h)
      | inr (previous, n) ↦
          subst IsKeyed (sym (add_slot-some v unique previous n))
            (both_branches IsKeyed _ _ unique (insert-IsKeyed v unique h) h)
    ])

lookup-IsIn :
    (unique : Dict AvailabilitySlot) (key : String) (best : AvailabilitySlot)
    → IsKeyed unique
    → lookup key unique ≡ some best
    → IsIn best (values unique) × (best.start_time ≡ key)
unfolding lookup
lookup-IsIn [] key best h e = ground arith
lookup-IsIn ((k, slot) ∷ unique) key best h e = elim (Bool-cases (k === key)) [
  | inl t ↦
      let same : slot ≡ best = ground (arith, t, e) in
      (
        subst (λ s. IsIn s (values ((k, slot) ∷ unique))) same (IsIn-here slot (values unique)),
        ap (λ s. s.start_time) (sym same) ∙ (sym h.0 ∙ (eq_iff k key).0 t),
      )
  | inr t ↦
      let later : lookup key unique ≡ some best = ground (arith, t, e) in
      let rest = lookup-IsIn unique key best h.1 later in
      (IsIn-there best slot (values unique) rest.0, rest.1)
]

insert_slot-here :
    (not_after : String → String → Bool) (x : AvailabilitySlot) (xs : List AvailabilitySlot)
    → IsIn x (insert_slot not_after x xs)
insert_slot-here not_after x [] = IsIn-here x []
insert_slot-here not_after x (y ∷ ys) =
    both_branches (IsIn x) (not_after x.start_time y.start_time) _ _ (IsIn-here x (y ∷ ys))
      (IsIn-there x y _ (insert_slot-here not_after x ys))

insert_slot-there :
    (not_after : String → String → Bool) (x z : AvailabilitySlot) (xs : List AvailabilitySlot)
    → IsIn z xs
    → IsIn z (insert_slot not_after x xs)
insert_slot-there not_after x z [] h = IsIn-there z x [] h
insert_slot-there not_after x z (y ∷ ys) h =
    both_branches (IsIn z) (not_after x.start_time y.start_time) _ _ (IsIn-there z x (y ∷ ys) h)
      (elim (IsIn-cons z y ys h) [
        | inl e ↦ subst (λ s. IsIn z (s ∷ insert_slot not_after x ys)) e (IsIn-here z _)
        | inr k ↦ IsIn-there z y _ (insert_slot-there not_after x z ys k)
      ])

sort_slots-IsIn :
    (not_after : String → String → Bool) (z : AvailabilitySlot) (xs : List AvailabilitySlot)
    → IsIn z xs
    → IsIn z (sort_slots not_after xs)
sort_slots-IsIn not_after z [] h = h
sort_slots-IsIn not_after z (x ∷ xs) h = elim (IsIn-cons z x xs h) [
  | inl e ↦
      subst (λ s. IsIn z (insert_slot not_after s (sort_slots not_after xs))) e
        (insert_slot-here not_after z _)
  | inr k ↦ insert_slot-there not_after x z _ (sort_slots-IsIn not_after z xs k)
]

-- A slot that is shown for the same start, and is at least as good.
abbrev pub IsCovered : List AvailabilitySlot → AvailabilitySlot → Type 0
IsCovered shown slot =
    (best : AvailabilitySlot) × IsIn best shown
    × (best.start_time ≡ slot.start_time)
    × (rank best ≤ rank slot)

-- Every slot that is shown is one that an employee offers, and for every slot that is offered one with the
-- same start is shown whose status is at least as good: available before occupied before unavailable.
pub slots_of-IsCovered :
    (not_after : String → String → Bool) (employees : List EmployeeAvailability)
    → let shown = slots_of not_after (some employees) in
      All (λ slot. IsIn slot (offered employees)) shown × All (IsCovered shown) (offered employees)
unfolding slots_of
slots_of-IsCovered not_after employees =
    let all_slots = offered employees in
    let unique = unique_slots all_slots [] in
    let P = λ (slot : AvailabilitySlot). IsIn slot all_slots in
    (
      sort_slots-All P not_after (values unique)
          (values-All P unique (unique_slots-P P all_slots [] (All-IsIn all_slots) tt)),
      All-map (Covers unique) (IsCovered (sort_slots not_after (values unique)))
          (λ slot (best, e, h).
            let (there, start) =
              lookup-IsIn unique slot.start_time best (unique_slots-IsKeyed all_slots [] tt) e in
            (best, sort_slots-IsIn not_after best (values unique) there, start, h))
          all_slots (unique_slots-All all_slots []),
    )
