-- ===== src/Layout/Navigation/Laws.antt =====
-- What the navigation shows, where a user is sent first, and which entry is marked.
use g_manager.Common.{
  String, Bool, true, false, not, ◌&&◌, Option, some, List, [], ◌∷◌, ◌++◌, ◌===◌, ◌≡◌, ◌⊎◌, inl,
  inr, refl, sym, ap, arith, any, find, Bool-cases, Option-cases, ===_refl, &&-eq-true, eq_iff, ◌≢◌,
}
use g_manager.Auth.Types.{Role, is_role, customer, Permission, AuthUser, profile_read}
use g_manager.Auth.Features.{Flags}
use g_manager.Auth.Capabilities.{has_capability}
use g_manager.Layout.Navigation.{
  FeatureFlagKey, NavigationItem, Items, leaf, branch, nil, cons, to_of, items, entries,
  is_permitted, branch_before, permit_item, permit, permitted_items, navigation_for, tool_items,
  management_items, equipment_items, home_for_user, home_for_role, any_dashboard, first_to,
  found_to, navigation_active,
}

module _ (user : AuthUser) (flags : Flags) where
  -- The user may see the entry and all below it, and a branch leads to its first child.
  abbrev mutual
    pub IsShown : NavigationItem → Type 0
    IsShown (leaf label to capability flag) = is_permitted user flags capability flag ≡ true
    IsShown (branch label to capability flag nil) = ⊥
    IsShown (branch label to capability flag (cons first more)) =
        (is_permitted user flags capability flag ≡ true)
        × (to ≡ to_of first)
        × AreShown (cons first more)

    pub AreShown : Items → Type 0
    AreShown nil = Unit
    AreShown (cons x xs) = IsShown x × AreShown xs

  branch_before-AreShown :
      (label : String) (capability : List Permission) (flag : Option FeatureFlagKey)
      (children rest : Items)
      → is_permitted user flags capability flag ≡ true
      → AreShown children
      → AreShown rest
      → AreShown (branch_before label capability flag children rest)
  branch_before-AreShown label capability flag nil rest p h k = k
  branch_before-AreShown label capability flag (cons first more) rest p h k = ((p, refl, h), k)

  mutual
    permit_item-AreShown :
        (x : NavigationItem) (rest : Items)
        → AreShown rest
        → AreShown (permit_item user flags x rest)
    permit_item-AreShown (leaf label to capability flag) rest k =
        elim (Bool-cases (is_permitted user flags capability flag)) [
          | inl e ↦ rw e (e, k)
          | inr e ↦ rw e k
        ]
    permit_item-AreShown (branch label to capability flag children) rest k =
        elim (Bool-cases (is_permitted user flags capability flag)) [
          | inl e ↦ rw e (
              branch_before-AreShown label capability flag (permit user flags children) rest e
                (permit-AreShown children) k)
          | inr e ↦ rw e k
        ]

    permit-AreShown : (xs : Items) → AreShown (permit user flags xs)
    permit-AreShown nil = tt
    permit-AreShown (cons x xs) = permit_item-AreShown x (permit user flags xs) (permit-AreShown xs)

  mutual
    permit_item_shown :
        (x : NavigationItem) (rest : Items)
        → IsShown x
        → permit_item user flags x rest ≡ cons x rest
    permit_item_shown (leaf label to capability flag) rest h = rw h refl
    permit_item_shown (branch label to capability flag nil) rest h = absurd h
    permit_item_shown (branch label to capability flag (cons first more)) rest (p, e, h) =
        rw (p, permit_shown (cons first more) h, sym e) refl

    permit_shown : (xs : Items) → AreShown xs → permit user flags xs ≡ xs
    permit_shown nil h = refl
    permit_shown (cons x xs) h = rw (permit_shown xs h.1) (permit_item_shown x xs h.0)

  items-entries : (xs : Items) → items (entries xs) ≡ xs
  items-entries nil = refl
  items-entries (cons x xs) = ap (cons x) (items-entries xs)

  -- What a user may see of a list is shown whole: selecting once more changes nothing.
  permitted_items-permitted_items :
      (xs : List NavigationItem)
      → permitted_items user flags (permitted_items user flags xs) ≡ permitted_items user flags xs
  unfolding permitted_items
  permitted_items-permitted_items xs =
      rw
        (
          items-entries (permit user flags (items xs)),
          permit_shown (permit user flags (items xs)) (permit-AreShown (items xs)),
        )
        refl

  abbrev pub leads_to : String → List NavigationItem → Bool
  leads_to to xs = any (λ x. to_of x === to) xs

  -- Why a user may be sent to an address.
  abbrev pub IsAllowed : String → Type 0
  IsAllowed to =
      ((to ≡ "/dashboard") × (any_dashboard user ≡ true))
      ⊎ ((leads_to to (navigation_for user flags) ≡ true)
          ⊎ ((leads_to to
                  (permitted_items user flags (tool_items ++ management_items ++ equipment_items))
                ≡ true)
              ⊎ (((to ≡ "/profile") × (has_capability (some user) profile_read ≡ true))
                  ⊎ ((to ≡ "/unauthorized") × (has_capability (some user) profile_read ≡ false)))))

  found_to-leads_to :
      (p : NavigationItem → Bool) (xs : List NavigationItem) (to : String)
      → found_to (find p xs) ≡ some to
      → leads_to to xs ≡ true
  found_to-leads_to p [] to h = ground arith
  found_to-leads_to p (x ∷ xs) to h = ground (arith, ===_refl (to_of x), found_to-leads_to p xs to)

  first_to-leads_to :
      (xs : List NavigationItem) (to : String) → first_to xs ≡ some to → leads_to to xs ≡ true
  first_to-leads_to [] to h = ground arith
  first_to-leads_to (x ∷ xs) to h = ground (arith, ===_refl (to_of x))

  -- A user is sent to the dashboard only if it may be seen, or to an entry that the navigation shows, or
  -- to a permitted entry of the pages that lead on, or to the profile if it may be seen, or to
  -- /unauthorized if the profile may not be seen.
  pub home_for_user-IsAllowed : IsAllowed (home_for_user user flags)
  unfolding home_for_user
  home_for_user-IsAllowed =
      let shown = navigation_for user flags in
      let wanted = find (λ x. to_of x === home_for_role user.role) shown in
      let more = permitted_items user flags (tool_items ++ management_items ++ equipment_items) in
      elim (Bool-cases (not (is_role user.role customer) && any_dashboard user)) [
        | inl e ↦
            rw e
              (inl (refl, (&&-eq-true (not (is_role user.role customer)) (any_dashboard user) e).1))
        | inr e ↦ rw e (elim (Option-cases (found_to wanted)) [
          | inr (to, f) ↦
              rw f (
                inr (inl (found_to-leads_to (λ x. to_of x === home_for_role user.role) shown to f)))
          | inl f ↦ elim (Option-cases (first_to shown)) [
            | inr (to, g) ↦ rw (f, g) (inr (inl (first_to-leads_to shown to g)))
            | inl g ↦ elim (Option-cases (first_to more)) [
              | inr (to, h) ↦ rw (f, g, h) (inr (inr (inl (first_to-leads_to more to h))))
              | inl h ↦ elim (Bool-cases (has_capability (some user) profile_read)) [
                | inl k ↦ rw (f, g, h, k) (inr (inr (inr (inl (refl, refl)))))
                | inr k ↦ rw (f, g, h, k) (inr (inr (inr (inr (refl, refl)))))
              ]
            ]
          ]
        ])
      ]

-- Of the two entries that share the page of the reservations exactly one is marked there, and neither is
-- on any other page.
navigation_active_reservations :
    (pathname : String) (booking : Option String) (role : Option Role)
    → let create = navigation_active "/my-reservations?booking=new" pathname booking role in
      let own = navigation_active "/my-reservations" pathname booking role in
      ((pathname ≡ "/my-reservations") → create ≡ not own)
      × ((pathname ≢ "/my-reservations") → (create ≡ false) × (own ≡ false))
unfolding navigation_active
navigation_active_reservations pathname booking role =
    ground (arith, eq_iff pathname "/my-reservations")
