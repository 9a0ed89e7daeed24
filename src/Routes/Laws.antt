-- ===== src/Routes/Laws.antt =====
-- The navigation against the guards of the pages.
use g_manager.Common.{
  true, none, List, [], ◌∷◌, ◌≡◌, arith, filter, All, Bool-cases, inl, inr, lookup,
}
use g_manager.Auth.Types.{
  AuthUser, is_role, customer, employee, dashboard_operational, gaming_session_read,
}
use g_manager.Auth.Features.{Flags}
use g_manager.Layout.Navigation.{
  NavigationItem, leaf, branch, to_of, management, employee_items, customer_items, is_permitted,
  permitted_items, employee_entry, map_items, primary_for, leads_somewhere, navigation_for,
  any_dashboard,
}
use g_manager.Routes.{capability_guard, is_opened}

module _ (user : AuthUser) (flags : Flags) where
  -- The entry has no children, and its page is opened for a user to whom it is shown.
  abbrev IsGuarded : NavigationItem → Type 0
  IsGuarded (leaf label to capability flag) =
      is_permitted user flags capability flag ≡ true
      → leads_somewhere user flags (leaf label to capability flag) ≡ true
      → is_opened to user ≡ true
  IsGuarded (branch label to capability flag children) = ⊥

  abbrev IsOpened : NavigationItem → Type 0
  IsOpened x = is_opened (to_of x) user ≡ true

  permitted-IsOpened :
      (xs : List NavigationItem)
      → All IsGuarded xs
      → All IsOpened (filter (leads_somewhere user flags) (permitted_items user flags xs))
  unfolding permitted_items
  permitted-IsOpened [] h = tt
  permitted-IsOpened (leaf label to capability flag ∷ xs) h =
      elim (Bool-cases (is_permitted user flags capability flag)) [
        | inr hidden ↦ rw hidden (permitted-IsOpened xs h.1)
        | inl shown ↦
            elim (Bool-cases (leads_somewhere user flags (leaf label to capability flag))) [
              | inl leads ↦ rw (shown, leads) (h.0 shown leads, permitted-IsOpened xs h.1)
              | inr none_there ↦ rw (shown, none_there) (permitted-IsOpened xs h.1)
            ]
      ]
  permitted-IsOpened (branch label to capability flag children ∷ xs) h = absurd h.0

  management-IsGuarded : All IsGuarded management
  unfolding is_permitted is_opened lookup capability_guard
  management-IsGuarded = (
    (λ p l. ground arith),
    (
      (λ p l. ground arith),
      (
        (λ p l. ground arith),
        (
          (λ p l. ground arith),
          ((λ p l. ground arith), ((λ p l. ground arith), ((λ p l. ground arith), tt))),
        ),
      ),
    ),
  )

  customer-IsGuarded : All IsGuarded customer_items
  unfolding is_permitted is_opened lookup capability_guard leads_somewhere
  customer-IsGuarded = (
    (λ p l. ground arith),
    ((λ p l. ground arith), ((λ p l. ground arith), ((λ p l. ground arith), tt))),
  )

  -- The work screen, also where it leads past a dashboard that may not be seen.
  work_screen : IsGuarded (
      employee_entry user
        (leaf "Radni ekran" "/dashboard" (dashboard_operational ∷ gaming_session_read ∷ []) none))
  unfolding is_permitted is_opened lookup capability_guard
  work_screen = elim (Bool-cases (any_dashboard user)) [
    | inl seen ↦ rw seen (λ p l. ground (arith, seen))
    | inr unseen ↦ rw unseen (λ p l. ground (arith, unseen))
  ]

  employee-IsGuarded : All IsGuarded (map_items (employee_entry user) employee_items)
  unfolding is_permitted is_opened lookup capability_guard
  employee-IsGuarded = (
    work_screen,
    (
      (λ p l. ground arith),
      ((λ p l. ground arith), ((λ p l. ground arith), ((λ p l. ground arith), tt))),
    ),
  )

  -- Every entry of the navigation leads to a page that its guard opens for the user.
  pub navigation_for-IsOpened :
      All (λ x. is_opened (to_of x) user ≡ true) (navigation_for user flags)
  unfolding navigation_for primary_for
  navigation_for-IsOpened = elim (Bool-cases (is_role user.role customer)) [
    | inl guest ↦ rw guest (permitted-IsOpened customer_items customer-IsGuarded)
    | inr other ↦ elim (Bool-cases (is_role user.role employee)) [
      | inl works ↦
          rw (other, works)
            (permitted-IsOpened (map_items (employee_entry user) employee_items) employee-IsGuarded)
      | inr manages ↦ rw (other, manages) (permitted-IsOpened management management-IsGuarded)
    ]
  ]
