-- ===== src/Layout/Navigation.antt =====
-- layout/navigation.ts: the entries of the navigation, those that a user may see, and where a user is
-- sent first. A single capability is a list of one. Descriptions are left out.
pub mod Laws
pub mod Tests
use g_manager.Common.{
  String, Bool, true, false, not, ◌&&◌, ◌||◌, Option, none, some, List, [], ◌∷◌, ◌++◌, ◌===◌,
  if◌then◌else◌, any, is_some, codes, contains, includes, filter, find,
}
use g_manager.Auth.Types.{
  Role, owner, admin, employee, customer, is_role, Permission, AuthUser, dashboard_summary,
  dashboard_operational, gaming_session_read, reservation_read_all, order_read_all, customer_read,
  resource_read, user_list, catalog_manage, working_hours_manage, report_read, audit_read,
  catalog_read, station_read, reservation_read_own, order_read_own, reservation_create,
  profile_read,
}
use g_manager.Auth.Features.{Flags}
use g_manager.Auth.Capabilities.{has_capability}

pub data FeatureFlagKey : Type 0 where
  reports_flag pwa_offline_flag ai_assistant_flag : FeatureFlagKey

abbrev pub flag_of : Flags → FeatureFlagKey → Bool
flag_of flags reports_flag = flags.reports
flag_of flags pwa_offline_flag = flags.pwa_offline
flag_of flags ai_assistant_flag = flags.ai_assistant

-- A NavigationItem without and with `children`.
mutual
  pub data NavigationItem : Type 0 where
    leaf : (label to : String) → List Permission → Option FeatureFlagKey → NavigationItem
    branch : (label to : String) → List Permission → Option FeatureFlagKey → Items → NavigationItem

  pub data Items : Type 0 where
    nil : Items
    cons : NavigationItem → Items → Items

abbrev pub to_of : NavigationItem → String
to_of (leaf label to capability flag) = to
to_of (branch label to capability flag children) = to

abbrev pub with_to : String → NavigationItem → NavigationItem
with_to to (leaf label _ capability flag) = leaf label to capability flag
with_to to (branch label _ capability flag children) = branch label to capability flag children

abbrev pub item : String → String → List Permission → NavigationItem
item label to capability = leaf label to capability none

abbrev pub items : List NavigationItem → Items
items [] = nil
items (x ∷ xs) = cons x (items xs)

abbrev pub entries : Items → List NavigationItem
entries nil = []
entries (cons x xs) = x ∷ entries xs

abbrev pub management : List NavigationItem
management =
    leaf "Pregled" "/dashboard" (dashboard_summary ∷ dashboard_operational ∷ []) none
    ∷ leaf "Radni ekran" "/gaming-sessions" (gaming_session_read ∷ []) none
    ∷ leaf "Rezervacije" "/calendar" (reservation_read_all ∷ []) none
    ∷ leaf "Narudžbine" "/orders" (order_read_all ∷ []) none
    ∷ leaf "Klijenti" "/customers" (customer_read ∷ []) none
    ∷ leaf "Oprema" "/equipment" (resource_read ∷ []) none
    ∷ leaf "Upravljanje" "/management"
        (user_list ∷ catalog_manage ∷ working_hours_manage ∷ report_read ∷ audit_read ∷ []) none
    ∷ []

abbrev pub employee_items : List NavigationItem
employee_items =
    leaf "Radni ekran" "/dashboard" (dashboard_operational ∷ gaming_session_read ∷ []) none
    ∷ leaf "Rezervacije" "/calendar" (reservation_read_all ∷ []) none
    ∷ leaf "Narudžbine" "/orders" (order_read_all ∷ []) none
    ∷ leaf "Klijenti" "/customers" (customer_read ∷ []) none
    ∷ leaf "Alati" "/tools" (catalog_read ∷ resource_read ∷ station_read ∷ report_read ∷ []) none
    ∷ []

abbrev pub customer_items : List NavigationItem
customer_items =
    leaf "Početna" "/home" (reservation_read_own ∷ order_read_own ∷ []) none
    ∷ leaf "Rezerviši" "/my-reservations?booking=new" (reservation_create ∷ []) none
    ∷ leaf "Moji termini" "/my-reservations" (reservation_read_own ∷ []) none
    ∷ leaf "Ponuda" "/catalog" (catalog_read ∷ []) none
    ∷ []

abbrev pub management_items : List NavigationItem
management_items =
    branch "Zaposleni" "/employees" (user_list ∷ working_hours_manage ∷ []) none (
      items (
        leaf "Tim i pristup" "/employees" (user_list ∷ []) none
        ∷ leaf "Odsustva zaposlenih" "/employee-time-off" (working_hours_manage ∷ []) none
        ∷ []))
    ∷ leaf "Ponuda i cene" "/catalog" (catalog_manage ∷ []) none
    ∷ leaf "Rad igraonice" "/settings" (working_hours_manage ∷ []) none
    ∷ leaf "Izveštaji" "/reports" (report_read ∷ []) (some reports_flag)
    ∷ leaf "Evidencija promena" "/audit" (audit_read ∷ []) none
    ∷ []

abbrev pub equipment_items : List NavigationItem
equipment_items =
    leaf "Prostor i resursi" "/resources" (resource_read ∷ []) none
    ∷ leaf "PC konfiguracija" "/stations" (station_read ∷ []) none
    ∷ []

abbrev pub tool_items : List NavigationItem
tool_items =
    leaf "Ponuda" "/catalog" (catalog_read ∷ []) none
    ∷ leaf "Mapa dostupnosti" "/resources" (resource_read ∷ []) none
    ∷ leaf "Informacije o stanicama" "/stations" (station_read ∷ []) none
    ∷ leaf "Izveštaji" "/reports" (report_read ∷ []) (some reports_flag)
    ∷ []

-- The filter of `permittedItems`.
unfoldable pub is_permitted : AuthUser → Flags → List Permission → Option FeatureFlagKey → Bool
is_permitted user flags capability flag =
    any (λ permission. has_capability (some user) permission) capability
    && (elim flag [ none ↦ true | some key ↦ flag_of flags key ])

-- `children.length ? [{ ...value, to: children[0].to, children }] : []`, in front of the rest.
abbrev pub branch_before :
    String → List Permission → Option FeatureFlagKey → (children rest : Items) → Items
branch_before label capability flag nil rest = rest
branch_before label capability flag (cons first more) rest =
    cons (branch label (to_of first) capability flag (cons first more)) rest

abbrev mutual
  pub permit_item : AuthUser → Flags → NavigationItem → Items → Items
  permit_item user flags (leaf label to capability flag) rest =
      if is_permitted user flags capability flag
      then cons (leaf label to capability flag) rest
      else rest
  permit_item user flags (branch label to capability flag children) rest =
      let inner = branch_before label capability flag (permit user flags children) rest in
      if is_permitted user flags capability flag then inner else rest

  pub permit : AuthUser → Flags → Items → Items
  permit user flags nil = nil
  permit user flags (cons x xs) = permit_item user flags x (permit user flags xs)

unfoldable pub permitted_items : AuthUser → Flags → List NavigationItem → List NavigationItem
unfolding is_permitted
permitted_items user flags xs = entries (permit user flags (items xs))

abbrev pub is_nonempty : List NavigationItem → Bool
is_nonempty [] = false
is_nonempty (x ∷ xs) = true

abbrev pub any_dashboard : AuthUser → Bool
any_dashboard user =
    has_capability (some user) dashboard_operational || has_capability (some user) dashboard_summary

-- The employee's entries, where the work screen leads past a dashboard that may not be seen.
abbrev pub employee_entry : AuthUser → NavigationItem → NavigationItem
employee_entry user value =
    if to_of value === "/dashboard" && not (any_dashboard user)
    then with_to "/gaming-sessions" value
    else value

abbrev pub map_items : (NavigationItem → NavigationItem) → List NavigationItem → List NavigationItem
map_items f [] = []
map_items f (x ∷ xs) = f x ∷ map_items f xs

unfoldable pub primary_for : AuthUser → List NavigationItem
primary_for user =
    if is_role user.role customer
    then customer_items
    else if is_role user.role employee
    then map_items (employee_entry user) employee_items
    else management

-- Whether an entry that leads to a page of entries leads to any.
unfoldable pub leads_somewhere : AuthUser → Flags → NavigationItem → Bool
unfolding permitted_items
leads_somewhere user flags value =
    if to_of value === "/management"
    then is_nonempty (permitted_items user flags management_items)
    else if to_of value === "/equipment"
    then is_nonempty (permitted_items user flags equipment_items)
    else if to_of value === "/tools"
    then is_nonempty (permitted_items user flags tool_items)
    else if contains (codes "booking=new") (codes (to_of value))
    then has_capability (some user) reservation_read_own
    else true

-- The items of the one group, and no group if there are none.
unfoldable pub navigation_for : AuthUser → Flags → List NavigationItem
unfolding primary_for leads_somewhere
navigation_for user flags =
    filter (leads_somewhere user flags) (permitted_items user flags (primary_for user))

abbrev pub home_for_role : Role → String
home_for_role role = if is_role role customer then "/home" else "/dashboard"

abbrev pub first_to : List NavigationItem → Option String
first_to [] = none
first_to (x ∷ xs) = some (to_of x)

abbrev pub or_else : Option String → Option String → Option String
or_else none b = b
or_else (some a) b = some a

abbrev pub found_to : Option NavigationItem → Option String
found_to none = none
found_to (some x) = some (to_of x)

unfoldable pub home_for_user : AuthUser → Flags → String
unfolding navigation_for
home_for_user user flags =
    let shown = navigation_for user flags in
    let available =
      or_else (found_to (find (λ x. to_of x === home_for_role user.role) shown)) (first_to shown) in
    let other =
      first_to (permitted_items user flags (tool_items ++ management_items ++ equipment_items)) in
    if not (is_role user.role customer) && any_dashboard user
    then "/dashboard"
    else elim (or_else available other) [
      | some to ↦ to
      | none ↦ if has_capability (some user) profile_read then "/profile" else "/unauthorized"
    ]

abbrev pub is_new : Option String → Bool
is_new none = false
is_new (some booking) = booking === "new"

abbrev pub has_role : Role → Option Role → Bool
has_role r none = false
has_role r (some role) = is_role role r

-- The pages on which an entry is marked, for those that have more than one.
abbrev pub pages : String → Option Role → Option (List String)
pages to role =
    if to === "/calendar"
    then some ("/calendar" ∷ "/reservations" ∷ "/waitlist" ∷ [])
    else if to === "/equipment"
    then some ("/equipment" ∷ "/resources" ∷ "/stations" ∷ [])
    else if to === "/management"
    then some (
        "/management" ∷ "/employees" ∷ "/users" ∷ "/employee-time-off" ∷ "/settings" ∷ "/reports"
        ∷ "/audit" ∷ "/catalog" ∷ [])
    else if to === "/employees"
    then some ("/employees" ∷ "/users" ∷ [])
    else if to === "/tools"
    then some ("/tools" ∷ "/resources" ∷ "/stations" ∷ "/reports" ∷ "/catalog" ∷ [])
    else if to === "/catalog" && has_role customer role
    then some ("/catalog" ∷ "/my-orders" ∷ "/resources" ∷ [])
    else if to === "/dashboard" && has_role employee role
    then some ("/dashboard" ∷ "/gaming-sessions" ∷ [])
    else none

-- `booking` is the value of that name in the search part of the address.
unfoldable pub navigation_active : String → String → Option String → Option Role → Bool
navigation_active to pathname booking role =
    if contains (codes "?") (codes to)
    then pathname === "/my-reservations" && is_new booking
    else if to === "/my-reservations"
    then pathname === to && not (is_new booking)
    else elim (pages to role) [ some pages ↦ includes pages pathname | none ↦ to === pathname ]
