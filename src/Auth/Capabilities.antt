-- ===== src/Auth/Capabilities.antt =====
-- auth/capabilities.ts: what a user may do.
use g_manager.Auth.Types.{
  Role, owner, admin, employee, customer, Permission, ordinal, AuthUser, waitlist_manage,
  profile_read, profile_update, employee_list, user_list, user_create, user_deactivate, user_delete,
  user_restore, customer_read, customer_create, customer_update_limited, customer_deactivate,
  customer_crm_manage, catalog_read, catalog_manage, catalog_delete, catalog_restore, audit_read,
  working_hours_read, working_hours_manage, resource_read, resource_manage, station_read,
  station_maintenance, application_profile_manage, machine_identity_manage, gaming_payment_record,
  gaming_finance_manage, gaming_session_read, gaming_session_start, gaming_session_extend,
  gaming_session_terminate, reservation_create, reservation_read_own, reservation_read_all,
  reservation_change_status, order_create, order_read_own, order_read_all, order_change_status,
  dashboard_summary, dashboard_operational, metrics_read, report_read, report_manage,
  feature_flag_manage,
}
use g_manager.Common.{Bool, false, Option, none, some, List, [], ◌∷◌, ◌++◌, ◌==◌, any}

-- Array.prototype.includes
abbrev pub grants : List Permission → Permission → Bool
grants given p = any (λ q. ordinal q == ordinal p) given

abbrev pub profile : List Permission
profile =
    profile_read ∷ profile_update ∷ catalog_read ∷ working_hours_read ∷ employee_list
    ∷ resource_read ∷ []

unfoldable pub role_capabilities : Role → List Permission
role_capabilities customer =
    profile
    ++ reservation_create ∷ reservation_read_own ∷ reservation_change_status ∷ order_create
      ∷ order_read_own ∷ order_change_status ∷ []
role_capabilities employee =
    profile
    ++ reservation_create ∷ reservation_read_all ∷ reservation_change_status ∷ waitlist_manage
      ∷ customer_read ∷ customer_create ∷ customer_update_limited ∷ customer_deactivate
      ∷ station_read ∷ gaming_payment_record ∷ gaming_session_read ∷ gaming_session_start
      ∷ gaming_session_extend ∷ gaming_session_terminate ∷ order_read_all ∷ order_change_status
      ∷ dashboard_operational ∷ report_read ∷ []
role_capabilities admin =
    profile
    ++ user_list ∷ user_create ∷ user_deactivate ∷ catalog_manage ∷ waitlist_manage ∷ user_delete
      ∷ user_restore ∷ customer_read ∷ customer_create ∷ customer_update_limited
      ∷ customer_deactivate ∷ customer_crm_manage ∷ catalog_delete ∷ catalog_restore ∷ audit_read
      ∷ working_hours_manage ∷ resource_manage ∷ station_read ∷ station_maintenance
      ∷ application_profile_manage ∷ reservation_create ∷ reservation_read_all
      ∷ reservation_change_status ∷ machine_identity_manage ∷ gaming_finance_manage
      ∷ gaming_payment_record ∷ gaming_session_read ∷ gaming_session_start ∷ gaming_session_extend
      ∷ gaming_session_terminate ∷ order_read_all ∷ order_change_status ∷ dashboard_summary
      ∷ dashboard_operational ∷ metrics_read ∷ report_read ∷ report_manage ∷ feature_flag_manage
      ∷ []
role_capabilities owner =
    profile
    ++ user_list ∷ user_create ∷ user_deactivate ∷ catalog_manage ∷ waitlist_manage ∷ user_delete
      ∷ user_restore ∷ customer_read ∷ customer_create ∷ customer_update_limited
      ∷ customer_deactivate ∷ customer_crm_manage ∷ catalog_delete ∷ catalog_restore ∷ audit_read
      ∷ working_hours_manage ∷ resource_manage ∷ station_read ∷ station_maintenance
      ∷ application_profile_manage ∷ reservation_create ∷ reservation_read_all
      ∷ reservation_change_status ∷ machine_identity_manage ∷ gaming_finance_manage
      ∷ gaming_payment_record ∷ gaming_session_read ∷ gaming_session_start ∷ gaming_session_extend
      ∷ gaming_session_terminate ∷ order_read_all ∷ order_change_status ∷ dashboard_summary
      ∷ dashboard_operational ∷ metrics_read ∷ report_read ∷ report_manage ∷ feature_flag_manage
      ∷ []

unfoldable pub has_capability : Option AuthUser → Permission → Bool
unfolding role_capabilities
has_capability none permission = false
has_capability (some user) permission =
    grants (elim user.permissions [ none ↦ role_capabilities user.role | some given ↦ given ])
      permission
