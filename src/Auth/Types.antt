-- ===== src/Auth/Types.antt =====
-- types/auth.types.ts: roles, permissions and the signed-in user; feature.types.ts.
use g_manager.Common.{String, Bool, Option, List, ℕ, ◌==◌}

pub data Role : Type 0 where
  owner admin employee customer : Role

pub data Permission : Type 0 where
  waitlist_manage profile_read profile_update employee_list : Permission
  user_list user_create user_deactivate user_delete : Permission
  user_restore customer_read customer_create customer_update_limited : Permission
  customer_deactivate customer_crm_manage catalog_read catalog_manage : Permission
  catalog_delete catalog_restore audit_read working_hours_read : Permission
  working_hours_manage resource_read resource_manage station_read : Permission
  station_maintenance application_profile_manage machine_identity_manage gaming_payment_record :
      Permission
  gaming_finance_manage gaming_session_read gaming_session_start gaming_session_extend : Permission
  gaming_session_terminate reservation_create reservation_read_own reservation_read_all : Permission
  reservation_change_status order_create order_read_own order_read_all : Permission
  order_change_status dashboard_summary dashboard_operational metrics_read : Permission
  report_read report_manage feature_flag_manage : Permission

-- The place of a permission in the union type: two are the same text when it is the same.
abbrev pub ordinal : Permission → ℕ
ordinal waitlist_manage = 0
ordinal profile_read = 1
ordinal profile_update = 2
ordinal employee_list = 3
ordinal user_list = 4
ordinal user_create = 5
ordinal user_deactivate = 6
ordinal user_delete = 7
ordinal user_restore = 8
ordinal customer_read = 9
ordinal customer_create = 10
ordinal customer_update_limited = 11
ordinal customer_deactivate = 12
ordinal customer_crm_manage = 13
ordinal catalog_read = 14
ordinal catalog_manage = 15
ordinal catalog_delete = 16
ordinal catalog_restore = 17
ordinal audit_read = 18
ordinal working_hours_read = 19
ordinal working_hours_manage = 20
ordinal resource_read = 21
ordinal resource_manage = 22
ordinal station_read = 23
ordinal station_maintenance = 24
ordinal application_profile_manage = 25
ordinal machine_identity_manage = 26
ordinal gaming_payment_record = 27
ordinal gaming_finance_manage = 28
ordinal gaming_session_read = 29
ordinal gaming_session_start = 30
ordinal gaming_session_extend = 31
ordinal gaming_session_terminate = 32
ordinal reservation_create = 33
ordinal reservation_read_own = 34
ordinal reservation_read_all = 35
ordinal reservation_change_status = 36
ordinal order_create = 37
ordinal order_read_own = 38
ordinal order_read_all = 39
ordinal order_change_status = 40
ordinal dashboard_summary = 41
ordinal dashboard_operational = 42
ordinal metrics_read = 43
ordinal report_read = 44
ordinal report_manage = 45
ordinal feature_flag_manage = 46

pub record AuthUser : Type 0 where
  pub id : String
  pub name : String
  pub email : String
  pub role : Role
  pub active : Bool
  pub avatar_url : Option String
  pub permissions : Option (List Permission)

-- `===` between roles.
abbrev pub role_ordinal : Role → ℕ
role_ordinal owner = 0
role_ordinal admin = 1
role_ordinal employee = 2
role_ordinal customer = 3

abbrev pub is_role : Role → Role → Bool
is_role a b = role_ordinal a == role_ordinal b
