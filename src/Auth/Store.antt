-- ===== src/Auth/Store.antt =====
-- auth/authStore.ts: the session of the signed-in user. `purged` lists the users whose private data
-- was asked to be deleted, the latest first; that request's failure is ignored.
use g_manager.Common.{
  String, Bool, true, false, not, ◌&&◌, Option, none, some, List, [], ◌∷◌, ◌===◌, if◌then◌else◌,
}
use g_manager.Auth.Types.{AuthUser}
use g_manager.Auth.Features.{FeatureState, reset}

pub record AuthState : Type 0 where
  pub user : Option AuthUser
  pub access_token : Option String
  pub is_initializing : Bool
  pub features : FeatureState
  pub purged : List String

abbrev pub signed_out : AuthState
signed_out = record {
  user = none;
  access_token = none;
  is_initializing = true;
  features = reset;
  purged = [];
}

unfoldable pub set_session : String → AuthUser → AuthState → AuthState
set_session token user s = record s {
  purged = elim s.user [
    | none ↦ s.purged
    | some previous ↦
        if not (previous.id === "") && not (previous.id === user.id)
        then previous.id ∷ s.purged
        else s.purged
  ];
  access_token = some token;
  user = some user;
  is_initializing = false;
}

unfoldable pub update_user : AuthUser → AuthState → AuthState
update_user user s = record s { user = some user }

unfoldable pub clear_session : AuthState → AuthState
clear_session s = record s {
  purged = elim s.user [
    | none ↦ s.purged
    | some previous ↦ if previous.id === "" then s.purged else previous.id ∷ s.purged
  ];
  access_token = none;
  user = none;
  is_initializing = false;
  features = reset;
}

unfoldable pub finish_initialization : AuthState → AuthState
finish_initialization s = record s { is_initializing = false }
