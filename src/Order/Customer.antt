-- ===== src/Order/Customer.antt =====
-- order/customer/useCustomerCart.ts: the state of a customer's cart, and its stored form.
-- `state` is the React state; the ref `latest` holds the same value between two operations. The texts
-- shown to the customer are told apart, not spelled out.
pub mod Draft
pub mod Edit
pub mod Send
pub mod Steps
pub mod Laws
use g_manager.Common.{
  ℕ, String, Bool, true, false, ◌&&◌, Option, none, some, List, [], ◌∷◌, ◌===◌, Dict, filter,
}
use g_manager.Auth.Types.{AuthUser}
use g_manager.Api.Http.{Cause}
use g_manager.Api.Idempotency.{IdempotencyKeyManager, new}
use g_manager.Order.Types.{OrderLine}

-- CustomerOrderAttempt
pub record Attempt : Type 0 where
  pub key : String
  pub lines : List OrderLine
  pub estimated_total : ℕ

pub record CartState : Type 0 where
  pub ready : Bool
  pub quantities : Dict ℕ
  pub attempt : Option Attempt

pub data Warning : Type 0 where
  no_warning not_loaded not_saved empty_not_saved : Warning

pub data Notice : Type 0 where
  silent attempt_waiting unavailable_removed price_changed total_differs outcome_unknown : Notice

pub data SubmitError : Type 0 where
  no_error unknown_outcome : SubmitError
  reported : Cause → SubmitError

pub record CustomerCart : Type 0 where
  pub state : CartState
  pub warning : Warning
  pub notice : Notice
  pub submitting : Bool
  pub submit_error : SubmitError
  pub create_attempt : IdempotencyKeyManager
  pub submit_in_flight : Bool
  pub prices : Dict ℕ

-- What the hook reads from outside: its arguments, whether it is mounted, and the signed-in user.
pub record Context : Type 0 where
  pub user_id : String
  pub can_catalog : Bool
  pub mounted : Bool
  pub user : Option AuthUser

-- The initial values of the hook.
abbrev pub initial : CustomerCart
initial = record {
  state = record { ready = false; quantities = []; attempt = none };
  warning = no_warning;
  notice = silent;
  submitting = false;
  submit_error = no_error;
  create_attempt = new none;
  submit_in_flight = false;
  prices = [];
}

abbrev pub is_user : String → Option AuthUser → Bool
is_user id none = false
is_user id (some user) = user.id === id

abbrev pub current_actor : Context → Bool
current_actor c = c.mounted && is_user c.user_id c.user
