-- ===== src/Auth.antt =====
-- The signed-in user: types, capabilities, feature flags and the session store.
pub mod Types
pub mod Capabilities
pub mod Features
pub mod Store
