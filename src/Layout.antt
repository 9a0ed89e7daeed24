-- ===== src/Layout.antt =====
-- What the layout offers: the navigation.
pub mod Navigation
