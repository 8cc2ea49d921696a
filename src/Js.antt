-- ===== src/Js.antt =====
-- The collections of the JavaScript library that the packages use.
pub mod Set
pub mod Map
