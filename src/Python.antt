-- ===== src/Python.antt =====
-- The Python values that the scripts handle: decoded JSON, tests on its types, and the
-- reading of a JSON text with the scripts' hooks.
pub mod Value
pub mod Json
pub mod Equal
pub mod Plain
