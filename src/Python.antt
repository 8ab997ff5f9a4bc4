-- ===== src/Python.antt =====
-- What the source uses of Python's `str`, `int` and `json`.
pub mod Space
pub mod Decimal
pub mod Json
pub mod Value
