-- ===== src/Python.antt =====
-- The parts of Python that the modelled code stands on: JSON values, texts, decimals and
-- the quotients that overflow.
pub mod Value
pub mod Text
pub mod Decimal
pub mod Float
