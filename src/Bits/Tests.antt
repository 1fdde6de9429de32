-- ===== src/Bits/Tests.antt =====
-- Rounding at a small number.
