-- ===== src/Activities/Bounds.antt =====
-- How far a plan can be raised.
