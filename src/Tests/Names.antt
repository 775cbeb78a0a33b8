-- ===== src/Tests/Names.antt =====
-- The names of acme and of a tenant that is called like acme's auxiliary database.
