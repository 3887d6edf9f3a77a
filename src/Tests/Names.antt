-- ===== src/Tests/Names.antt =====
-- Lookups of fairmq/States.cxx at concrete names.
