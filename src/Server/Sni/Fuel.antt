-- ===== src/Server/Sni/Fuel.antt =====
-- The rounds that the loops of the parser take.
