-- ===== src/Push/Urls/Examples.antt =====
-- The theorems on paths and on the interval at concrete values.
