-- ===== src/Tests/Network.antt =====
-- The theorems about network/ at concrete inputs.
