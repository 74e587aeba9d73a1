-- ===== src/Agent/Loop/Tests.antt =====
-- A model's answer with one call that needs an approval.
