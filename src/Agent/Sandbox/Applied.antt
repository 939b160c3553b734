-- ===== src/Agent/Sandbox/Applied.antt =====
-- What a plan does to the project.
