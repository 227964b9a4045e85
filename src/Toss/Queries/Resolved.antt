-- ===== src/Toss/Queries/Resolved.antt =====
-- A call that needs the account header, of a client that has to resolve the account first.
