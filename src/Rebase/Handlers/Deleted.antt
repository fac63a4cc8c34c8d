-- ===== src/Rebase/Handlers/Deleted.antt =====
-- driver/rebase.go: the handlers on a row that theirs deleted, which the mapping sends to -1.
