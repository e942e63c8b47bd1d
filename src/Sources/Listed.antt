-- ===== src/Sources/Listed.antt =====
-- What the connectors of dealfinder/live_sources.py list, seen from dealfinder/licensing.py.
