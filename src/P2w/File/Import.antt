-- ===== src/P2w/File/Import.antt =====
-- Which files `importFromP2W` (web/src/utils/p2wFormat.ts) imports.
