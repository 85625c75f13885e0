-- ===== src/Frame/Bounds.antt =====
-- frame.cpp: the decoders of variable length and the memory they read.
