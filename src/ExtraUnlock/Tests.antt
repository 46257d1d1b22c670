-- ===== src/ExtraUnlock/Tests.antt =====
-- main-two-cvs-while-extra-unlock.c: a buffer of three slots.
