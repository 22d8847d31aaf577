-- ===== src/Time/PrintLaws.antt =====
-- core/src/Time.c: what `print_time` and `snprint_time` write.
