-- ===== src/StaticProbe/Reading.antt =====
-- The functions of apps/fpga_static_probe.cpp that read numbers and split texts. Those of
-- apps/fpga_pr_tester.cpp and src/accelerators.cpp do the same.
use ece506scheduler.Base.{ℕ, List, Option, Text}
use ece506scheduler.Hardware.Udmabuf.{Sysfs, stoull_any, read_value}
use ece506scheduler.Tester.Parsing.{split_colon}

-- parse_size: the number, if it answers true. For an empty text std::stoull would throw.
abbrev pub probe_size : Text → Option ℕ
probe_size = stoull_any

abbrev pub read_uint64_file : Sysfs → Text → Option ℕ
read_uint64_file = read_value

abbrev pub probe_split_colon : Text → List Text
probe_split_colon = split_colon
