-- ===== src/Logger/Tests.antt =====
-- Concrete lines of src/Loggers/Logger.cpp.
use learning_network.Prelude.{◌≡◌, refl, arith, [], ◌∷◌}
use learning_network.LogStream.{ℤ, pos, negsuc}
use learning_network.Logger.{
  SourceFile, source_file, after_slash, Tm, split_time, microseconds_to_string, formated_time,
}
use learning_network.Logger.Split.{joined_time}
use learning_network.Logger.Stamp.{IsCalendar, Reads, microseconds_to_string-Reads}

abbrev last_day : Tm
last_day = record { year = 1969; mon = 12; mday = 31; hour = 23; min = 59; sec = 58 }

abbrev fixed : ℤ → Tm
fixed seconds = last_day

last_day-IsCalendar : IsCalendar last_day
last_day-IsCalendar = omega arith

microseconds_to_string-Reads_example :
    Reads last_day (split_time (negsuc 1499999)).1 (microseconds_to_string fixed (negsuc 1499999))
    × (joined_time (split_time (negsuc 1499999)).0 (split_time (negsuc 1499999)).1 ≡ negsuc 1499999)
    × (negsuc 1499999 ≡ pos 7
        → formated_time fixed 7 ≡ microseconds_to_string fixed (negsuc 1499999))
microseconds_to_string-Reads_example =
    microseconds_to_string-Reads fixed (negsuc 1499999) 7 last_day-IsCalendar

-- One and a half seconds before the epoch.
before_epoch : split_time (negsuc 1499999) ≡ (negsuc 1, 500000)
unfolding split_time
before_epoch = refl

abbrev main_cpp : SourceFile
main_cpp = record { data_ = 109 ∷ 46 ∷ 99 ∷ []; size = 3 }

main_cpp_name : source_file (115 ∷ 47 ∷ 109 ∷ 46 ∷ 99 ∷ []) ≡ main_cpp
unfolding source_file after_slash
main_cpp_name = refl
