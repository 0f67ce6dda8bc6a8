-- ===== src/Logger.antt =====
-- src/Loggers/Logger.cpp, src/Loggers/Logger.h: a line of the log from its macro to the output function.
-- `gmtime_r` and `localtime_r` are parameters, as are the texts of `strerror_r` and of the thread's
-- number. A character is its code.
pub mod Split
pub mod Stamp
pub mod Levels
pub mod Tests
use learning_network.Prelude.{
  Outcome, ok, ◌>>=◌, ℕ, zero, suc, ◌+◌, ◌-◌, ◌/◌, ◌%◌, ◌==◌, leb, Bool, true, false, not, ◌&&◌,
  if◌then◌else◌, List, [], ◌∷◌, ◌++◌, length, take, replicate, Option, none, some,
}
use learning_network.LogStream.{
  ℤ, pos, negsuc, convert, Item, int_item, string_item, char_item, put_each,
}

-- `SourceFile`: the characters that `data` points to, and `size`.
pub record SourceFile : Type 0 where
  pub data_ : List ℕ
  pub size : ℕ

-- What follows the last '/', which `strrchr` finds.
unfoldable pub after_slash : List ℕ → Option (List ℕ)
after_slash [] = none
after_slash (c ∷ cs) = elim (after_slash cs) [
  | some rest ↦ some rest
  | none ↦ if c == 47 then some cs else none
]

-- The constructor for a string literal, whose array holds one character more.
unfoldable pub source_file : List ℕ → SourceFile
source_file arr = elim (after_slash arr) [
  | none ↦ record { data_ = arr; size = length arr }
  | some rest ↦ record { data_ = rest; size = length arr - (length arr - length rest) }
]

-- The constructor for a pointer. Without a '/' it leaves `size` as it was in memory.
unfoldable source_file_at : ℕ → List ℕ → SourceFile
source_file_at junk filename = elim (after_slash filename) [
  | none ↦ record { data_ = filename; size = junk }
  | some rest ↦ record { data_ = rest; size = length rest }
]

abbrev pub million : ℕ
million = 1000000

abbrev pub negated : ℕ → ℤ
negated zero = pos 0
negated (suc n) = negsuc n

-- `/ 1000000` and `% 1000000`, which round towards 0.
abbrev trunc_div : ℤ → ℤ
trunc_div (pos n) = pos (n / million)
trunc_div (negsuc n) = negated (suc n / million)

abbrev trunc_mod : ℤ → ℤ
trunc_mod (pos n) = pos (n % million)
trunc_mod (negsuc n) = negated (suc n % million)

abbrev less_one : ℤ → ℤ
less_one (pos zero) = negsuc 0
less_one (pos (suc n)) = pos n
less_one (negsuc n) = negsuc (suc n)

-- A negative rest is made positive, with one second less.
abbrev pub adjust : ℤ → ℤ → ℤ × ℕ
adjust seconds (pos r) = (seconds, r)
adjust seconds (negsuc r) = (less_one seconds, million - suc r)

-- The seconds and the microseconds of `microseconds_to_utc_string`, `microseconds_to_localtime_string`
-- and `formatedTime`.
unfoldable pub split_time : ℤ → ℤ × ℕ
split_time t = adjust (trunc_div t) (trunc_mod t)

-- `struct tm`, with the year and the month as they are printed, for years from 0 on.
pub record Tm : Type 0 where
  pub year : ℕ
  pub mon : ℕ
  pub mday : ℕ
  pub hour : ℕ
  pub min : ℕ
  pub sec : ℕ

-- `%0wd`
pub padded : ℕ → ℕ → List ℕ
padded w n = replicate (w - length (convert (pos n))) 48 ++ convert (pos n)

-- What `snprintf` with "%04d-%02d-%02d %02d:%02d:%02d.%06lld" makes of its arguments.
pub stamp_text : Tm → ℕ → List ℕ
stamp_text tm us =
    let minutes = padded 2 tm.min ++ (58 ∷ (padded 2 tm.sec ++ (46 ∷ padded 6 us))) in
    let clock = padded 2 tm.hour ++ (58 ∷ minutes) in
    padded 4 tm.year ++ (45 ∷ (padded 2 tm.mon ++ (45 ∷ (padded 2 tm.mday ++ (32 ∷ clock)))))

-- `microseconds_to_utc_string`, with `gmtime_r`: the buffer has room for 31 characters.
pub microseconds_to_string : (ℤ → Tm) → ℤ → List ℕ
microseconds_to_string calendar t =
    let (seconds, us) = split_time t in take 31 (stamp_text (calendar seconds) us)

-- `microseconds_to_localtime_string`, with `localtime_r`
microseconds_to_localtime_string : (ℤ → Tm) → ℤ → List ℕ
unfolding microseconds_to_string
microseconds_to_localtime_string localtime t = microseconds_to_string localtime t

-- The text that `formatedTime` streams: the first 26 characters of its buffer.
pub formated_time : (ℤ → Tm) → ℕ → List ℕ
formated_time gmtime t =
    let (seconds, us) = split_time (pos t) in take 26 (take 31 (stamp_text (gmtime seconds) us))

pub data LogLevel : Type 0 where
  level_trace : LogLevel
  level_debug : LogLevel
  level_info : LogLevel
  level_warn : LogLevel
  level_error : LogLevel
  level_fatal : LogLevel

abbrev pub level_number : LogLevel → ℕ
level_number level_trace = 0
level_number level_debug = 1
level_number level_info = 2
level_number level_warn = 3
level_number level_error = 4
level_number level_fatal = 5

-- `initLogLevel`, by whether the two variables are set.
init_log_level : Bool → Bool → LogLevel
init_log_level log_trace log_debug =
    if log_trace then level_trace else if log_debug then level_debug else level_info

-- `LogLevelName`
level_name : LogLevel → List ℕ
level_name level_trace = 84 ∷ 82 ∷ 65 ∷ 67 ∷ 69 ∷ 32 ∷ []
level_name level_debug = 68 ∷ 69 ∷ 66 ∷ 85 ∷ 71 ∷ 32 ∷ []
level_name level_info = 73 ∷ 78 ∷ 70 ∷ 79 ∷ 32 ∷ 32 ∷ []
level_name level_warn = 87 ∷ 65 ∷ 82 ∷ 78 ∷ 32 ∷ 32 ∷ []
level_name level_error = 69 ∷ 82 ∷ 82 ∷ 79 ∷ 82 ∷ 32 ∷ []
level_name level_fatal = 70 ∷ 65 ∷ 84 ∷ 65 ∷ 76 ∷ 32 ∷ []

text : List ℕ → Item
text cs = string_item (some cs)

-- What `Impl` streams for an `errno` that is not 0.
error_items : List ℕ → ℕ → List Item
unfolding text
error_items message e =
    if e == 0
    then []
    else text message
      ∷ text (32 ∷ 40 ∷ 101 ∷ 114 ∷ 114 ∷ 110 ∷ 111 ∷ 61 ∷ [])
      ∷ int_item (pos e)
      ∷ text (41 ∷ 32 ∷ [])
      ∷ []

-- The constructor of `Impl`: "[", the time, "] ", "tid:", the thread's number, " ", the level.
impl_items : List ℕ → List ℕ → LogLevel → List ℕ → ℕ → List Item
unfolding text error_items
impl_items stamp tid level message e =
    text (91 ∷ [])
    ∷ text stamp
    ∷ text (93 ∷ 32 ∷ [])
    ∷ text (116 ∷ 105 ∷ 100 ∷ 58 ∷ [])
    ∷ text tid
    ∷ text (32 ∷ [])
    ∷ text (level_name level)
    ∷ error_items message e

-- `finish`
pub finish_items : SourceFile → ℕ → List Item
unfolding text
finish_items file line =
    text (32 ∷ 45 ∷ 32 ∷ [])
    ∷ text (take file.size file.data_)
    ∷ char_item 58
    ∷ int_item (pos line)
    ∷ char_item 10
    ∷ []

-- The macros, by what stands behind `LOG_`.
pub data LogMacro : Type 0 where
  log_trace : LogMacro
  log_debug : LogMacro
  log_info : LogMacro
  log_warn : LogMacro
  log_error : LogMacro
  log_fatal : LogMacro
  log_syserr : LogMacro
  log_sysfatal : LogMacro

-- The level that the constructor gets.
pub macro_level : LogMacro → LogLevel
macro_level log_trace = level_trace
macro_level log_debug = level_debug
macro_level log_info = level_info
macro_level log_warn = level_warn
macro_level log_error = level_error
macro_level log_fatal = level_fatal
macro_level log_syserr = level_info
macro_level log_sysfatal = level_error

-- Whether the macro's test lets the line be made.
pub is_logged : LogLevel → LogMacro → Bool
is_logged g log_trace = leb (level_number g) 0
is_logged g log_debug = leb (level_number g) 1
is_logged g log_info = leb (level_number g) 2
is_logged g log_warn = true
is_logged g log_error = true
is_logged g log_fatal = true
is_logged g log_syserr = true
is_logged g log_sysfatal = true

-- `g_logLevel`, the lines given to `g_output`, the calls of `g_flush`, and whether `abort` was called.
pub record LogGlobals : Type 0 where
  pub log_level : LogLevel
  pub outputs : List (List ℕ)
  pub flushes : ℕ
  pub aborted : Bool

-- The destructor, with the items of the line. It looks at the threshold, not at the line's level.
pub destroy_logger : List Item → LogGlobals → Outcome LogGlobals
destroy_logger items g = put_each [] items >>= λ line. ok (record g {
  outputs = g.outputs ++ (line ∷ []);
  flushes = suc g.flushes;
  aborted = level_number g.log_level == 5;
})

-- What the constructor streams: LOG_TRACE and LOG_DEBUG name the function, LOG_SYSERR and LOG_SYSFATAL
-- the error.
pub head_items : LogMacro → List ℕ → List ℕ → List ℕ → ℕ → List ℕ → List Item
unfolding impl_items text macro_level
head_items log_trace stamp tid message e func =
    impl_items stamp tid level_trace message 0 ++ (text func ∷ text [] ∷ [])
head_items log_debug stamp tid message e func =
    impl_items stamp tid level_debug message 0 ++ (text func ∷ text [] ∷ [])
head_items log_info stamp tid message e func = impl_items stamp tid level_info message 0
head_items log_warn stamp tid message e func = impl_items stamp tid level_warn message 0
head_items log_error stamp tid message e func = impl_items stamp tid level_error message 0
head_items log_fatal stamp tid message e func = impl_items stamp tid level_fatal message 0
head_items log_syserr stamp tid message e func = impl_items stamp tid level_info message e
head_items log_sysfatal stamp tid message e func = impl_items stamp tid level_error message e

-- One statement with a macro, after the constructor has streamed `head`; the other items are the user's
-- and those of `finish`.
pub log_statement :
    LogMacro → List Item → SourceFile → ℕ → List Item → LogGlobals → Outcome LogGlobals
log_statement k head file line items g =
    let logged = destroy_logger (head ++ (items ++ finish_items file line)) g in
    if is_logged g.log_level k && not g.aborted then logged else ok g
