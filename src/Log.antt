-- ===== src/Log.antt =====
-- include/Log.h, src/Log.cpp and src/Utils.cpp: messages for log4cpp, and the clock. log4cpp is an
-- interface: the root category with a method for each priority. `vsnprintf` and the id of the thread
-- are parameters. What `simple` and `Properties` do is not modelled: nothing calls them.
pub mod Overloads
mod Tests
use p_rpc.Base.{ℕ, List, ◌*◌, ◌+◌, if◌then◌else◌, codes, ltb, ◌++◌, ◌/◌, length, []}
use p_rpc.Writable.{c_string}

pub data LogLevel : Type 0 where
  debug info notice warn error crit alert fatal : LogLevel

-- `log4cpp::Category`, with what a message does to it.
pub record Log4cpp : Type 1 where
  pub Category : Type 0
  pub log_debug : List ℕ → Category → Category
  pub log_info : List ℕ → Category → Category
  pub log_notice : List ℕ → Category → Category
  pub log_warn : List ℕ → Category → Category
  pub log_error : List ℕ → Category → Category

abbrev pub default_log_level : LogLevel
default_log_level = info

-- What `vsnprintf` makes of a format and its arguments, in a buffer of `size` bytes: the whole text,
-- whose length it returns, or a negative number.
pub data Formatted : Type 0 where
  text : List ℕ → Formatted
  failed : Formatted

abbrev pub buffer_size : ℕ
buffer_size = 1024

-- `getString`, for a string that is empty: the string afterwards, and how many buffers are leaked.
-- `assign` takes the buffer up to its first NUL.
unfoldable pub get_string : Formatted → List ℕ × ℕ
get_string (text t) = if ltb (length t) buffer_size then (c_string t, 0) else ([], 1)
get_string failed = ([], 1)

-- `"<" << tid << "> " << msg`
abbrev pub stamped : List ℕ → List ℕ → List ℕ
stamped tid msg = codes "<" ++ (tid ++ (codes "> " ++ msg))

module _ ⦃log : Log4cpp⦄ where
  open log use {Category, log_debug, log_info, log_notice, log_warn, log_error}

  -- The `switch` of `write(string)`, and below it that of each other overload.
  unfoldable pub dispatch_message : LogLevel → List ℕ → Category → Category
  dispatch_message debug line = log_debug line
  dispatch_message info line = log_info line
  dispatch_message notice line = log_notice line
  dispatch_message warn line = log_warn line
  dispatch_message error line = log_error line
  dispatch_message crit line = log_error line
  dispatch_message alert line = log_error line
  dispatch_message fatal line = log_error line

  -- `write(string)`
  unfoldable pub write_message : List ℕ → List ℕ → Category → Category
  write_message tid msg root = dispatch_message default_log_level (stamped tid msg) root

  -- The `switch` of `write(LogLevel, string)`.
  unfoldable pub dispatch_level : LogLevel → List ℕ → Category → Category
  dispatch_level debug line = log_debug line
  dispatch_level info line = log_info line
  dispatch_level notice line = log_notice line
  dispatch_level warn line = log_warn line
  dispatch_level error line = log_error line
  dispatch_level crit line = log_error line
  dispatch_level alert line = log_error line
  dispatch_level fatal line = log_error line

  -- `write(LogLevel, string)`
  unfoldable pub write_level : LogLevel → List ℕ → List ℕ → Category → Category
  write_level level tid msg root = dispatch_level level (stamped tid msg) root

  -- The `switch` of `write(const char*, ...)`.
  unfoldable pub dispatch_format : LogLevel → List ℕ → Category → Category
  dispatch_format debug line = log_debug line
  dispatch_format info line = log_info line
  dispatch_format notice line = log_notice line
  dispatch_format warn line = log_warn line
  dispatch_format error line = log_error line
  dispatch_format crit line = log_error line
  dispatch_format alert line = log_error line
  dispatch_format fatal line = log_error line

  -- `write(const char*, ...)`, with the number of buffers leaked so far.
  unfoldable pub write_format : List ℕ → Formatted → Category × ℕ → Category × ℕ
  write_format tid formatted (root, leaked) =
      let (str, leak) = get_string formatted in
      (dispatch_format default_log_level (stamped tid str) root, leaked + leak)

  -- The `switch` of `write(LogLevel, const char*, ...)`.
  unfoldable pub dispatch_level_format : LogLevel → List ℕ → Category → Category
  dispatch_level_format debug line = log_debug line
  dispatch_level_format info line = log_info line
  dispatch_level_format notice line = log_notice line
  dispatch_level_format warn line = log_warn line
  dispatch_level_format error line = log_error line
  dispatch_level_format crit line = log_error line
  dispatch_level_format alert line = log_error line
  dispatch_level_format fatal line = log_error line

  -- `write(LogLevel, const char*, ...)`
  unfoldable pub write_level_format : LogLevel → List ℕ → Formatted → Category × ℕ → Category × ℕ
  write_level_format level tid formatted (root, leaked) =
      let (str, leak) = get_string formatted in
      (dispatch_level_format level (stamped tid str) root, leaked + leak)

-- `Utils::getTime`, in milliseconds, of the seconds and microseconds that `gettimeofday` gives.
unfoldable pub get_time : ℕ → ℕ → ℕ
get_time sec usec = sec * 1000 + usec / 1000
