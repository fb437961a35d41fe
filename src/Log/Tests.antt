-- ===== src/Log/Tests.antt =====
-- Messages to a category that keeps its lines.
use p_rpc.Writable.{c_string}
use p_rpc.Base.{codes, List, ℕ, length, ◌++◌, [], ◌∷◌, suc, ◌≡◌, refl, zero, arith, ap}
use p_rpc.Log.{Log4cpp, LogLevel, text, write_format, get_string, dispatch_format}
use p_rpc.Log.Overloads.{write_format-eq-write_level, IsShown, Agree}

instance abbrev lines : Log4cpp
lines = record {
  Category = List (LogLevel × List ℕ);
  log_debug = λ line root. root ++ (LogLevel.debug, line) ∷ [];
  log_info = λ line root. root ++ (LogLevel.info, line) ∷ [];
  log_notice = λ line root. root ++ (LogLevel.notice, line) ∷ [];
  log_warn = λ line root. root ++ (LogLevel.warn, line) ∷ [];
  log_error = λ line root. root ++ (LogLevel.error, line) ∷ [];
}

abbrev ready : List ℕ
ready = codes "ready"

-- What the line looks like.
write_format_line :
    (write_format (codes "7") (text ready) ([], 0)).0 ≡ (LogLevel.info, codes "<7> ready") ∷ []
unfolding write_format get_string dispatch_format c_string
write_format_line = refl

abbrev replicate : ℕ → List ℕ
replicate zero = []
replicate (suc n) = b'x' ∷ replicate n

length-replicate : (n : ℕ) → length (replicate n) ≡ n
length-replicate zero = refl
length-replicate (suc n) = ap suc (length-replicate n)

abbrev long : List ℕ
long = replicate 2000

write_format-eq-write_level_example :
    Agree LogLevel.alert (codes "7") [] (text long) 1 ((LogLevel.info, ready) ∷ []) 2
write_format-eq-write_level_example =
    write_format-eq-write_level LogLevel.alert (codes "7") ((LogLevel.info, ready) ∷ []) 2
      (IsShown.too_long {t = long} (omega (arith, length-replicate 2000)))
