-- ===== src/Log/Overloads.antt =====
-- The overloads of `write` against each other, and messages that do not fit the buffer.
use p_rpc.Base.{
  List, ℕ, All, ◌≡◌, length, ◌≤◌, [], ◌<◌, ◌==◌, ◌+◌, false, le→ltb, refl, lt→ltb, ◌∷◌, ap,
}
use p_rpc.Log.{
  LogLevel, Log4cpp, text, failed, get_string, Formatted, stamped, dispatch_message, dispatch_level,
  dispatch_format, dispatch_level_format, write_message, write_level, write_format,
  write_level_format, buffer_size,
}
use p_rpc.Writable.{c_string}

-- The text has no NUL.
abbrev pub HasNoNul : List ℕ → Type 0
HasNoNul t = All (λ b. (b == 0) ≡ false) t

c_string-HasNoNul : (t : List ℕ) → HasNoNul t → c_string t ≡ t
unfolding c_string
c_string-HasNoNul [] h = refl
c_string-HasNoNul (b ∷ bs) h = rw h.0 (ap (◌∷◌ b) (c_string-HasNoNul bs h.1))

-- What a message with a format shows, and how many buffers it costs: the whole text if it is without
-- NUL and has less than 1024 bytes, and nothing, at the cost of its buffer, if it is longer, or if the
-- formatting fails.
pub data IsShown : Formatted → List ℕ → ℕ → Type 0 where
  whole : {t : List ℕ} → HasNoNul t → length t < buffer_size → IsShown (text t) t 0
  too_long : {t : List ℕ} → buffer_size ≤ length t → IsShown (text t) [] 1
  not_formatted : IsShown failed [] 1

get_string-IsShown :
    {f : Formatted} {t : List ℕ} {leak : ℕ} → IsShown f t leak → get_string f ≡ (t, leak)
unfolding get_string
get_string-IsShown (whole {t} h short) = rw (lt→ltb _ _ short, c_string-HasNoNul t h) refl
get_string-IsShown (too_long long) = rw (le→ltb _ _ long) refl
get_string-IsShown not_formatted = refl

module _ ⦃log : Log4cpp⦄ where
  open log use {Category, log_error}

  -- The switches send a line of each level to the same place.
  same_switch :
      (level : LogLevel) (line : List ℕ) (root : Category)
      → dispatch_level_format level line root ≡ dispatch_level level line root
  unfolding dispatch_level_format dispatch_level
  same_switch LogLevel.debug line root = refl
  same_switch LogLevel.info line root = refl
  same_switch LogLevel.notice line root = refl
  same_switch LogLevel.warn line root = refl
  same_switch LogLevel.error line root = refl
  same_switch LogLevel.crit line root = refl
  same_switch LogLevel.alert line root = refl
  same_switch LogLevel.fatal line root = refl

  -- What the four overloads of `write` have in common, for a message that shows the text `t`.
  pub record Agree (level : LogLevel) (tid t : List ℕ) (f : Formatted) (leak : ℕ) (root : Category)
      (leaked : ℕ) : Type 0 where
    pub with_level :
        write_level_format level tid f (root, leaked)
        ≡ (write_level level tid t root, leaked + leak)
    pub without_level :
        write_format tid f (root, leaked) ≡ write_level_format LogLevel.info tid f (root, leaked)
    pub plain : write_message tid t root ≡ write_level LogLevel.info tid t root
    pub crit_error : write_level LogLevel.crit tid t root ≡ write_level LogLevel.error tid t root
    pub alert_error : write_level LogLevel.alert tid t root ≡ write_level LogLevel.error tid t root
    pub fatal_error : write_level LogLevel.fatal tid t root ≡ write_level LogLevel.error tid t root

  -- Let a message with a format have a text without NUL of less than 1024 bytes, or a longer text, or
  -- fail to be formatted. At each level, the overload with a level and a format does what the one with
  -- a level and a string does with the text, if it is short; if it is longer or not formatted, with
  -- the empty string, and its buffer is leaked. The two overloads without a level do what those with
  -- the level INFO do, and CRIT, ALERT and FATAL are logged as ERROR.
  pub write_format-eq-write_level :
      (level : LogLevel) (tid : List ℕ) (root : Category) (leaked : ℕ) {f : Formatted} {t : List ℕ}
      {leak : ℕ}
      → IsShown f t leak
      → Agree level tid t f leak root leaked
  unfolding write_level_format write_format write_message write_level dispatch_message
      dispatch_level dispatch_format dispatch_level_format
  write_format-eq-write_level level tid root leaked {f} {t} {leak} h = record {
    with_level =
        rw (get_string-IsShown h)
          (ap (λ r. (r, leaked + leak)) (same_switch level (stamped tid t) root));
    without_level = refl;
    plain = refl;
    crit_error = refl;
    alert_error = refl;
    fatal_error = refl;
  }
