-- ===== src/Auth.antt =====
-- src/auth/auth.service.ts: the login with its lockout. The state is the row of `login_attempts` under the
-- client's key, if there is one; times are milliseconds, and the two readings of the clock may differ.
pub mod Lockout
use kis_trader_back.Common.{
  ℕ, ◌+◌, ◌-◌, ◌*◌, String, Bool, true, false, ◌&&◌, ◌||◌, not, Option, none, some, if◌then◌else◌,
  str_eq, ltb, leb,
}

pub record LoginAttempt : Type 0 where
  pub count : ℕ
  pub first_attempt_at : ℕ
  pub blocked_until : Option ℕ

abbrev pub max_login_attempts : ℕ
max_login_attempts = 5

abbrev pub login_window_ms : ℕ
login_window_ms = 15 * 60 * 1000

abbrev pub login_block_ms : ℕ
login_block_ms = 15 * 60 * 1000

pub record Admin : Type 0 where
  pub username : String
  pub password : String

pub data Login : Type 0 where
  granted unauthorized too_many_requests : Login

abbrev pub later_than : ℕ → Option ℕ → Bool
later_than now none = false
later_than now (some until) = ltb now until

abbrev pub is_blocked : ℕ → Option LoginAttempt → Bool
is_blocked now none = false
is_blocked now (some a) = later_than now a.blocked_until

abbrev pub is_window_over : ℕ → LoginAttempt → Bool
is_window_over now a = ltb login_window_ms (now - a.first_attempt_at)

-- `assertLoginAllowed` where it does not throw: a row whose window is over is deleted.
unfoldable pub clear_expired : ℕ → Option LoginAttempt → Option LoginAttempt
clear_expired now none = none
clear_expired now (some a) = if is_window_over now a then none else some a

abbrev fresh_attempt : ℕ → LoginAttempt
fresh_attempt now = record { count = 1; first_attempt_at = now; blocked_until = none }

abbrev next_attempt : ℕ → LoginAttempt → LoginAttempt
next_attempt now a = record a {
  count = a.count + 1;
  blocked_until =
      if leb max_login_attempts (a.count + 1) then some (now + login_block_ms) else a.blocked_until;
}

unfoldable pub record_failed_login : ℕ → Option LoginAttempt → Option LoginAttempt
record_failed_login now none = some (fresh_attempt now)
record_failed_login now (some a) =
    if is_window_over now a then some (fresh_attempt now) else some (next_attempt now a)

abbrev pub matches_admin : Admin → String → String → Bool
matches_admin admin username password =
    str_eq username admin.username && str_eq password admin.password

-- `login`; `checked` is the clock of `assertLoginAllowed`, `failed` that of `recordFailedLogin`.
unfoldable pub login :
    Admin → ℕ → ℕ → String → String → Option LoginAttempt → Login × Option LoginAttempt
unfolding clear_expired record_failed_login
login admin checked failed username password row =
    if is_blocked checked row
    then (too_many_requests, row)
    else if not (matches_admin admin username password)
    then (unauthorized, record_failed_login failed (clear_expired checked row))
    else (granted, none)
