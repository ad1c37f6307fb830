-- ===== src/Auth/Lockout.antt =====
-- Who gets in, and when the lockout begins and ends.
use text.Mathlib.TextPositions.{eq_refl}
use kis_trader_back.Common.{
  ℕ, ◌+◌, ◌≡◌, ◌≤◌, ◌<◌, refl, String, false, Option, none, some, List, [], ◌∷◌, arith, length, All,
}
use kis_trader_back.Auth.{
  LoginAttempt, Admin, granted, too_many_requests, is_blocked, clear_expired, record_failed_login,
  matches_admin, login, login_window_ms, login_block_ms,
}

-- A login with its time, read by one clock.
pub record Try : Type 0 where
  pub at : ℕ
  pub username : String
  pub password : String

abbrev pub IsWrong : Admin → Try → Type 0
IsWrong admin t = matches_admin admin t.username t.password ≡ false

-- What a list of logins leaves of the row.
abbrev pub failures : Admin → List Try → Option LoginAttempt → Option LoginAttempt
failures admin [] row = row
failures admin (t ∷ ts) row = failures admin ts (login admin t.at t.at t.username t.password row).1

abbrev pub last_of : Try → List Try → ℕ
last_of t [] = t.at
last_of t (s ∷ ss) = last_of s ss

abbrev pub Within : ℕ → Try → Type 0
Within first t = (first ≤ t.at) × (t.at ≤ first + login_window_ms)

-- While the count is below the limit, a failed login within the window adds one.
failure_counts :
    (admin : Admin) (t : Try) (n first : ℕ)
    → IsWrong admin t
    → n < 4
    → Within first t
    → (login admin t.at t.at t.username t.password
        (some (record { count = n; first_attempt_at = first; blocked_until = none }))).1
      ≡ some (record { count = n + 1; first_attempt_at = first; blocked_until = none })
unfolding login
failure_counts admin t n first wrong few (low, high) = ground arith

failure_blocks :
    (admin : Admin) (t : Try) (first : ℕ)
    → IsWrong admin t
    → Within first t
    → (login admin t.at t.at t.username t.password
        (some (record { count = 4; first_attempt_at = first; blocked_until = none }))).1
      ≡ some (record {
        count = 5;
        first_attempt_at = first;
        blocked_until = some (t.at + login_block_ms);
      })
unfolding login
failure_blocks admin t first wrong (low, high) = ground arith

Count-failures :
    (admin : Admin) (n first : ℕ) (t : Try) (ts : List Try)
    → n + length (t ∷ ts) ≡ 5
    → All (IsWrong admin) (t ∷ ts)
    → All (Within first) (t ∷ ts)
    → failures admin
        (t ∷ ts)
        (some (record { count = n; first_attempt_at = first; blocked_until = none }))
      ≡ some (record {
        count = 5;
        first_attempt_at = first;
        blocked_until = some (last_of t ts + login_block_ms);
      })
Count-failures admin n first t [] e (wrong, tt) (w, ws) =
    rw (let four : n ≡ 4 = omega (arith, e) in four) (failure_blocks admin t first wrong w)
Count-failures admin n first t (s ∷ ts) e (wrong, wrongs) (w, ws) =
    rw (failure_counts admin t n first wrong (omega (arith, e)) w)
      (Count-failures admin (n + 1) first s ts (omega (arith, e)) wrongs ws)

first_failure :
    (admin : Admin) (t : Try) (row : Option LoginAttempt)
    → IsWrong admin t
    → is_blocked t.at row ≡ false
    → clear_expired t.at row ≡ none
    → (login admin t.at t.at t.username t.password row).1
      ≡ some (record { count = 1; first_attempt_at = t.at; blocked_until = none })
unfolding login
first_failure admin t row wrong open_now clear =
    rw (open_now, wrong, clear, record_failed_login) refl

-- Five failed logins of a client, with any usernames and passwords, all within fifteen minutes of the first,
-- lock the client out, if it was not blocked at the first and no earlier attempt was kept of it whose window
-- was still open then: until fifteen minutes after the fifth every login is refused unread, with the right
-- password too, and the refusals leave the lockout as it is.
pub login_lockout :
    (admin : Admin) (first second : Try) (rest : List Try) (row : Option LoginAttempt)
    (checked failed : ℕ) (username password : String)
    → is_blocked first.at row ≡ false
    → clear_expired first.at row ≡ none
    → All (IsWrong admin) (first ∷ second ∷ rest)
    → length rest ≡ 3
    → All (Within first.at) (second ∷ rest)
    → checked < last_of second rest + login_block_ms
    → let locked = failures admin (first ∷ second ∷ rest) row in
      login admin checked failed username password locked ≡ (too_many_requests, locked)
unfolding login
login_lockout admin first second rest row checked failed username password open_now clear
      (wrong, wrongs) e w h =
    let locked = failures admin (first ∷ second ∷ rest) row in
    let at_limit : locked
        ≡ some (record {
          count = 5;
          first_attempt_at = first.at;
          blocked_until = some (last_of second rest + login_block_ms);
        }) =
      rw (first_failure admin first row wrong open_now clear)
        (Count-failures admin 1 (first.at) second rest (omega (arith, e)) wrongs w) in
    rw at_limit (ground arith)

failure_stays_open :
    (admin : Admin) (now : ℕ) (t : Try) (row : Option LoginAttempt)
    → t.at + login_block_ms ≤ now
    → is_blocked now row ≡ false
    → IsWrong admin t
    → is_blocked now (login admin t.at t.at t.username t.password row).1 ≡ false
unfolding login
failure_stays_open admin now t none h unblocked wrong = ground arith
failure_stays_open admin now t (some a) h unblocked wrong = ground arith

failures_stay_open :
    (admin : Admin) (now : ℕ) (ts : List Try) (row : Option LoginAttempt)
    → All (λ t. t.at + login_block_ms ≤ now) ts
    → is_blocked now row ≡ false
    → All (IsWrong admin) ts
    → is_blocked now (failures admin ts row) ≡ false
failures_stay_open admin now [] row h unblocked wrong = unblocked
failures_stay_open admin now (t ∷ ts) row (h, hs) unblocked (wrong, wrongs) =
    failures_stay_open admin now ts (login admin t.at t.at t.username t.password row).1 hs
      (failure_stays_open admin now t row h unblocked wrong) wrongs

-- No lockout is for ever: fifteen minutes after the last of any number of failed logins, with any usernames
-- and passwords, the administrator's own are granted, and no failed attempt is kept.
pub login_recovers :
    (admin : Admin) (ts : List Try) (checked failed : ℕ)
    → All (IsWrong admin) ts
    → All (λ t. t.at + login_block_ms ≤ checked) ts
    → login admin checked failed admin.username admin.password (failures admin ts none)
      ≡ (granted, none)
unfolding login
login_recovers admin ts checked failed wrong h =
    let row = failures admin ts none in
    let unblocked : is_blocked checked row ≡ false =
      failures_stay_open admin checked ts none h refl wrong in
    ground (arith, eq_refl admin.username, eq_refl admin.password)
