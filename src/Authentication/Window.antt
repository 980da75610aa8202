-- ===== src/Authentication/Window.antt =====
-- The validity window of a signed operation (authentication.py).
use governed_signal_to_conte.Authentication.Verify.{
  check_window, max_clock_skew_seconds, max_operation_lifetime_seconds, seconds,
}
use governed_signal_to_conte.Base.{
  >>=-eq-ok, arith, leb, ltb, ok, raise_if, raise_if-false, ℕ, ◌+◌, ◌<◌, ◌||◌, ◌↔◌, ◌≡◌, ◌≤◌,
}

-- An operation that is valid at a time: issued at most the skew ahead of it, not expired, and alive
-- for at most the maximal lifetime.
pub record IsValidAt (current issued expires : ℕ) : Type 0 where
  pub issued_before_expiry : issued < expires
  pub lifetime_bounded : expires ≤ issued + seconds max_operation_lifetime_seconds
  pub not_in_future : issued ≤ current + seconds max_clock_skew_seconds
  pub not_expired : current < expires

pub check_window-IsValidAt :
    (current issued expires : ℕ) (u : Unit {0})
    → check_window current issued expires ≡ ok u
    → IsValidAt current issued expires
unfolding check_window
check_window-IsValidAt current issued expires u h =
    let (a, e₁, h₁) =
      >>=-eq-ok
        (raise_if
          (leb expires issued || ltb (issued + seconds max_operation_lifetime_seconds) expires) _)
        _ h in
    let (b, e₂, h₂) =
      >>=-eq-ok (raise_if (ltb (current + seconds max_clock_skew_seconds) issued) _) _ h₁ in
    let p =
      raise_if-false
        (leb expires issued || ltb (issued + seconds max_operation_lifetime_seconds) expires) _ a
        e₁ in
    let q = raise_if-false (ltb (current + seconds max_clock_skew_seconds) issued) _ b e₂ in
    let r = raise_if-false (leb expires current) _ u h₂ in
    record {
      issued_before_expiry = ground arith;
      lifetime_bounded = ground arith;
      not_in_future = ground arith;
      not_expired = ground arith;
    }

pub IsValidAt-check_window :
    (current issued expires : ℕ)
    → IsValidAt current issued expires
    → check_window current issued expires ≡ ok tt
unfolding check_window
IsValidAt-check_window current issued expires v =
    let a = v.issued_before_expiry in
    let b = v.lifetime_bounded in let c = v.not_in_future in let d = v.not_expired in ground arith

-- The window is accepted exactly when the operation expires after its issue, within the maximal
-- lifetime of it, was issued at most the clock skew ahead of now, and has not expired.
pub check_window_iff :
    (current issued expires : ℕ)
    → (check_window current issued expires ≡ ok tt) ↔ IsValidAt current issued expires
check_window_iff current issued expires = (
  check_window-IsValidAt current issued expires tt,
  IsValidAt-check_window current issued expires,
)
