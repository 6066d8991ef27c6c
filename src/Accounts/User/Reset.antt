-- ===== src/Accounts/User/Reset.antt =====
-- The password, and the token that resets it.
use bzd.Prelude.Text.{Text, same}
use bzd.Prelude.{ℕ, ◌+◌, ◌≤◌, ◌≡◌, refl, ◌↔◌, true, false, not, ◌&&◌, [], ◌∷◌, leb, length, arith}
use bzd.Accounts.User.{
  User, Crypto, is_empty, set_password, is_password_equal, set_password_reset_token,
  set_last_password_reset, check_password_reset_token, clear_password_reset_token,
}

-- bcrypt reads 72 bytes of a password; a code unit has up to three.
abbrev pub IsShort : Text → Type 0
IsShort p = length p ≤ 24

module _ (crypto : Crypto) where
  -- After a reset token was set, any text is accepted exactly if it is not empty, its hash is that of
  -- the token, and the duration is not over. The token that was set before is of no use, unless its
  -- hash is the same; and after `clearPasswordResetToken` nothing is accepted.
  pub check-set_password_reset_token :
      (u : User) (token given : Text) (duration_ms now later : ℕ)
      → (check_password_reset_token crypto
            (set_password_reset_token crypto u token duration_ms now)
            given
            later
          ≡ (not (is_empty given)
              && (leb later (now + duration_ms)
                  && same (crypto.sha256 token) (crypto.sha256 given))))
        × (check_password_reset_token crypto
              (clear_password_reset_token (set_password_reset_token crypto u token duration_ms now))
              given
              later
            ≡ false)
  unfolding check_password_reset_token set_password_reset_token clear_password_reset_token
      set_last_password_reset
  check-set_password_reset_token u token [] duration_ms now later = (refl, refl)
  check-set_password_reset_token u token (c ∷ given) duration_ms now later = (ground arith, refl)

  -- If bcrypt makes no empty hash, and accepts for the hash of a short password exactly this one
  -- among the short ones, then after `setPassword` of a short password exactly that is equal among
  -- the short ones, unless it is empty.
  pub is_password_equal-set_password :
      (u : User) (new salt given : Text)
      → ((p s q : Text)
          → IsShort p
          → IsShort q
          → (crypto.bcrypt_compare (crypto.bcrypt_hash p s) q ≡ true) ↔ (p ≡ q))
      → ((p s : Text) → is_empty (crypto.bcrypt_hash p s) ≡ false)
      → IsShort new
      → IsShort given
      → (is_password_equal crypto (set_password crypto u new salt) given ≡ true)
        ↔ ((new ≡ given) × (is_empty given ≡ false))
  unfolding is_password_equal set_password
  is_password_equal-set_password u new salt given compares full short_new short_given =
      let it = compares new salt given short_new short_given in
      let solid = full new salt in
      (λ h. (it.0 (ground arith), ground arith), λ (p, q). let same = it.1 p in rw (solid, q) same)
