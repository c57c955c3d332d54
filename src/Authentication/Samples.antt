-- ===== src/Authentication/Samples.antt =====
-- Concrete instances of what the logins use of other packages.
use django_saas_kit.Models.{UserTotp}
use django_saas_kit.Models.{UserTotp}
use django_saas_kit.Users.Service.{with_username}
use django_saas_kit.Authentication.Tokens.{Jwt, Pyotp}
use django_saas_kit.Authentication.PasswordReset.{ResetTokens}
use django_saas_kit.Text.{append}
use Prim.Native.String.{count}
use text.Mathlib.TextLemmas.{length-cons, nil≢cons, tail-eq_of_cons-eq}
use django_saas_kit.Base.{
  [], ◌∷◌, true, true, refl, Option, String, ℕ, none, some, ◌≡◌, ◌≢◌, str_eq, select, zero, suc, ap,
  sym, ◌∙◌, Bool-cases, eq_iff, inl, inr, false, head?,
}

abbrev pub test_jwt : Jwt
test_jwt = record {
  sign = λ serial user. record { access = user.email; refresh = user.username };
  authenticate = λ username password users. head? (select (with_username username) users);
}

-- The only code that is good is "123456".
abbrev pub test_pyotp : Pyotp
test_pyotp = record {
  verify = λ now secret code. str_eq code "123456";
  provisioning_uri = λ secret email. append "otpauth://totp/" email;
  make_qr_svg = λ uri. uri;
}

-- Tokens that show the password they were made with, and keys that are texts of that many `1`.
abbrev pub ones : ℕ → String
ones zero = ""
ones (suc n) = append "1" (ones n)

abbrev pub ones_in : String → ℕ
ones_in s = count s

pub count-ones : (n : ℕ) → ones_in (ones n) ≡ n
unfolding append
count-ones zero = refl
count-ones (suc n) = length-cons _ (ones n) ∙ ap suc (count-ones n)

abbrev pub shown : Option String → String
shown none = ""
shown (some password) = append "p" password

pub shown-apart : (p q : Option String) → p ≢ q → str_eq (shown p) (shown q) ≡ false
unfolding append
shown-apart p q apart = elim (Bool-cases (str_eq (shown p) (shown q))) [
  | inr other ↦ other
  | inl same ↦ absurd (apart (shown_inj p q ((eq_iff (shown p) (shown q)).0 same)))
]
  where
    shown_inj : (p q : Option String) → shown p ≡ shown q → p ≡ q
    shown_inj none none e = refl
    shown_inj none (some b) e = absurd (nil≢cons e)
    shown_inj (some a) none e = absurd (nil≢cons (sym e))
    shown_inj (some a) (some b) e = ap some (tail-eq_of_cons-eq e)

-- No two numbers have the same text.
pub ones_inj : (m n : ℕ) → ones m ≡ ones n → m ≡ n
ones_inj m n e = sym (count-ones m) ∙ ap ones_in e ∙ count-ones n

abbrev pub test_tokens : ResetTokens
test_tokens = record {
  urlsafe_base64_encode = ones;
  urlsafe_base64_decode = λ uid. some (ones_in uid);
  make_token = λ now user. shown user.password;
  check_token = λ now user token. str_eq token (shown user.password);
  timeout = 3600;
  decode-encode = λ pk. ap some (count-ones pk);
  check-make =
      λ made now user late soon. (eq_iff (shown user.password) (shown user.password)).1 refl;
  check-changed = λ made now user changed other. shown-apart user.password changed.password other;
}

-- The second factor of Bob.
abbrev pub bob_totp : UserTotp
bob_totp = record {
  user = 2;
  secret = "JBSWY3DP";
  is_enabled = true;
  backup_codes = "AAAA1111" ∷ "BBBB2222" ∷ [];
}
