-- ===== src/Authentication/Tokens.antt =====
-- What the program uses of pyotp and of simplejwt, and the state of the views that log users in.
use django_saas_kit.Models.{User, Db}
use django_saas_kit.Action.{pure, modify, Error, ◌>>◌, Action}
use django_saas_kit.Cache.{Cache}
use django_saas_kit.Base.{false, Option, List, Bool, String, ℕ, some}
use django_saas_kit.Orm.{Result, Orm}

-- pyotp: whether a code is valid for a secret at a time (`verify(code, valid_window=1)`), and the
-- URI of a secret; qrcode: the picture of a URI.
pub record Pyotp : Type 0 where
  pub verify : (now : ℕ) → (secret code : String) → Bool
  pub provisioning_uri : (secret email : String) → String
  pub make_qr_svg : String → String

-- simplejwt: a pair of tokens that it signs for a user, told apart by a number that it draws, and
-- the user with a name and a password, if there is one that is active.
pub record TokenPair : Type 0 where
  pub access : String
  pub refresh : String

pub record Jwt : Type 1 where
  pub sign : (serial : ℕ) → User → TokenPair
  pub authenticate : (username password : String) → List User → Option User

module _ ⦃orm : Orm⦄ where
  -- `RefreshToken.for_user(user)`, which also stores an outstanding token
  unfoldable pub for_user : Jwt → ℕ → User → Action TokenPair
  for_user jwt serial user = do
    modify (λ db. record db {
      tokens = orm.create (record { user = some user.pk; is_blacklisted = false }) db.tokens;
    })
    pure (jwt.sign serial user)

  module _ ⦃cache : Cache ℕ⦄ where
    -- The database, and the keys of users who still have to give a second factor.
    pub record Site : Type 0 where
      pub db : Db
      pub sessions : cache.Store

    abbrev pub View : Type 0 → Type 0
    View A = Site → Result Error A × Site

    -- An action on the database, as a view.
    abbrev keep_sessions : {A : Type 0} → cache.Store → Result Error A × Db → Result Error A × Site
    keep_sessions sessions (r, db) = (r, record { db = db; sessions = sessions })

    abbrev pub on_db : {A : Type 0} → Action A → View A
    on_db m s = keep_sessions s.sessions (m s.db)
