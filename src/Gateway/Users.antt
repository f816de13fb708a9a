-- ===== src/Gateway/Users.antt =====
-- shared/RadioProtocol/src/UserManagement.cpp: the accounts of the gateway. The array `users[4]` is
-- split at `userCount`: `users` is what stands below it and `spare` the rest. A role and a hash
-- algorithm are raw bytes, since the loaders cast one.
pub mod Accounts
use radio_sensors.Prelude.{
  ℕ, zero, suc, ◌+◌, ◌%◌, ◌^◌, Bool, true, false, not, ◌&&◌, ◌||◌, List, [], ◌∷◌, ◌++◌, Option,
  none, some, length, drop, ltb, leb, ◌==◌, if◌then◌else◌, Bytes, zeros, to_list,
}
use radio_sensors.Gateway.{all_zero}
use radio_sensors.Gateway.Erase.{erase_first}
use radio_sensors.Registry.{find_first, modify_first}
use radio_sensors.Registry.Updates.{same_prefix, padded}

abbrev pub maximum_users : ℕ
maximum_users = 4

abbrev pub username_size : ℕ
username_size = 32

abbrev pub minimum_pbkdf2_iterations : ℕ
minimum_pbkdf2_iterations = 10000

abbrev pub maximum_pbkdf2_iterations : ℕ
maximum_pbkdf2_iterations = 2000000

-- The enumerators of UserRole and PasswordHashAlgorithm.
abbrev pub admin : ℕ
admin = 1

abbrev pub viewer : ℕ
viewer = 2

abbrev pub pbkdf2_hmac_sha256 : ℕ
pbkdf2_hmac_sha256 = 1

pub record UserRecord : Type 0 where
  pub id : ℕ
  pub username_length : ℕ
  pub username : Bytes username_size
  pub role : ℕ
  pub is_enabled : Bool
  pub hash_algorithm : ℕ
  pub pbkdf2_iterations : ℕ
  pub salt : Bytes 16
  pub password_hash : Bytes 32

-- A record of zeros.
abbrev pub no_user : UserRecord
no_user = record {
  id = 0;
  username_length = 0;
  username = zeros username_size;
  role = 0;
  is_enabled = false;
  hash_algorithm = 0;
  pbkdf2_iterations = 0;
  salt = zeros 16;
  password_hash = zeros 32;
}

-- The part of AuthenticationData that the user management reads and writes.
pub record UserTable : Type 0 where
  pub next_user_id : ℕ
  pub users : List UserRecord
  pub spare : List UserRecord

pub record PasswordCredential : Type 0 where
  pub algorithm : ℕ
  pub iterations : ℕ
  pub salt : Bytes 16
  pub hash_bytes : Bytes 32

pub data UserStatus : Type 0 where
  done invalid_value not_found username_taken capacity_reached last_admin_required : UserStatus

abbrev pub valid_role : ℕ → Bool
valid_role role = role == admin || role == viewer

-- 'a' to 'z', '0' to '9', '.', '_' and '-'
abbrev pub valid_character : ℕ → Bool
valid_character c =
    (leb 97 c && leb c 122) || (leb 48 c && leb c 57) || c == 46 || c == 95 || c == 45

-- The loop over the first `count` characters.
unfoldable pub valid_characters : ℕ → List ℕ → Bool
valid_characters zero cs = true
valid_characters (suc n) [] = false
valid_characters (suc n) (c ∷ cs) = valid_character c && valid_characters n cs

unfoldable pub valid_username : Option (List ℕ) → ℕ → Bool
valid_username none size = false
valid_username (some username) size =
    not (size == 0) && leb size username_size && valid_characters size username

unfoldable pub valid_credential : PasswordCredential → Bool
valid_credential c =
    c.algorithm == pbkdf2_hmac_sha256
    && leb minimum_pbkdf2_iterations c.iterations
    && leb c.iterations maximum_pbkdf2_iterations
    && not (all_zero (to_list 16 c.salt))
    && not (all_zero (to_list 32 c.hash_bytes))

abbrev pub is_named : List ℕ → ℕ → UserRecord → Bool
is_named username size u =
    u.username_length == size && same_prefix size (to_list username_size u.username) username

unfoldable pub username_exists : List UserRecord → List ℕ → ℕ → ℕ → Bool
username_exists [] username size except = false
username_exists (u ∷ us) username size except =
    (not (u.id == except) && is_named username size u) || username_exists us username size except

abbrev pub is_admin : UserRecord → Bool
is_admin u = u.is_enabled && u.role == admin

unfoldable pub has_enabled_admin : List UserRecord → Bool
has_enabled_admin [] = false
has_enabled_admin (u ∷ us) = is_admin u || has_enabled_admin us

abbrev pub apply_credential : PasswordCredential → UserRecord → UserRecord
apply_credential c u = record u {
  hash_algorithm = c.algorithm;
  pbkdf2_iterations = c.iterations;
  salt = c.salt;
  password_hash = c.hash_bytes;
}

abbrev pub bytes_at : Option (List ℕ) → List ℕ
bytes_at none = []
bytes_at (some bytes) = bytes

-- memcpy of `count` bytes over an array.
abbrev pub overlaid : (n : ℕ) → ℕ → List ℕ → Bytes n → Bytes n
overlaid zero count xs old = tt
overlaid (suc n) zero xs old = old
overlaid (suc n) (suc count) [] old = old
overlaid (suc n) (suc count) (x ∷ xs) old = (x, overlaid n count xs old.1)

abbrev pub first_spare : List UserRecord → UserRecord
first_spare [] = no_user
first_spare (u ∷ us) = u

abbrev pub new_user_id : UserTable → ℕ
new_user_id t = if t.next_user_id == 0 then 1 else t.next_user_id

-- The candidate of `create`: the first spare record, filled in.
abbrev pub with_user : UserTable → List ℕ → ℕ → ℕ → Bool → PasswordCredential → UserTable
with_user t username size role is_enabled credential = record {
  next_user_id = (new_user_id t + 1) % 2 ^ 32;
  users =
      t.users
      ++ (apply_credential credential (record (first_spare t.spare) {
        id = new_user_id t;
        username_length = size;
        username = overlaid username_size size username (first_spare t.spare).username;
        role = role;
        is_enabled = is_enabled;
      })
          ∷ []);
  spare = drop 1 t.spare;
}

-- The table, the status and the new user's ID, 0 if there is none.
unfoldable pub create :
    UserTable → Option (List ℕ) → ℕ → ℕ → Bool → PasswordCredential → UserTable × UserStatus × ℕ
create t username size role is_enabled credential =
    let candidate = with_user t (bytes_at username) size role is_enabled credential in
    if not (valid_username username size)
      || not (valid_role role)
      || not (valid_credential credential)
    then (t, invalid_value, 0)
    else if leb maximum_users (length t.users) || t.next_user_id == 0xffffffff
    then (t, capacity_reached, 0)
    else if username_exists t.users (bytes_at username) size 0
    then (t, username_taken, 0)
    else if not (has_enabled_admin candidate.users)
    then (t, last_admin_required, 0)
    else (candidate, done, new_user_id t)

abbrev pub has_user_id : ℕ → UserRecord → Bool
has_user_id id u = u.id == id

abbrev pub valid_optional : Option PasswordCredential → Bool
valid_optional none = true
valid_optional (some c) = valid_credential c

abbrev pub apply_optional : Option PasswordCredential → UserRecord → UserRecord
apply_optional none u = u
apply_optional (some c) u = apply_credential c u

-- What `update` writes into the record that it finds.
abbrev pub change_user : List ℕ → ℕ → ℕ → Bool → Option PasswordCredential → UserRecord → UserRecord
change_user username size role is_enabled credential u = apply_optional credential (record u {
  username = padded username_size size username;
  username_length = size;
  role = role;
  is_enabled = is_enabled;
})

unfoldable pub update :
    UserTable
    → ℕ
    → Option (List ℕ)
    → ℕ
    → ℕ
    → Bool
    → Option PasswordCredential
    → UserTable × UserStatus
update t id username size role is_enabled credential =
    let changed =
      modify_first (has_user_id id)
        (change_user (bytes_at username) size role is_enabled credential) t.users in
    if not (valid_username username size)
      || not (valid_role role)
      || not (valid_optional credential)
    then (t, invalid_value)
    else elim (find_first (has_user_id id) t.users) [
      | none ↦ (t, not_found)
      | some user ↦
          if username_exists t.users (bytes_at username) size id
          then (t, username_taken)
          else if not (has_enabled_admin changed)
          then (t, last_admin_required)
          else (record t { users = changed }, done)
    ]

-- The users behind the one that goes move down, and the last place becomes zeros.
unfoldable pub remove : UserTable → ℕ → UserTable × UserStatus
remove t id =
    let kept = erase_first (has_user_id id) t.users in
    elim (find_first (has_user_id id) t.users) [
      | none ↦ (t, not_found)
      | some user ↦
          if not (has_enabled_admin kept)
          then (t, last_admin_required)
          else (record t { users = kept; spare = no_user ∷ t.spare }, done)
    ]
