-- ===== src/Gateway/Store/Secrets.antt =====
-- shared/RadioProtocol: SecretsStore, the DualSlotStore of the installation secrets.
use mathlib.Core.Path.{subst}
use radio_sensors.Prelude.{
  ℕ, ◌≡◌, refl, sym, ◌∙◌, Bool, true, false, not, ◌&&◌, List, [], Option, some, ◌==◌, ==_iff, Bytes,
  zeros, same_bytes, length, All, IsByte, IsU32, arith,
}
use radio_sensors.Prelude.Result.{ok}
use radio_sensors.Wire.{read_u32_le}
use radio_sensors.Gateway.Snapshot.{
  InstallationSecrets, encode_secrets, decode_secrets, validate_header, secrets_magic,
  secrets_snapshot_size,
}
use radio_sensors.Gateway.Store.{Codec}
use radio_sensors.Registry.Table.{same_bytes→eq}
use radio_sensors.Registry.Store.{value_of}
use radio_sensors.Registry.Store.Save.{then-ok, value_ok, read_u32_le-IsU32}

abbrev pub same_flag : Bool → Bool → Bool
same_flag true b = b
same_flag false b = not b

unfoldable pub secrets_equal : InstallationSecrets → InstallationSecrets → Bool
secrets_equal u v =
    same_flag u.installation_key_present v.installation_key_present
    && same_flag u.device_secret_present v.device_secret_present
    && u.operational_network_id == v.operational_network_id
    && same_bytes 16 u.installation_key v.installation_key
    && same_bytes 32 u.device_secret v.device_secret

same_flag→eq : (p q : Bool) → same_flag p q ≡ true → p ≡ q
same_flag→eq true q h = sym h
same_flag→eq false true h = absurd (ground (arith, h))
same_flag→eq false false h = refl

pub secrets_equal→eq : (u v : InstallationSecrets) → secrets_equal u v ≡ true → u ≡ v
unfolding secrets_equal
secrets_equal→eq u v h = λ i. record {
  installation_key_present =
      same_flag→eq u.installation_key_present v.installation_key_present parts.0 i;
  device_secret_present = same_flag→eq u.device_secret_present v.device_secret_present parts.1 i;
  operational_network_id = (==_iff u.operational_network_id v.operational_network_id).0 parts.2 i;
  installation_key = same_bytes→eq 16 u.installation_key v.installation_key parts.3 i;
  device_secret = same_bytes→eq 32 u.device_secret v.device_secret parts.4 i;
}
  where
    split_and : (a b : Bool) → (a && b) ≡ true → (a ≡ true) × (b ≡ true)
    split_and true b h = (refl, h)
    split_and false b h = absurd (ground (arith, h))

    parts :
        (same_flag u.installation_key_present v.installation_key_present ≡ true)
        × (same_flag u.device_secret_present v.device_secret_present ≡ true)
        × ((u.operational_network_id == v.operational_network_id) ≡ true)
        × (same_bytes 16 u.installation_key v.installation_key ≡ true)
        × (same_bytes 32 u.device_secret v.device_secret ≡ true)
    parts =
        let (abcd, e) = split_and _ _ h in
        let (abc, d) = split_and _ _ abcd in
        let (ab, c) = split_and _ _ abc in let (a, b) = split_and _ _ ab in (a, b, c, d, e)

abbrev pub secrets_encoded : InstallationSecrets → ℕ → Option (List ℕ)
secrets_encoded v generation =
    value_of (encode_secrets v generation (some []) secrets_snapshot_size)

abbrev pub secrets_decoded : List ℕ → Option (InstallationSecrets × ℕ)
secrets_decoded bytes = value_of (decode_secrets (some bytes) (length bytes))

validate_header-generation :
    (bytes out : List ℕ) (size expected g : ℕ) (magic : Bytes 4)
    → validate_header (some bytes) size magic expected ≡ ok (out, g)
    → g ≡ read_u32_le bytes 6
unfolding validate_header
validate_header-generation bytes out size expected g magic h = ground (arith, h)

decode_secrets-generation :
    (bytes : List ℕ) (size : ℕ) (v : InstallationSecrets) (g : ℕ)
    → decode_secrets (some bytes) size ≡ ok (v, g)
    → g ≡ read_u32_le bytes 6
unfolding decode_secrets
decode_secrets-generation bytes size v g h =
    let (header, e, last) =
      then-ok (validate_header (some bytes) size secrets_magic secrets_snapshot_size) _ (v, g) h in
    let same : g ≡ header.1 = ground (arith, last) in
    same
    ∙ validate_header-generation bytes header.0 size secrets_snapshot_size header.1 secrets_magic e

pub secrets_decoded-IsU32 :
    (bytes : List ℕ) (v : InstallationSecrets) (g : ℕ)
    → All IsByte bytes
    → secrets_decoded bytes ≡ some (v, g)
    → IsU32 g
secrets_decoded-IsU32 bytes v g b h =
    subst IsU32 (sym (decode_secrets-generation bytes (length bytes) v g (value_ok _ h)))
      (read_u32_le-IsU32 bytes 6 b)

abbrev pub default_secrets : InstallationSecrets
default_secrets = record {
  installation_key_present = false;
  device_secret_present = false;
  operational_network_id = 0;
  installation_key = zeros 16;
  device_secret = zeros 32;
}

abbrev pub secrets_codec : Codec InstallationSecrets
secrets_codec = record {
  encode = secrets_encoded;
  decode = secrets_decoded;
  equal = secrets_equal;
  default_value = default_secrets;
  equal→eq = secrets_equal→eq;
  decode-IsU32 = secrets_decoded-IsU32;
}
