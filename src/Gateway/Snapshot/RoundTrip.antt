-- ===== src/Gateway/Snapshot/RoundTrip.antt =====
-- A snapshot's header is accepted as it was written, and the secrets are read back.
use radio_sensors.Prelude.{
  ℕ, suc, ◌+◌, ◌-◌, ◌*◌, ◌/◌, ◌%◌, ◌^◌, ◌≤◌, ◌<◌, ◌≡◌, refl, sym, ap, ◌∙◌, true, false, Bool, ◌&&◌,
  not, List, [], ◌∷◌, ◌++◌, some, arith, length, take, drop, get_or, Bytes, IsU32, ◌==◌, ==_iff,
  ==_refl, leb, if◌then◌else◌,
}
use radio_sensors.Prelude.Result.{Result, ok, ◌>>=◌, ◌>>◌, check}
use radio_sensors.Wire.{store, write_u32_le, read_u32_le}
use radio_sensors.Gateway.{CodecError}
use radio_sensors.Gateway.Snapshot.{
  crc32, header_bytes, validate_header, InstallationSecrets, validate_secrets, secrets_bytes,
  secrets_magic, secrets_snapshot_size, encode_secrets, decode_secrets,
}

module _ {A : Type 0} where
  pub get_or-append :
      (xs ys : List A) (i : ℕ) (d : A) → get_or (xs ++ ys) (length xs + i) d ≡ get_or ys i d
  get_or-append [] ys i d = ap (λ (n : ℕ). get_or ys n d) (omega arith)
  get_or-append (x ∷ xs) ys i d =
      ap (λ (n : ℕ). get_or (x ∷ (xs ++ ys)) n d) (suc_add (length xs) i) ∙ get_or-append xs ys i d
    where
      suc_add : (a b : ℕ) → suc a + b ≡ suc (a + b)
      suc_add a b = omega arith

  pub take-append_all : (xs ys : List A) → take (length xs) (xs ++ ys) ≡ xs
  take-append_all [] ys = refl
  take-append_all (x ∷ xs) ys = ap (λ t. x ∷ t) (take-append_all xs ys)

  pub drop-append_all : (xs ys : List A) → drop (length xs) (xs ++ ys) ≡ ys
  drop-append_all [] ys = refl
  drop-append_all (x ∷ xs) ys = drop-append_all xs ys

  pub append_assoc : (xs ys zs : List A) → (xs ++ ys) ++ zs ≡ xs ++ (ys ++ zs)
  append_assoc [] ys zs = refl
  append_assoc (x ∷ xs) ys zs = ap (λ t. x ∷ t) (append_assoc xs ys zs)

pub crc32-IsU32 : (bytes : List ℕ) → crc32 bytes < 2 ^ 32
unfolding crc32
crc32-IsU32 bytes = omega arith

-- The word that stands behind a list of bytes.
read_u32_le-append :
    (xs rest : List ℕ) (value : ℕ)
    → IsU32 value
    → read_u32_le (xs ++ (write_u32_le value ++ rest)) (length xs) ≡ value
read_u32_le-append xs rest value h = ground (
  arith,
  ap (λ (n : ℕ). get_or (xs ++ (write_u32_le value ++ rest)) n 0) (plus_zero (length xs)),
  get_or-append xs (write_u32_le value ++ rest) 0 0,
  get_or-append xs (write_u32_le value ++ rest) 1 0,
  get_or-append xs (write_u32_le value ++ rest) 2 0,
  get_or-append xs (write_u32_le value ++ rest) 3 0,
)
  where
    plus_zero : (a : ℕ) → a ≡ a + 0
    plus_zero a = omega arith

abbrev pub sealed : List ℕ → List ℕ
sealed front = front ++ write_u32_le (crc32 front)

module _ (front buffer : List ℕ) where
  pub sealed-split :
      store (sealed front) buffer
      ≡ front ++ (write_u32_le (crc32 front) ++ drop (length (sealed front)) buffer)
  sealed-split =
      append_assoc front (write_u32_le (crc32 front)) (drop (length (sealed front)) buffer)

  pub crc-sealed :
      (n : ℕ) → n ≡ length front → read_u32_le (store (sealed front) buffer) n ≡ crc32 front
  crc-sealed n e =
      ap (λ (k : ℕ). read_u32_le (store (sealed front) buffer) k) e
      ∙ ap (λ l. read_u32_le l (length front)) sealed-split
      ∙ read_u32_le-append front (drop (length (sealed front)) buffer) (crc32 front)
          (crc32-IsU32 front)

  pub take-sealed : (n : ℕ) → n ≡ length front → take n (store (sealed front) buffer) ≡ front
  take-sealed n e =
      ap (λ (k : ℕ). take k (store (sealed front) buffer)) e
      ∙ ap (take (length front)) sealed-split
      ∙ take-append_all front (write_u32_le (crc32 front) ++ drop (length (sealed front)) buffer)

pub passes : {E A : Type 0} (e : E) (b : Bool) (r : Result E A) → b ≡ true → (check b e >> r) ≡ r
passes e b r h = rw h refl

size_read : (size : ℕ) → size < 65536 → size % 256 + size / 256 % 256 * 2 ^ 8 ≡ size
size_read size h = omega arith

pub generation_read :
    (g : ℕ)
    → IsU32 g
    → g % 256 + g / 2 ^ 8 % 256 * 2 ^ 8 + g / 2 ^ 16 % 256 * 2 ^ 16 + g / 2 ^ 24 % 256 * 2 ^ 24 ≡ g
generation_read g h = omega arith

pub both : (a b : Bool) → a ≡ true → b ≡ true → (a && b) ≡ true
both a b p q = rw (p, q) refl

-- The header of a snapshot that was sealed is accepted, whatever stands behind it in the buffer.
pub validate_header-sealed :
    (magic : Bytes 4) (generation size : ℕ) (payload buffer : List ℕ)
    → size ≡ length payload + 16
    → size < 65536
    → IsU32 generation
    → validate_header
        (some (store (sealed (header_bytes magic generation size ++ payload)) buffer))
        size
        magic
        size
      ≡ ok (store (sealed (header_bytes magic generation size ++ payload)) buffer, generation)
unfolding validate_header
validate_header-sealed magic generation size payload buffer e l g =
    passes _ _ _ (both _ _ (==_refl size) ((==_iff _ size).1 (size_read size l)))
    ∙ passes _ _ _ (
        both _ _ (both _ _ (both _ _ (==_refl magic.0) (==_refl magic.1.0)) (==_refl magic.1.1.0))
          (==_refl magic.1.1.1.0))
    ∙ passes CodecError.unsupported_version true _ refl
    ∙ passes _ _ _ (
        (==_iff _ _).1 (
          crc-sealed front buffer (size - 4) short
          ∙ sym (ap crc32 (take-sealed front buffer (size - 4) short))))
    ∙ ap (λ (n : ℕ). ok (store (sealed front) buffer, n)) (generation_read generation g)
  where
    front : List ℕ
    front = header_bytes magic generation size ++ payload

    short : size - 4 ≡ length front
    short = omega arith

abbrev flags_of : Bool → Bool → ℕ
flags_of p q = (if p then 1 else 0) + (if q then 2 else 0)

-- What the reader gets of the flags' word.
abbrev flags_read : Bool → Bool → ℕ
flags_read p q = flags_of p q % 256 + flags_of p q / 2 ^ 8 % 256 * 2 ^ 8

flags_known : (p q : Bool) → leb (flags_read p q) 3 ≡ true
flags_known true true = refl
flags_known true false = refl
flags_known false true = refl
flags_known false false = refl

flags_first : (p q : Bool) → not (flags_read p q % 2 == 0) ≡ p
flags_first true true = refl
flags_first true false = refl
flags_first false true = refl
flags_first false false = refl

flags_second : (p q : Bool) → not (flags_read p q / 2 % 2 == 0) ≡ q
flags_second true true = refl
flags_second true false = refl
flags_second false true = refl
flags_second false false = refl

module _ (v : InstallationSecrets) (generation : ℕ) (buffer : List ℕ) where
  secrets_payload : List ℕ
  secrets_payload = drop 12 (secrets_bytes v generation)

  header_of_secrets :
      IsU32 generation
      → validate_header
          (some (store (sealed (secrets_bytes v generation)) buffer))
          secrets_snapshot_size
          secrets_magic
          secrets_snapshot_size
        ≡ ok (store (sealed (secrets_bytes v generation)) buffer, generation)
  header_of_secrets g =
      validate_header-sealed secrets_magic generation secrets_snapshot_size
        (drop 12 (secrets_bytes v generation)) buffer (omega arith) (omega arith) g

  decode-sealed_secrets :
      validate_secrets v ≡ ok tt
      → IsU32 generation
      → decode_secrets
          (some (store (sealed (secrets_bytes v generation)) buffer))
          secrets_snapshot_size
        ≡ ok (v, generation)
  unfolding decode_secrets
  decode-sealed_secrets h g = rw (header_of_secrets g) (
      passes _ _ _ (flags_known p q)
      ∙ ap (λ x. with_flags x (not (flags_read p q / 2 % 2 == 0))) (flags_first p q)
      ∙ ap (with_flags p) (flags_second p q)
      ∙ rw h refl)
    where
      p : Bool
      p = v.installation_key_present

      q : Bool
      q = v.device_secret_present

      with_flags : Bool → Bool → Result CodecError (InstallationSecrets × ℕ)
      with_flags x y =
          let w : InstallationSecrets = record v {
            installation_key_present = x;
            device_secret_present = y;
          } in
          validate_secrets w >> ok (w, generation)

-- The secrets are read back from their snapshot as they were written, with the generation.
pub decode-encode_secrets :
    (v : InstallationSecrets) (generation : ℕ) (buffer : List ℕ) (capacity : ℕ)
    → validate_secrets v ≡ ok tt
    → IsU32 generation
    → secrets_snapshot_size ≤ capacity
    → (encode_secrets v generation (some buffer) capacity >>= λ written.
        decode_secrets (some written) secrets_snapshot_size)
      ≡ ok (v, generation)
unfolding encode_secrets
decode-encode_secrets v generation buffer capacity h g l =
    ground (arith, h, decode-sealed_secrets v generation buffer h g)
