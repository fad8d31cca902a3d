-- ===== src/Config/Values/Laws.antt =====
-- The ranges of a configuration that was resolved.
use captchapi.Prelude.{ℕ, ◌≤◌, ◌<◌, ◌^◌, String, Option, none, some, ◌≡◌, refl, arith, len, ap}
use mathlib.Core.Path.{subst}
use captchapi.Validation.{Checked, valid, invalid}
use captchapi.Config.Text.{parse_ℕ, parse_i64}
use captchapi.Config.Text.Bounds.{parse_ℕ_bound, parse_int_bound, IsSigned}
use captchapi.Config.Values.{
  Config, EnvProvider, required, required_secret, derived_secret, long_enough, clamp_quality,
  from_env_provider, ◌>>=◌,
}

-- The ranges of the fields.
pub record IsValid (c : Config) : Type 0 where
  pub api_key_salt : 16 ≤ len c.api_key_salt
  pub master_api_key : 16 ≤ len c.master_api_key
  pub solution_hash_secret : 16 ≤ len c.solution_hash_secret
  pub image_encryption_secret : 16 ≤ len c.image_encryption_secret
  pub server_port : c.server_port < 2 ^ 16
  pub database_max_connections : c.database_max_connections < 2 ^ 32
  pub default_session_ttl_seconds : c.default_session_ttl_seconds < 2 ^ 64
  pub max_session_ttl_seconds : c.max_session_ttl_seconds < 2 ^ 64
  pub max_validation_attempts : IsSigned (2 ^ 63) c.max_validation_attempts
  pub cleanup_interval_seconds : c.cleanup_interval_seconds < 2 ^ 64
  pub rate_limit_requests_per_second : c.rate_limit_requests_per_second < 2 ^ 64
  pub rate_limit_burst_size : c.rate_limit_burst_size < 2 ^ 32
  pub captcha_compression : (1 ≤ c.captcha_compression) × (c.captcha_compression ≤ 100)

-- A chain that answers went through its first step.
pub bind-valid :
    {A B : Type 0} (m : Checked String A) (f : A → Checked String B) (b : B)
    → (m >>= f) ≡ valid b
    → (a : A) × (m ≡ valid a) × (f a ≡ valid b)
unfolding ◌>>=◌
bind-valid (valid a) f b e = (a, refl, e)
bind-valid (invalid x) f b e = absurd (ground arith)

pub valid-injective :
    {A : Type 0} (a b : A) → ◌≡◌ {A = Checked String A} (valid a) (valid b) → a ≡ b
valid-injective a b e = ap (λ m. elim m [ valid x ↦ x | invalid x ↦ a ]) e

-- What the answer satisfies, if it is not an error.
abbrev pub Holds : {A : Type 0} → (A → Type 0) → Checked String A → Type 0
Holds P (valid a) = P a
Holds P (invalid e) = Unit {0}

pub bind-Holds :
    {A B : Type 0} (Q : A → Type 0) (P : B → Type 0) (m : Checked String A)
    (f : A → Checked String B)
    → Holds Q m
    → ((a : A) → Q a → Holds P (f a))
    → Holds P (m >>= f)
unfolding ◌>>=◌
bind-Holds Q P (valid a) f h k = k a h
bind-Holds Q P (invalid e) f h k = tt

abbrev pub IsLong : String → Type 0
IsLong s = 16 ≤ len s

abbrev pub IsAtMost : ℕ → ℕ → Type 0
IsAtMost max n = n ≤ max

abbrev IsAny : {A : Type 0} → A → Type 0
IsAny a = Unit {0}

long_enough-Holds : (key secret : String) → Holds IsLong (long_enough key secret)
long_enough-Holds key secret = ground arith

required_secret-Holds : (env : EnvProvider) (key : String) → Holds IsLong (required_secret env key)
required_secret-Holds env key =
    bind-Holds IsAny IsLong _ _ (anything _) λ secret _. long_enough-Holds key secret
  where
    anything : (m : Checked String String) → Holds IsAny m
    anything (valid s) = tt
    anything (invalid e) = tt

derived_secret-Holds :
    (env : EnvProvider) (key fallback : String)
    → IsLong fallback
    → Holds IsLong (derived_secret env key fallback)
unfolding derived_secret
derived_secret-Holds env key fallback h = ground (arith, long_enough-Holds key)

required-Holds :
    {A : Type 0} (P : A → Type 0) (m : Option A) (e : String)
    → ((a : A) → m ≡ some a → P a)
    → Holds P (required m e)
required-Holds P none e h = tt
required-Holds P (some a) e h = h a refl

required-IsAny : {A : Type 0} (m : Option A) (e : String) → Holds IsAny (required m e)
required-IsAny m e = required-Holds IsAny m e λ a h. tt

required-number : (max : ℕ) (s e : String) → Holds (IsAtMost max) (required (parse_ℕ max s) e)
required-number max s e = required-Holds (IsAtMost max) (parse_ℕ max s) e (parse_ℕ_bound max s)

required-integer : (s e : String) → Holds (IsSigned (2 ^ 63)) (required (parse_i64 s) e)
required-integer s e =
    required-Holds (IsSigned (2 ^ 63)) (parse_i64 s) e
      λ z. parse_int_bound (2 ^ 63) s z (omega arith)

clamp_quality_range : (n : ℕ) → (1 ≤ clamp_quality n) × (clamp_quality n ≤ 100)
clamp_quality_range n = ground arith

pub from_env_provider-Holds : (env : EnvProvider) → Holds IsValid (from_env_provider env)
unfolding from_env_provider
from_env_provider-Holds env =
    bind-Holds IsLong IsValid _ _ (required_secret-Holds env "API_KEY_SALT") λ salt long.
      bind-Holds IsLong IsValid _ _ (derived_secret-Holds env "SOLUTION_HASH_SECRET" salt long)
        λ hash hash_long.
          bind-Holds IsLong IsValid _ _
            (derived_secret-Holds env "IMAGE_ENCRYPTION_SECRET" salt long)
            λ image image_long.
              bind-Holds (IsAtMost 65535) IsValid _ _ (required-number _ _ _) λ port port_small.
                bind-Holds (IsAtMost 4294967295) IsValid _ _ (required-number _ _ _)
                  λ connections connections_small.
                    bind-Holds IsLong IsValid _ _ (required_secret-Holds env "MASTER_API_KEY")
                      λ master master_long.
                        bind-Holds (IsAtMost 18446744073709551615) IsValid _ _
                          (required-number _ _ _)
                          λ default_ttl default_small.
                            bind-Holds (IsAtMost 18446744073709551615) IsValid _ _
                              (required-number _ _ _)
                              λ max_ttl max_small.
                                bind-Holds (IsSigned (2 ^ 63)) IsValid _ _ (required-integer _ _)
                                  λ attempts attempts_small.
                                    bind-Holds (IsAtMost 18446744073709551615) IsValid _ _
                                      (required-number _ _ _)
                                      λ interval interval_small.
                                        bind-Holds (IsAtMost 18446744073709551615) IsValid _ _
                                          (required-number _ _ _)
                                          λ rate rate_small.
                                            bind-Holds (IsAtMost 4294967295) IsValid _ _
                                              (required-number _ _ _)
                                              λ burst burst_small.
                                                bind-Holds IsAny IsValid _ _ (required-IsAny _ _)
                                                  λ proxy _.
                                                    bind-Holds (IsAtMost 255) IsValid _ _
                                                      (required-number _ _ _)
                                                      λ compression _.
                                                        bind-Holds IsAny IsValid _ _
                                                          (required-IsAny _ _)
                                                          λ write _.
                                                            bind-Holds IsAny IsValid _ _
                                                            (required-IsAny _ _)
                                                            λ otel _. record {
                                                            api_key_salt = long;
                                                            master_api_key = master_long;
                                                            solution_hash_secret = hash_long;
                                                            image_encryption_secret = image_long;
                                                            server_port = omega arith;
                                                            database_max_connections = omega arith;
                                                            default_session_ttl_seconds =
                                                            omega arith;
                                                            max_session_ttl_seconds = omega arith;
                                                            max_validation_attempts =
                                                            attempts_small;
                                                            cleanup_interval_seconds = omega arith;
                                                            rate_limit_requests_per_second =
                                                            omega arith;
                                                            rate_limit_burst_size = omega arith;
                                                            captcha_compression =
                                                            clamp_quality_range compression;
                                                            }

-- Whatever the environment says, a configuration that is resolved has secrets of at least 16 bytes,
-- numbers in the ranges of their types, and a compression between 1 and 100.
pub from_env_provider-IsValid :
    (env : EnvProvider) (c : Config) → from_env_provider env ≡ valid c → IsValid c
from_env_provider-IsValid env c h = subst (Holds IsValid) h (from_env_provider-Holds env)
