-- ===== src/App.antt =====
-- src/app.rs: what `build_app_with_restart` takes out of the configuration, once, into the services,
-- the middlewares and the rate limiter; and src/services/rate_limiter.rs. The builder of
-- tower_governor is a parameter; the router is a call of axum.
use captchapi.Config.Values.{with_boot_fields_from}
use captchapi.Prelude.{
  sym, ◌∙◌, ◌⊎◌, ℕ, suc, ◌<◌, ◌≤◌, ◌^◌, ◌≡◌, refl, ap, String, Bool, true, false, Option, none,
  some, List, if◌then◌else◌,
}
use captchapi.Crypto.{Primitives, solution_hasher_new, image_cipher_new}
use captchapi.Config.Values.{Config}
use captchapi.Config.Handle.{Handle}
use captchapi.Config.Handle.History.{History, history-IsPinned}
use captchapi.Restart.{RestartHandle}

pub record RateLimiterConfig : Type 0 where
  pub requests_per_second : ℕ
  pub burst_size : ℕ
  pub reverse_proxy : Bool

unfoldable pub rate_limiter_new : ℕ → ℕ → Bool → RateLimiterConfig
rate_limiter_new requests_per_second burst_size reverse_proxy = record {
  requests_per_second = requests_per_second;
  burst_size = burst_size;
  reverse_proxy = reverse_proxy;
}

unfoldable pub direct : ℕ → ℕ → RateLimiterConfig
unfolding rate_limiter_new
direct requests_per_second burst_size = rate_limiter_new requests_per_second burst_size false

unfoldable pub for_reverse_proxy : ℕ → ℕ → RateLimiterConfig
unfolding rate_limiter_new
for_reverse_proxy requests_per_second burst_size =
    rate_limiter_new requests_per_second burst_size true

-- `RateLimiterConfig::default`
unfoldable pub default_rate_limiter : RateLimiterConfig
default_rate_limiter = record { requests_per_second = 2; burst_size = 10; reverse_proxy = false }

unfoldable pub rate_limiter_config : Config → RateLimiterConfig
unfolding direct for_reverse_proxy
rate_limiter_config boot =
    if boot.rate_limit_reverse_proxy
    then for_reverse_proxy boot.rate_limit_requests_per_second boot.rate_limit_burst_size
    else direct boot.rate_limit_requests_per_second boot.rate_limit_burst_size

-- The parts of the application that hold what was read at the start.
pub record App (Limiter : Type 0) : Type 0 where
  -- of `AuthService`
  pub api_key_salt : String
  -- of `SolutionHasher` and `ImageCipher`
  pub solution_key : List ℕ
  pub image_key : List ℕ
  -- of the three middlewares
  pub master_api_key : String
  pub limiter : Limiter
  pub restart : Option RestartHandle

-- `per_second`, `burst_size`, the extractor for a reverse proxy or the one for connections, and
-- `finish`, which gives no limiter for some numbers; and what a limiter that is made goes by.
pub record Governor : Type 1 where
  pub Limiter : Type 0
  pub finish : ℕ → ℕ → Bool → Option Limiter
  pub interval : Limiter → ℕ
  pub burst : Limiter → ℕ
  pub proxied : Limiter → Bool
  -- The interval, in seconds, and the burst must not be zero; of longer intervals nothing is said.
  pub finish_zero_interval : (b : ℕ) (p : Bool) → finish 0 b p ≡ none
  pub finish_zero_burst : (i : ℕ) (p : Bool) → finish i 0 p ≡ none
  pub finish_positive :
      (i b : ℕ) (p : Bool)
      → suc i < 2 ^ 32
      → (limiter : Limiter) × (finish (suc i) (suc b) p ≡ some limiter)
  pub finish_made :
      (i b : ℕ) (p : Bool) (limiter : Limiter)
      → finish i b p ≡ some limiter
      → (interval limiter ≡ i) × (burst limiter ≡ b) × (proxied limiter ≡ p)

module _ (c : Primitives) (g : Governor) where
  open g use {Limiter, finish}

  abbrev with_limiter : Config → Option RestartHandle → Option Limiter → Option (App Limiter)
  with_limiter boot restart none = none
  with_limiter boot restart (some limiter) = some (record {
    api_key_salt = boot.api_key_salt;
    solution_key = solution_hasher_new c boot.solution_hash_secret;
    image_key = image_cipher_new c boot.image_encryption_secret;
    master_api_key = boot.master_api_key;
    limiter = limiter;
    restart = restart;
  })

  -- Everything that is read at the start, from one snapshot. `none` is the panic of `expect`.
  unfoldable pub assemble : Config → Option RestartHandle → Option (App Limiter)
  unfolding rate_limiter_config
  assemble boot restart =
      let r = rate_limiter_config boot in
      with_limiter boot restart (finish r.requests_per_second r.burst_size r.reverse_proxy)

  unfoldable pub build_app_with_restart : Handle → Option RestartHandle → Option (App Limiter)
  unfolding assemble
  build_app_with_restart config restart = assemble config.current restart

  unfoldable pub build_app : Handle → Option (App Limiter)
  unfolding build_app_with_restart
  build_app config = build_app_with_restart config none

  assemble-with_boot_fields_from :
      (running resolved : Config) (restart : Option RestartHandle)
      → assemble (with_boot_fields_from running resolved) restart ≡ assemble running restart
  unfolding assemble with_boot_fields_from
  assemble-with_boot_fields_from running resolved restart = refl

  -- What the application took from the configuration at the start is what the running configuration
  -- says, after whatever reloads, adoptions and patches: building it again from the handle as it is
  -- then would give the same application, or panic as well.
  pub build_app_with_restart-history :
      (h h' : Handle) (restart : Option RestartHandle)
      → History h h'
      → build_app_with_restart h' restart ≡ build_app_with_restart h restart
  unfolding build_app_with_restart
  build_app_with_restart-history h h' restart past =
      let same = (history-IsPinned h h' past).boot h.current in
      sym (assemble-with_boot_fields_from h'.current h.current restart)
      ∙ ap (λ boot. assemble boot restart) same
      ∙ assemble-with_boot_fields_from h.current h.current restart

  -- What a configuration has an application built of, or has the start panic.
  abbrev pub IsLimited : Config → Option (App Limiter) → Type 0
  IsLimited boot none =
      (boot.rate_limit_requests_per_second ≡ 0)
      ⊎ ((boot.rate_limit_burst_size ≡ 0) ⊎ (2 ^ 32 ≤ boot.rate_limit_requests_per_second))
  IsLimited boot (some app) =
      (0 < boot.rate_limit_requests_per_second)
      × (0 < boot.rate_limit_burst_size)
      × (g.interval app.limiter ≡ boot.rate_limit_requests_per_second)
      × (g.burst app.limiter ≡ boot.rate_limit_burst_size)
      × (g.proxied app.limiter ≡ boot.rate_limit_reverse_proxy)
