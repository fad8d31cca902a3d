-- ===== src/Admin/Describe/Laws.antt =====
-- What the description of the configuration gives away.
use captchapi.Prelude.{String, ◌≡◌, refl, len}
use captchapi.Config.Values.{Config, field_value}
use captchapi.Config.Files.{redact}
use captchapi.Config.Handle.{Handle}
use captchapi.Admin.Describe.{describe_config, describe_each, field_value, entry, redact}

-- Other secrets in a configuration.
abbrev pub with_secrets : String → String → String → String → Config → Config
with_secrets salt master hash image c = record c {
  api_key_salt = salt;
  master_api_key = master;
  solution_hash_secret = hash;
  image_encryption_secret = image;
}

-- The description that the endpoints answer with is the same for two configurations that differ only
-- in their secrets, as long as each secret has as many bytes: nothing of a secret but its length can
-- be learned from it.
pub describe_config-with_secrets :
    (c : Config) (h : Handle) (salt master hash image : String)
    → len salt ≡ len c.api_key_salt
    → len master ≡ len c.master_api_key
    → len hash ≡ len c.solution_hash_secret
    → len image ≡ len c.image_encryption_secret
    → describe_config (with_secrets salt master hash image c) h ≡ describe_config c h
unfolding describe_config describe_each field_value entry redact
describe_config-with_secrets c h salt master hash image e1 e2 e3 e4 = rw (e1, e2, e3, e4) refl
