-- ===== src/Models.antt =====
-- src/models/: the rows of the two tables and the values built from them. Timestamps and counts are
-- `i64`, here integers, with the operations on them wrapping where the source computes.
use captchapi.Prelude.{
  ℕ, ℤ, pos, String, Bool, true, not, Option, none, List, ltb_ℤ, eqb_ℤ, add_i64, as_i64,
}

pub record SessionRow : Type 0 where
  pub id : String
  pub solution_hash : String
  pub image_encrypted : List ℕ
  pub created_at : ℤ
  pub expires_at : ℤ
  pub attempt_count : ℤ
  pub difficulty : ℤ
  pub width : ℤ
  pub height : ℤ
  pub dark_mode : ℤ

pub record Session : Type 0 where
  pub id : String
  pub solution_hash : String
  pub image_encrypted : List ℕ
  pub created_at : ℤ
  pub expires_at : ℤ
  pub attempt_count : ℤ
  pub difficulty : ℤ
  pub width : ℤ
  pub height : ℤ
  pub dark_mode : Bool

-- `impl From<SessionRow> for Session`
unfoldable pub session_from_row : SessionRow → Session
session_from_row row = record {
  id = row.id;
  solution_hash = row.solution_hash;
  image_encrypted = row.image_encrypted;
  created_at = row.created_at;
  expires_at = row.expires_at;
  attempt_count = row.attempt_count;
  difficulty = row.difficulty;
  width = row.width;
  height = row.height;
  dark_mode = not (eqb_ℤ row.dark_mode (pos 0));
}

-- `Session::new`, at a reading `now` of the clock.
unfoldable pub session_new : ℤ → String → String → List ℕ → ℕ → ℤ → ℤ → ℤ → Bool → Session
session_new now id solution_hash image_encrypted expires_in_seconds difficulty width height dark =
    record {
      id = id;
      solution_hash = solution_hash;
      image_encrypted = image_encrypted;
      created_at = now;
      expires_at = add_i64 now (as_i64 expires_in_seconds);
      attempt_count = pos 0;
      difficulty = difficulty;
      width = width;
      height = height;
      dark_mode = dark;
    }

-- `is_expired`, at a reading of the clock.
unfoldable pub is_expired : Session → ℤ → Bool
is_expired s now = ltb_ℤ s.expires_at now

pub record ApiKeyRow : Type 0 where
  pub key_hash : String
  pub description : Option String
  pub created_at : ℤ
  pub last_used_at : Option ℤ
  pub is_active : ℤ

pub record ApiKey : Type 0 where
  pub key_hash : String
  pub description : Option String
  pub created_at : ℤ
  pub last_used_at : Option ℤ
  pub is_active : Bool

-- `impl From<ApiKeyRow> for ApiKey`
unfoldable pub api_key_from_row : ApiKeyRow → ApiKey
api_key_from_row row = record {
  key_hash = row.key_hash;
  description = row.description;
  created_at = row.created_at;
  last_used_at = row.last_used_at;
  is_active = not (eqb_ℤ row.is_active (pos 0));
}

-- `ApiKey::new`, at a reading `now` of the clock.
unfoldable pub api_key_new : ℤ → String → Option String → ApiKey
api_key_new now key_hash description = record {
  key_hash = key_hash;
  description = description;
  created_at = now;
  last_used_at = none;
  is_active = true;
}

-- models/session_config.rs: the settings that a request reads.
pub record SessionConfig : Type 0 where
  pub default_session_ttl_seconds : ℕ
  pub max_session_ttl_seconds : ℕ
  pub max_validation_attempts : ℤ
  pub captcha_compression : ℤ
