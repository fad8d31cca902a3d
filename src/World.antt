-- ===== src/World.antt =====
-- What a request handler reads and changes: the database tables, the metric counters, and the
-- world outside the process, which answers clock readings, random draws and SQL statements.
-- The n-th interaction with the outside has number n: `fails` says whether the database refuses a
-- statement then, `now` what `Utc::now().timestamp()` returns then, and so on. Nothing is assumed
-- of these functions; in particular the clock may jump back.
use captchapi.Prelude.{ℕ, suc, ℤ, String, Bool, Option, none, some, List, if◌then◌else◌}
use captchapi.Error.{AppError, database, Result, ok, err}
use captchapi.Models.{SessionRow, ApiKeyRow}

pub record Outside : Type 0 where
  pub fails : ℕ → Bool
  pub now : ℕ → ℤ
  -- `Uuid::new_v4().to_string()`
  pub uuid : ℕ → String
  -- twelve bytes of `rand::rng().fill_bytes`
  pub nonce : ℕ → List ℕ
  -- the text that `sample_iter(&Alphanumeric).take(32)` draws
  pub alphanumeric : ℕ → String

-- metrics.rs: the counters of the session operations.
pub record SessionMetrics : Type 0 where
  pub created : ℕ
  pub validated : ℕ
  pub validation_failed : ℕ
  pub deleted : ℕ
  pub expired_cleaned : ℕ
  pub validation_attempts : ℕ
  pub max_attempts_exceeded : ℕ

-- metrics.rs: the counters of the API key operations.
pub record ApiKeyMetrics : Type 0 where
  pub created : ℕ
  pub deleted : ℕ
  pub updated : ℕ
  pub listed : ℕ
  pub authentications : ℕ
  pub auth_failures : ℕ

-- migrations/: a row of `config_settings`.
pub record SettingRow : Type 0 where
  pub field : String
  pub value : String
  pub updated_at : ℤ
  pub updated_by : String

-- The column `status` of `config_generations`.
pub data Status : Type 0 where
  pending confirmed rolled_back : Status

-- A row of `config_generations`. The snapshot is a JSON text.
pub record GenerationRow : Type 0 where
  pub id : ℕ
  pub created_at : ℤ
  pub snapshot : String
  pub status : Status
  pub attempts : ℕ

pub record World : Type 0 where
  pub outside : Outside
  pub step : ℕ
  pub sessions : List SessionRow
  pub api_keys : List ApiKeyRow
  pub settings : List SettingRow
  pub generations : List GenerationRow
  -- the AUTOINCREMENT counter of `config_generations`
  pub next_generation : ℕ
  pub session_metrics : SessionMetrics
  pub api_key_metrics : ApiKeyMetrics

-- A fallible operation. What was written before an error stays written.
abbrev pub Exec : Type 0 → Type 0
Exec A = World → Result A × World

module _ {A : Type 0} where
  abbrev pub pure : A → Exec A
  pure a w = (ok a, w)

  abbrev pub raise : AppError → Exec A
  raise e w = (err e, w)

  abbrev pub lift : Result A → Exec A
  lift r w = (r, w)

  -- `.ok_or(e)?`
  abbrev pub ok_or : Option A → AppError → Exec A
  ok_or none e w = (err e, w)
  ok_or (some a) e w = (ok a, w)

  -- `if let Err(e) = … { log }` and `let _ = …`: the error is dropped, its effects are not.
  abbrev pub attempt : Exec A → Exec (Unit {0})
  attempt m w = (ok tt, (m w).1)

module _ {A B : Type 0} where
  abbrev pub continue : Result A → (A → Exec B) → Exec B
  continue (ok a) f w = f a w
  continue (err e) f w = (err e, w)

  infixl 10 ◌>>=◌ ◌>>◌
  abbrev pub ◌>>=◌ : Exec A → (A → Exec B) → Exec B
  ◌>>=◌ m f w = let (r, w') = m w in continue r f w'

  abbrev pub ◌>>◌ : Exec A → Exec B → Exec B
  m >> n = m >>= λ _. n

-- One interaction with the outside.
abbrev pub tick : World → World
tick w = record w { step = suc w.step }

abbrev pub draw : {A : Type 0} → (Outside → ℕ → A) → Exec A
draw f w = (ok (f w.outside w.step), tick w)

abbrev pub utc_now : Exec ℤ
utc_now = draw (λ o. o.now)

-- Send a statement: the database refuses it, or runs it on the tables.
abbrev pub statement : {A : Type 0} → (World → Result A × World) → Exec A
statement run w = if w.outside.fails w.step then (err database, tick w) else run (tick w)

-- Counters.
abbrev pub count_session : (SessionMetrics → SessionMetrics) → Exec (Unit {0})
count_session f w = (ok tt, record w { session_metrics = f w.session_metrics })

abbrev pub count_api_key : (ApiKeyMetrics → ApiKeyMetrics) → Exec (Unit {0})
count_api_key f w = (ok tt, record w { api_key_metrics = f w.api_key_metrics })
