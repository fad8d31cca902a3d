-- ===== src/Config/Params/Kinds.antt =====
-- The description of a configuration parameter (src/config/params.rs). The texts `help` and `about`
-- of a parameter are for readers and are left out.
use captchapi.Prelude.{String, Bool, Option}

pub data Kind : Type 0 where
  str num bool secret_file : Kind

-- Whether a value may be stored in the database.
pub data Persist : Type 0 where
  allowed never : Persist

-- Whether the running process can take up a new value.
pub data Reload : Type 0 where
  boot live : Reload

pub record Param : Type 0 where
  pub env : String
  pub field : String
  pub flag : String
  pub short : Option String
  pub toml : Option String
  pub kind : Kind
  pub reload : Reload
  pub persist : Persist
  pub secret : Bool
  pub default : Option String
