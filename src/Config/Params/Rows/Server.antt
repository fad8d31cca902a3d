-- ===== src/Config/Params/Rows/Server.antt =====
-- The rows of `PARAMS` in src/config/params.rs, one definition for each: the server, the database and the secrets.
use captchapi.Prelude.{true, false, none, some}
use captchapi.Config.Params.Kinds.{Param, Kind, allowed, never, boot}

abbrev pub server_host : Param
server_host = record {
  env = "SERVER_HOST";
  field = "server_host";
  flag = "--host";
  short = some "-H";
  toml = some "server.host";
  kind = Kind.str;
  reload = boot;
  persist = allowed;
  secret = false;
  default = some "0.0.0.0";
}

abbrev pub server_port : Param
server_port = record {
  env = "SERVER_PORT";
  field = "server_port";
  flag = "--port";
  short = some "-p";
  toml = some "server.port";
  kind = Kind.num;
  reload = boot;
  persist = allowed;
  secret = false;
  default = some "3000";
}

abbrev pub pid_file : Param
pid_file = record {
  env = "PID_FILE";
  field = "pid_file";
  flag = "--pid-file";
  short = none;
  toml = some "server.pid_file";
  kind = Kind.str;
  reload = boot;
  persist = allowed;
  secret = false;
  default = some "./data/captchapi.pid";
}

abbrev pub database_url : Param
database_url = record {
  env = "DATABASE_URL";
  field = "database_url";
  flag = "--database-url";
  short = some "-d";
  toml = some "database.url";
  kind = Kind.str;
  reload = boot;
  persist = never;
  secret = false;
  default = some "sqlite:./data/captchapi.db";
}

abbrev pub database_max_connections : Param
database_max_connections = record {
  env = "DATABASE_MAX_CONNECTIONS";
  field = "database_max_connections";
  flag = "--database-max-connections";
  short = none;
  toml = some "database.max_connections";
  kind = Kind.num;
  reload = boot;
  persist = never;
  secret = false;
  default = some "5";
}

abbrev pub api_key_salt : Param
api_key_salt = record {
  env = "API_KEY_SALT";
  field = "api_key_salt";
  flag = "--api-key-salt-file";
  short = none;
  toml = none;
  kind = Kind.secret_file;
  reload = boot;
  persist = never;
  secret = true;
  default = none;
}

abbrev pub master_api_key : Param
master_api_key = record {
  env = "MASTER_API_KEY";
  field = "master_api_key";
  flag = "--master-api-key-file";
  short = none;
  toml = none;
  kind = Kind.secret_file;
  reload = boot;
  persist = never;
  secret = true;
  default = none;
}

abbrev pub solution_hash_secret : Param
solution_hash_secret = record {
  env = "SOLUTION_HASH_SECRET";
  field = "solution_hash_secret";
  flag = "--solution-hash-secret-file";
  short = none;
  toml = none;
  kind = Kind.secret_file;
  reload = boot;
  persist = never;
  secret = true;
  default = none;
}

abbrev pub image_encryption_secret : Param
image_encryption_secret = record {
  env = "IMAGE_ENCRYPTION_SECRET";
  field = "image_encryption_secret";
  flag = "--image-encryption-secret-file";
  short = none;
  toml = none;
  kind = Kind.secret_file;
  reload = boot;
  persist = never;
  secret = true;
  default = none;
}
