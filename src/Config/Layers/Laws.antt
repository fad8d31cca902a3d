-- ===== src/Config/Layers/Laws.antt =====
-- The layer that is reported is the layer that answers.
use captchapi.Prelude.{
  ℕ, ◌<◌, String, ◌≡◌, refl, Option, none, some, List, [], ◌∷◌, arith, str_eq, eq_iff,
  if◌then◌else◌,
}
use captchapi.Config.Params.{Param, params, by_field, find}
use captchapi.Config.Layers.{
  LayeredEnv, Layer, Source, admin, cli, env, stored, env_file, file, carried, default, get_in,
  insert, get, source_of, capture, capture_each, source_get,
}

-- What one layer says of a key.
abbrev pub says : LayeredEnv → String → Source → Option String
says l key admin = get_in key l.overlay
says l key cli = get_in key l.cli
says l key env = l.env key
says l key stored = get_in key l.stored
says l key env_file = get_in key l.env_file
says l key file = get_in key l.file
says l key carried = get_in key l.carried
says l key default = none

-- The order of precedence that the documentation gives: admin, command line, environment, stored,
-- env file, file, carried, default.
abbrev pub rank : Source → ℕ
rank admin = 0
rank cli = 1
rank env = 2
rank stored = 3
rank env_file = 4
rank file = 5
rank carried = 6
rank default = 7

-- The value that a key resolves to is the value in the layer that `source_of` reports, and no layer
-- of higher precedence has the key; `Default` is reported exactly if no layer has it.
pub get-source_of :
    (l : LayeredEnv) (key : String)
    → (get l key ≡ says l key (source_of l key))
      × ((s : Source) → rank s < rank (source_of l key) → says l key s ≡ none)
      × (source_of l key ≡ default → get l key ≡ none)
unfolding get source_of
get-source_of l key = (ground arith, above, ground arith)
  where
    above : (s : Source) → rank s < rank (source_of l key) → says l key s ≡ none
    above admin h = ground arith
    above cli h = ground arith
    above env h = ground arith
    above stored h = ground arith
    above env_file h = ground arith
    above file h = ground arith
    above carried h = ground arith
    above default h = ground arith

source_get-capture_each :
    (l : LayeredEnv) (field : String) (ps : List Param) (p : Param)
    → find (λ q. str_eq q.field field) ps ≡ some p
    → source_get (capture_each l ps) field ≡ source_of l p.env
unfolding source_get capture_each find
source_get-capture_each l field [] p h = ground arith
source_get-capture_each l field (q ∷ qs) p h = ground (arith, source_get-capture_each l field qs p)

source_get-capture_each-none :
    (l : LayeredEnv) (field : String) (ps : List Param)
    → find (λ q. str_eq q.field field) ps ≡ none
    → source_get (capture_each l ps) field ≡ default
unfolding source_get capture_each find
source_get-capture_each-none l field [] h = refl
source_get-capture_each-none l field (q ∷ qs) h =
    ground (arith, source_get-capture_each-none l field qs)

-- The captured provenance of a field is the layer that answers for the field's parameter, and
-- `Default` for a field that is no parameter.
pub source_get-capture :
    (l : LayeredEnv) (field : String)
    → ((p : Param) → by_field field ≡ some p → source_get (capture l) field ≡ source_of l p.env)
      × (by_field field ≡ none → source_get (capture l) field ≡ default)
unfolding by_field capture
source_get-capture l field =
    (source_get-capture_each l field params, source_get-capture_each-none l field params)

-- An override of a key is what the key resolves to afterwards, and no other key changes.
pub get_in-insert :
    (key value other : String) (l : Layer)
    → get_in other (insert key value l) ≡ (if str_eq key other then some value else get_in other l)
unfolding get_in insert
get_in-insert key value other [] = refl
get_in-insert key value other ((k, v) ∷ l) =
    ground (arith, eq_iff k key, eq_iff k other, eq_iff key other, get_in-insert key value other l)
