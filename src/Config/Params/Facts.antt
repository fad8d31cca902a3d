-- ===== src/Config/Params/Facts.antt =====
-- What the table of parameters guarantees to the code that looks things up in it.
use captchapi.Prelude.{
  String, ◌≡◌, refl, Bool, true, false, ◌&&◌, Option, none, some, List, [], ◌∷◌, arith, str_eq,
  eq_iff, all, if◌then◌else◌,
}
use captchapi.Config.Params.{
  Param, params, find, by_field, Persist, allowed, never, Reload, boot, live,
}

all-find {ℓ} :
    {A : Type ℓ} (p q : A → Bool) (xs : List A) (x : A)
    → all q xs ≡ true
    → find p xs ≡ some x
    → (p x ≡ true) × (q x ≡ true)
unfolding find
all-find p q [] x h e = ground arith
all-find p q (y ∷ ys) x h e = ground (arith, all-find p q ys x)

abbrev is_never : Persist → Bool
is_never never = true
is_never allowed = false

abbrev is_boot : Reload → Bool
is_boot boot = true
is_boot live = false

abbrev is_none : Option String → Bool
is_none none = true
is_none (some t) = false

abbrev is_guarded : Param → Bool
is_guarded p =
    if p.secret
    then is_never p.persist && is_boot p.reload && is_none p.toml && is_none p.default
    else true

rows_guarded : all is_guarded params ≡ true
rows_guarded = refl

guarded :
    (p : Param)
    → is_guarded p ≡ true
    → p.secret ≡ true
    → (p.persist ≡ never) × (p.reload ≡ boot) × (p.toml ≡ none) × (p.default ≡ none)
guarded p h e = ground arith

-- A parameter that is looked up by its field name has that name; if it is a secret, it may never be
-- stored in the database, cannot change while the process runs, has no place in a config file and
-- no default.
pub by_field_guards :
    (field : String) (p : Param)
    → by_field field ≡ some p
    → (p.field ≡ field)
      × (p.secret ≡ true
          → (p.persist ≡ never) × (p.reload ≡ boot) × (p.toml ≡ none) × (p.default ≡ none))
unfolding by_field
by_field_guards field p found =
    let (named, fine) =
      all-find (λ q. str_eq q.field field) is_guarded params p rows_guarded found in
    ((eq_iff p.field field).0 named, guarded p fine)
