-- ===== src/Admin/Laws/Candidate.antt =====
-- The layer that `put_stored` and `delete_stored` adopt.
use captchapi.Prelude.{
  String, Option, none, some, [], ◌∷◌, All, ◌≡◌, refl, sym, ◌∙◌, ap, arith, str_eq, eq_iff,
  if◌then◌else◌,
}
use captchapi.Config.Params.{Param, params, by_field, by_env}
use captchapi.Config.Params.Facts.{by_field_guards}
use captchapi.Config.Layers.{Layer, get_in, ◌or_else◌}
use captchapi.Config.Layers.Laws.{get_in-insert}
use captchapi.Config.Values.Merge.{find-All}
use captchapi.ConfigStore.Written.{IsMap}
use captchapi.Admin.{candidate_of, remove, insert_field}

abbrev FoundByEnv : Param → Type 0
FoundByEnv p = by_env p.env ≡ some p

rows_found : All FoundByEnv params
unfolding by_env
rows_found = (
  refl,
  (
    refl,
    (
      refl,
      (
        refl,
        (
          refl,
          (
            refl,
            (
              refl,
              (
                refl,
                (
                  refl,
                  (
                    refl,
                    (
                      refl,
                      (
                        refl,
                        (
                          refl,
                          (
                            refl,
                            (
                              refl,
                              (refl, (refl, (refl, (refl, (refl, (refl, (refl, (refl, tt)))))))),
                            ),
                          ),
                        ),
                      ),
                    ),
                  ),
                ),
              ),
            ),
          ),
        ),
      ),
    ),
  ),
)

by_field-by_env : (field : String) (p : Param) → by_field field ≡ some p → FoundByEnv p
unfolding by_field
by_field-by_env field p h =
    (find-All FoundByEnv (λ q. str_eq q.field field) params p rows_found h).1

-- No two fields of the table have the same key.
pub same_key :
    (f g : String) (p q : Param) → by_field f ≡ some p → by_field g ≡ some q → p.env ≡ q.env → f ≡ g
same_key f g p q hp hq e =
    let same : ◌≡◌ {A = Option Param} (some p) (some q) =
      sym (by_field-by_env f p hp) ∙ ap by_env e ∙ by_field-by_env g q hq in
    sym (by_field_guards f p hp).0 ∙ ap (named f) same ∙ (by_field_guards g q hq).0
  where
    named : String → Option Param → String
    named f none = f
    named f (some p) = p.field

insert_field_lem :
    (f field value : String) (o : Option Param) (p : Param) (l : Layer)
    → by_field f ≡ o
    → by_field field ≡ some p
    → get_in p.env (insert_field o value l)
      ≡ (if str_eq f field then some value else get_in p.env l)
insert_field_lem f field value none p l e found = ground (arith, eq_iff f field)
insert_field_lem f field value (some q) p l e found =
    let same_param : f ≡ field → ◌≡◌ {A = Option Param} (some q) (some p) =
      λ same. sym e ∙ ap by_field same ∙ found in
    let forth : f ≡ field → q.env ≡ p.env = λ same. ap (env_or p) (same_param same) in
    ground (
      arith,
      get_in-insert q.env value p.env l,
      eq_iff f field,
      eq_iff q.env p.env,
      forth,
      same_key f field q p e found,
    )
  where
    env_or : Param → Option Param → String
    env_or p none = p.env
    env_or p (some q) = q.env

-- A candidate has the new value of each field, under the key of its parameter, and otherwise what was
-- stored.
pub get_in-candidate_of :
    (updates l : Layer) (field : String) (p : Param)
    → IsMap updates
    → by_field field ≡ some p
    → get_in p.env (candidate_of updates l) ≡ (get_in field updates or_else get_in p.env l)
unfolding candidate_of get_in
get_in-candidate_of [] l field p one found = refl
get_in-candidate_of ((f, v) ∷ t) l field p (fresh, one) found = ground (
  arith,
  eq_iff f field,
  insert_field_lem f field v (by_field f) p l refl found,
  get_in-candidate_of t (insert_field (by_field f) v l) field p one found,
)

pub get_in-remove :
    (key other : String) (l : Layer)
    → get_in other (remove key l) ≡ (if str_eq key other then none else get_in other l)
unfolding remove get_in
get_in-remove key other [] = ground arith
get_in-remove key other ((k, v) ∷ t) =
    ground (arith, eq_iff k key, eq_iff k other, eq_iff key other, get_in-remove key other t)
