-- ===== src/Config/Handle/Patch/Checks.antt =====
-- What the checks of a patch let through, and what the overrides are then.
use captchapi.Prelude.{
  String, Bool-cases, inl, inr, false, Option, none, some, [], ◌∷◌, All, ◌≡◌, refl, ◌∙◌, ap, arith,
  str_eq, eq_iff, ◌≢◌,
}
use mathlib.Core.Path.{subst}
use captchapi.Validation.{valid}
use captchapi.Config.Params.{Param, params, by_field, by_env, Reload, boot, live}
use captchapi.Config.Layers.{Layer, Sources, get_in, insert, source_get, is_pinned, ◌or_else◌}
use captchapi.Config.Layers.Laws.{get_in-insert}
use captchapi.Config.Values.Laws.{bind-valid}
use captchapi.Config.Values.Merge.{find-All}
use captchapi.Config.Handle.{check_live, check_free, insert_all, known_live, free_param, live_only}
use captchapi.ConfigStore.Written.{IsMap}

-- A key of the table is that of a parameter that is found by its field name too.
abbrev FoundByField : Param → Type 0
FoundByField p = by_field p.field ≡ some p

rows_found : All FoundByField params
unfolding by_field
rows_found = (
  refl,
  (
    refl,
    (
      refl,
      (
        refl,
        (
          refl,
          (
            refl,
            (
              refl,
              (
                refl,
                (
                  refl,
                  (
                    refl,
                    (
                      refl,
                      (
                        refl,
                        (
                          refl,
                          (
                            refl,
                            (
                              refl,
                              (refl, (refl, (refl, (refl, (refl, (refl, (refl, (refl, tt)))))))),
                            ),
                          ),
                        ),
                      ),
                    ),
                  ),
                ),
              ),
            ),
          ),
        ),
      ),
    ),
  ),
)

pub by_env-by_field :
    (key : String) (p : Param) → by_env key ≡ some p → (p.env ≡ key) × FoundByField p
unfolding by_env
by_env-by_field key p h =
    let (named, row) = find-All FoundByField (λ q. str_eq q.env key) params p rows_found h in
    ((eq_iff p.env key).0 named, row)

abbrev IsLive : String → Type 0
IsLive key = (p : Param) × (by_env key ≡ some p) × (p.reload ≡ live)

reload_live : (p : Param) (r : Reload) → live_only p r ≡ valid tt → r ≡ live
reload_live p live h = refl
reload_live p boot h = absurd (ground arith)

known_live-IsLive :
    (key : String) (o : Option Param) → by_env key ≡ o → known_live key o ≡ valid tt → IsLive key
known_live-IsLive key none e h = absurd (ground arith)
known_live-IsLive key (some p) e h = (p, e, reload_live p p.reload h)

past_head :
    (k v key value : String) (t : Layer)
    → str_eq k key ≡ false
    → get_in key ((k, v) ∷ t) ≡ some value
    → get_in key t ≡ some value
unfolding get_in
past_head k v key value t other h = ground arith

none_in : (key value : String) → get_in key [] ≢ some value
unfolding get_in
none_in key value h = ground arith

pub check_live_lem :
    (updates : Layer) (key value : String)
    → check_live updates ≡ valid tt
    → get_in key updates ≡ some value
    → IsLive key
unfolding check_live
check_live_lem [] key value h e = absurd (none_in key value e)
check_live_lem ((k, v) ∷ t) key value h e =
    let (u, first, rest) = bind-valid (known_live k (by_env k)) (λ u. check_live t) tt h in
    elim (Bool-cases (str_eq k key)) [
      | inl same ↦ subst IsLive ((eq_iff k key).0 same) (known_live-IsLive k (by_env k) refl first)
      | inr other ↦ check_live_lem t key value rest (past_head k v key value t other e)
    ]

free_param-unpinned :
    (sources : Sources) (p : Param)
    → free_param sources (some p) ≡ valid tt
    → is_pinned (source_get sources p.field) ≡ false
free_param-unpinned sources p h = ground arith

pub check_free_lem :
    (sources : Sources) (updates : Layer) (key value : String) (p : Param)
    → check_free sources updates ≡ valid tt
    → get_in key updates ≡ some value
    → by_env key ≡ some p
    → is_pinned (source_get sources p.field) ≡ false
unfolding check_free
check_free_lem sources [] key value p h e found = absurd (none_in key value e)
check_free_lem sources ((k, v) ∷ t) key value p h e found =
    let (u, first, rest) =
      bind-valid (free_param sources (by_env k)) (λ u. check_free sources t) tt h in
    elim (Bool-cases (str_eq k key)) [
      | inl same ↦ free_param-unpinned sources p (
          subst (λ o. free_param sources o ≡ valid tt) (ap by_env ((eq_iff k key).0 same) ∙ found)
            first)
      | inr other ↦
          check_free_lem sources t key value p rest (past_head k v key value t other e) found
    ]

pub get_in-insert_all :
    (updates overlay : Layer) (key : String)
    → IsMap updates
    → get_in key (insert_all updates overlay) ≡ (get_in key updates or_else get_in key overlay)
unfolding insert_all get_in
get_in-insert_all [] overlay key h = refl
get_in-insert_all ((k, v) ∷ t) overlay key (fresh, h) = ground (
  arith,
  eq_iff k key,
  get_in-insert k v key overlay,
  get_in-insert_all t (insert k v overlay) key h,
)
