-- ===== src/Config/Values/Merge.antt =====
-- `with_boot_fields_from` of src/config/mod.rs, which a reload keeps the boot-only fields by, and the
-- column `reload` of the table of parameters.
use captchapi.Prelude.{
  ◌∙◌, String, Bool, Bool-cases, inl, inr, eq_iff, true, Option, none, some, List, [], ◌∷◌, ◌≡◌,
  refl, arith, str_eq, eq_refl, if◌then◌else◌, All, Bool-cases, inl, inr, sym, ap,
}
use mathlib.Core.Path.{subst}
use captchapi.Config.Params.{Param, params, by_field, find}
use captchapi.Config.Values.{
  Config, field_value, is_boot, with_boot_fields_from, boot_drift, boot_drift_of, same_text,
  boot_layer,
}

pub find-All {ℓ} :
    {A : Type ℓ} (P : A → Type 0) (q : A → Bool) (xs : List A) (x : A)
    → All P xs
    → find q xs ≡ some x
    → (q x ≡ true) × P x
unfolding find
find-All P q [] x h e = absurd (ground arith)
find-All P q (y ∷ ys) x (h, hs) e = elim (Bool-cases (q y)) [
  | inl here ↦ let same : y ≡ x = ground arith in subst (λ z. (q z ≡ true) × P z) same (here, h)
  | inr past ↦ find-All P q ys x hs (ground arith)
]

-- The value that the table says a field keeps: the running one, or the one newly resolved.
abbrev pub expected : Config → Config → Param → Option String
expected c resolved p =
    if is_boot p.reload then field_value c p.field else field_value resolved p.field

abbrev AsExpected : Config → Config → Param → Type 0
AsExpected c resolved p =
    field_value (with_boot_fields_from c resolved) p.field ≡ expected c resolved p

rows : (c resolved : Config) → All (AsExpected c resolved) params
unfolding field_value with_boot_fields_from
rows c resolved = (
  refl,
  (
    refl,
    (
      refl,
      (
        refl,
        (
          refl,
          (
            refl,
            (
              refl,
              (
                refl,
                (
                  refl,
                  (
                    refl,
                    (
                      refl,
                      (
                        refl,
                        (
                          refl,
                          (
                            refl,
                            (
                              refl,
                              (refl, (refl, (refl, (refl, (refl, (refl, (refl, (refl, tt)))))))),
                            ),
                          ),
                        ),
                      ),
                    ),
                  ),
                ),
              ),
            ),
          ),
        ),
      ),
    ),
  ),
)

-- A configuration that takes its boot-only fields from a running one: each field whose parameter the
-- table marks as live has the value that was newly resolved, and each other field the value of the
-- running configuration.
pub field_value-with_boot_fields_from :
    (c resolved : Config) (field : String) (p : Param)
    → by_field field ≡ some p
    → field_value (with_boot_fields_from c resolved) field
      ≡ (if is_boot p.reload then field_value c field else field_value resolved field)
unfolding by_field
field_value-with_boot_fields_from c resolved field p found =
    let (named, row) =
      find-All (AsExpected c resolved) (λ q. str_eq q.field field) params p (rows c resolved)
        found in
    subst
      (λ f.
        field_value (with_boot_fields_from c resolved) f
        ≡ (if is_boot p.reload then field_value c f else field_value resolved f))
      ((eq_iff p.field field).0 named) row

-- Two configurations with the same boot-only fields.
abbrev pub IsSameBoot : Config → Config → Type 0
IsSameBoot c c' = (r : Config) → with_boot_fields_from c r ≡ with_boot_fields_from c' r

pub with_boot_fields_from-IsSameBoot :
    (c resolved : Config) → IsSameBoot (with_boot_fields_from c resolved) c
unfolding with_boot_fields_from
with_boot_fields_from-IsSameBoot c resolved r = refl

boot_layer-with_boot_fields_from :
    (c r : Config) → boot_layer (with_boot_fields_from c r) ≡ boot_layer c
unfolding boot_layer with_boot_fields_from
boot_layer-with_boot_fields_from c r = refl

boot_drift-with_boot_fields_from :
    (c r resolved : Config)
    → boot_drift (with_boot_fields_from c r) resolved ≡ boot_drift c resolved
unfolding boot_drift with_boot_fields_from
boot_drift-with_boot_fields_from c r resolved = refl

-- What a reload computes from a running configuration depends on its boot-only fields alone.
pub boot_layer-same : (c c' : Config) → IsSameBoot c c' → boot_layer c ≡ boot_layer c'
boot_layer-same c c' same =
    sym (boot_layer-with_boot_fields_from c c)
    ∙ ap boot_layer (same c)
    ∙ boot_layer-with_boot_fields_from c' c

pub boot_drift-same :
    (c c' resolved : Config) → IsSameBoot c c' → boot_drift c resolved ≡ boot_drift c' resolved
boot_drift-same c c' resolved same =
    sym (boot_drift-with_boot_fields_from c c resolved)
    ∙ ap (λ x. boot_drift x resolved) (same c)
    ∙ boot_drift-with_boot_fields_from c' c resolved

-- A configuration has not drifted from one with its own boot-only fields.
same_text_refl : (o : Option String) → same_text o o ≡ true
same_text_refl none = refl
same_text_refl (some s) = eq_refl s

boot_drift_of-with_boot_fields_from :
    (c resolved : Config) (ps : List Param)
    → All (AsExpected c resolved) ps
    → boot_drift_of c (with_boot_fields_from c resolved) ps ≡ []
unfolding boot_drift_of
boot_drift_of-with_boot_fields_from c resolved [] h = refl
boot_drift_of-with_boot_fields_from c resolved (p ∷ ps) (h, hs) = ground (
  arith,
  same_text_refl (field_value c p.field),
  boot_drift_of-with_boot_fields_from c resolved ps hs,
)

pub boot_drift_none : (c resolved : Config) → boot_drift c (with_boot_fields_from c resolved) ≡ []
unfolding boot_drift
boot_drift_none c resolved = boot_drift_of-with_boot_fields_from c resolved params (rows c resolved)
