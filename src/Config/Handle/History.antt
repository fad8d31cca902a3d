-- ===== src/Config/Handle/History.antt =====
-- What any sequence of reloads, adoptions and patches leaves of a handle, and what it does not.
use captchapi.Prelude.{String, some, List, [], ◌≡◌, refl, ◌∙◌, arith, ap}
use captchapi.Validation.{Checked, valid, invalid}
use captchapi.Config.Params.{Param, by_field, boot}
use captchapi.Config.Layers.{Layer, Sources}
use captchapi.Config.Values.{Config, field_value, with_boot_fields_from}
use captchapi.Config.Values.Merge.{
  IsSameBoot, with_boot_fields_from-IsSameBoot, field_value-with_boot_fields_from,
}
use captchapi.Config.Files.{System}
use captchapi.Config.Handle.{Handle, reload, adopt_stored, patch, publish, override, commit}

-- The handles that operations lead to from a handle. Between two operations the files, the process
-- environment and the stored settings may change.
pub data History (h : Handle) : Handle → Type 0 where
  start : History h h
  reloaded :
      (sys : System) (stored : Layer) (h' : Handle)
      → History h h'
      → History h (reload sys stored h').1
  adopted :
      (sys : System) (stored : Layer) (h' : Handle)
      → History h h'
      → History h (adopt_stored sys stored h').1
  patched :
      (sys : System) (updates : Layer) (h' : Handle)
      → History h h'
      → History h (patch sys updates h').1

-- What stays: the arguments, the source of the environment, and the boot-only fields.
pub record IsPinned (h h' : Handle) : Type 0 where
  pub cli : h'.cli ≡ h.cli
  pub env : h'.env ≡ h.env
  pub boot : IsSameBoot h'.current h.current

moved :
    (h h' : Handle) (resolved : Config) (o : Layer) (s : Sources) (pr : List String) (st : Layer)
    → IsPinned h h'
    → IsPinned h (record h' {
      current = with_boot_fields_from h'.current resolved;
      overlay = o;
      sources = s;
      pending_restart = pr;
      stored = st;
    })
moved h h' resolved o s pr st p = record {
  cli = p.cli;
  env = p.env;
  boot = λ r. with_boot_fields_from-IsSameBoot h'.current resolved r ∙ p.boot r;
}

committed :
    {A B : Type 0} (P : Handle → Type 0) (h : Handle) (f : A → B × Handle) (m : Checked String A)
    → P h
    → ((a : A) → P (f a).1)
    → P (commit h f m).1
committed P h f (invalid e) p q = p
committed P h f (valid a) p q = q a

pub history-IsPinned : (h h' : Handle) → History h h' → IsPinned h h'
unfolding reload adopt_stored patch publish override
history-IsPinned h _ start = record { cli = refl; env = refl; boot = λ r. refl }
history-IsPinned h _ (reloaded sys stored h' past) =
    committed (IsPinned h) h' (publish [] stored h') _ (history-IsPinned h h' past)
      λ r. moved h h' r.0 _ _ _ _ (history-IsPinned h h' past)
history-IsPinned h _ (adopted sys stored h' past) =
    committed (IsPinned h) h' (publish h'.overlay stored h') _ (history-IsPinned h h' past)
      λ r. moved h h' r.0 _ _ _ _ (history-IsPinned h h' past)
history-IsPinned h _ (patched sys updates h' past) =
    committed (IsPinned h) h' (override _ h') _ (history-IsPinned h h' past)
      λ r. moved h h' r.0 _ _ _ _ (history-IsPinned h h' past)

-- No history changes a boot-only field.
pub history_boot :
    (h h' : Handle) (field : String) (p : Param)
    → History h h'
    → by_field field ≡ some p
    → p.reload ≡ boot
    → field_value h'.current field ≡ field_value h.current field
history_boot h h' field p past found at_boot =
    let kept = λ (c : Config). field_value-with_boot_fields_from c h.current field p found in
    let same = ap (λ c. field_value c field) ((history-IsPinned h h' past).boot h.current) in
    ground (arith, kept h'.current, kept h.current, same)
