-- ===== src/Features/Settings/RoundTrip.antt =====
-- About a write of a setting and the read after it.
use softbox_ai.Prelude.{
  ◌≡◌, ◌∙◌, refl, ap, inl, inr, ℕ, ◌+◌, String, Option, none, some, List, [], ◌∷◌, ◌++◌, Bool, true,
  ◌==◌, find, length, length-map, length-append, opt_eq, str_eq_iff, codes, Bool-cases,
  Option-cases, ==_refl, some_inj, find-passes, arith,
}
use softbox_ai.Errors.{ok}
use softbox_ai.Ids.{Uuid, Instant}
use softbox_ai.Json.{Json}
use softbox_ai.Entities.Setting.{
  Setting, SettingScope, platform, tenant, category, product, is_trimmed, fits_scope, create,
}
use softbox_ai.UnitOfWork.{Db}
use softbox_ai.Services.SettingsResolver.{is_setting, same_scope, get}
use softbox_ai.Features.Settings.{save_setting, write_setting, upsert_setting}

opt_eq_refl : (o : Option ℕ) → opt_eq o o ≡ true
opt_eq_refl none = refl
opt_eq_refl (some a) = ==_refl a

same_scope_refl : (s : SettingScope) → same_scope s s ≡ true
same_scope_refl platform = refl
same_scope_refl tenant = refl
same_scope_refl category = refl
same_scope_refl product = refl

module _ (p : Setting → Bool) (s : Setting) (passes : p s ≡ true) where
  find-append_one : (rows : List Setting) → find p rows ≡ none → find p (rows ++ s ∷ []) ≡ some s
  find-append_one [] h = rw passes refl
  find-append_one (r ∷ rows) h = elim (Bool-cases (p r)) [
    | inl e ↦ absurd (ground (arith, rw e at h))
    | inr e ↦ rw e (find-append_one rows (rw e at h))
  ]

  find-save_setting :
      (rows : List Setting) (old : Setting)
      → old.id ≡ s.id
      → find p rows ≡ some old
      → find p (save_setting s rows) ≡ some s
  find-save_setting [] old q h = cc
  find-save_setting (r ∷ rows) old q h = elim (Bool-cases (r.id == s.id)) [
    | inl e ↦ rw (e, passes) refl
    | inr e ↦ elim (Bool-cases (p r)) [
      | inl c ↦
          let same = some_inj r old (rw c at h) in
          absurd (ground (arith, e, q, ap (λ (x : Setting). x.id) same))
      | inr c ↦ rw (e, c) (find-save_setting rows old q (rw c at h))
    ]
  ]

-- The row that `create` makes, and the row that a write over a stored one leaves.
is_setting-new :
    (t : Option Uuid) (scope : SettingScope) (scope_id : Option Uuid) (key : String) (s : Setting)
    → s.tenant_id ≡ t
    → s.scope_type ≡ scope
    → s.scope_id ≡ scope_id
    → s.key ≡ key
    → is_setting t scope scope_id key s ≡ true
is_setting-new t scope scope_id key s a b c d =
    rw
      (
        a,
        b,
        c,
        d,
        opt_eq_refl t,
        same_scope_refl scope,
        opt_eq_refl scope_id,
        (str_eq_iff key key).1 refl,
      )
      refl

abbrev pub grown : Option Setting → ℕ
grown none = 1
grown (some _) = 0

abbrev pub Written :
    (new_id : Uuid) (t : Option Uuid) (scope : SettingScope) (scope_id : Option Uuid) (key : String)
    (value : Json) (now : Instant) (db : Db)
    → Type 0
Written new_id t scope scope_id key value now db =
    (s : Setting) × (db' : Db) × (upsert_setting new_id t scope scope_id key value now db
      ≡ ok (s, db'))
    × (s.value ≡ value)
    × (get t scope scope_id key db'.settings ≡ some s)
    × (length db'.settings ≡ length db.settings + grown (get t scope scope_id key db.settings))

-- A write with a trimmed key and the ids that its scope asks for returns; the setting it returns has
-- the value written and is the one that a read under the same scope and key then finds; and the
-- table has one row more when the read found none before, and no row more when it did.
pub get-upsert_setting :
    (new_id : Uuid) (t : Option Uuid) (scope : SettingScope) (scope_id : Option Uuid) (key : String)
    (value : Json) (now : Instant) (db : Db)
    → is_trimmed (codes key) ≡ true
    → fits_scope scope t scope_id ≡ true
    → Written new_id t scope scope_id key value now db
unfolding upsert_setting write_setting create get
get-upsert_setting new_id t scope scope_id key value now db h k =
    let p = is_setting t scope scope_id key in
    elim (Option-cases (find p db.settings)) [
      | inl e ↦
          let s : Setting = record {
            id = new_id;
            tenant_id = t;
            scope_type = scope;
            scope_id = scope_id;
            key = key;
            value = value;
            created_at = now;
            updated_at = now;
          } in
          (
            s,
            record db { settings = db.settings ++ s ∷ [] },
            rw (e, h, k) refl,
            refl,
            find-append_one p s (is_setting-new t scope scope_id key s refl refl refl refl)
                db.settings e,
            rw e (length-append db.settings (s ∷ [])),
          )
      | inr (old, e) ↦
          let s : Setting = record old { value = value; updated_at = now } in
          (
            s,
            record db { settings = save_setting s db.settings },
            rw e refl,
            refl,
            find-save_setting p s (find-passes p db.settings old e) db.settings old refl e,
            rw e (length-map _ db.settings ∙ omega arith),
          )
    ]
