-- ===== src/Services/QcRetryLadder/Bounds.antt =====
-- About the number and the template of the rung that the ladder gives.
use softbox_ai.Prelude.{
  ◌+◌, ◌≤◌, ◌<◌, ◌≡◌, ◌≢◌, ◌⊎◌, inl, inr, Option, none, some, List, [], ◌∷◌, Bool, true, false,
  filter, All, In, In-filter, In-max_by, max_by-ge, max_by, larger, Bool-cases, arith, refl, ◌==◌,
}
use softbox_ai.Errors.{ok}
use softbox_ai.Entities.GenerationItem.{GenerationItem}
use softbox_ai.Entities.CatalogTemplate.{CatalogTemplate, is_analysed}
use softbox_ai.Services.QcRetryLadder.{
  RetryRung, is_candidate, first_candidate, rung_after, next_rung,
}

-- The template of a rung: the latest attempt's own with its prompt reused, or another template of
-- the slot, analysed, with its prompt composed anew.
abbrev pub TemplateOf : GenerationItem → List CatalogTemplate → RetryRung → Bool → Type 0
TemplateOf latest templates r true = (latest.attempt_no ≡ 1) × (r.template_id ≡ latest.template_id)
TemplateOf latest templates r false =
    (latest.attempt_no ≡ 2)
    × (t : CatalogTemplate) × In t templates
    × (r.template_id ≡ t.id)
    × (t.id ≢ latest.template_id)
    × (is_analysed t.status ≡ true)

-- The next step after the latest attempt. No rung: the ladder is exhausted after two attempts, or
-- the second has no other analysed template.
abbrev pub Rung :
    List GenerationItem → List CatalogTemplate → GenerationItem → Option RetryRung → Type 0
Rung attempts templates latest none =
    (latest.attempt_no ≢ 1)
    × ((latest.attempt_no ≢ 2) ⊎ (filter (is_candidate latest) templates ≡ []))
Rung attempts templates latest (some r) =
    (r.attempt_no ≡ latest.attempt_no + 1)
    × (r.attempt_no ≤ 3)
    × All (λ i. i.attempt_no < r.attempt_no) attempts
    × TemplateOf latest templates r r.reuse_prompt

newer :
    (latest : GenerationItem) (attempts : List GenerationItem)
    → All (λ i. i.attempt_no ≤ latest.attempt_no) attempts
    → All (λ i. i.attempt_no < latest.attempt_no + 1) attempts
newer latest [] a = tt
newer latest (x ∷ xs) a = (omega arith, newer latest xs a.1)

second :
    (attempts : List GenerationItem) (templates : List CatalogTemplate) (latest : GenerationItem)
    (cs : List CatalogTemplate)
    → All (λ i. i.attempt_no ≤ latest.attempt_no) attempts
    → latest.attempt_no ≡ 2
    → filter (is_candidate latest) templates ≡ cs
    → Rung attempts templates latest (first_candidate latest cs)
second attempts templates latest [] a e p = (omega arith, inr p)
second attempts templates latest (t ∷ cs) a e p =
    let (found, fits) = In-filter (is_candidate latest) t templates (rw p (inl refl)) in
    (refl, omega arith, newer latest attempts a, (e, t, found, refl, ground arith, ground arith))

rung_after-Rung :
    (attempts : List GenerationItem) (templates : List CatalogTemplate) (latest : GenerationItem)
    → All (λ i. i.attempt_no ≤ latest.attempt_no) attempts
    → Rung attempts templates latest (rung_after latest templates)
rung_after-Rung attempts templates latest a = elim (Bool-cases (latest.attempt_no == 1)) [
  | inl e ↦ rw e (refl, ground arith, newer latest attempts a, (ground arith, refl))
  | inr e ↦ rw e (elim (Bool-cases (latest.attempt_no == 2)) [
    | inl d ↦ rw d (second attempts templates latest _ a (ground arith) refl)
    | inr d ↦ rw d (ground arith, inl (ground arith))
  ])
]

-- With at least one attempt made the ladder always answers, whatever the templates. It works from a
-- latest attempt: the rung that it gives is numbered one above it, at most 3, above every attempt
-- already made, and keeps the template and prompt only after attempt 1; after attempt 2 it takes
-- another analysed template. It gives no rung only past attempt 2, at 2 with no such template, or
-- at a number below 1.
pub next_rung_lem :
    (attempt : GenerationItem) (attempts : List GenerationItem) (templates : List CatalogTemplate)
    → (latest : GenerationItem) × (o : Option RetryRung) × (next_rung (attempt ∷ attempts) templates
        ≡ ok o)
      × In latest (attempt ∷ attempts)
      × All (λ i. i.attempt_no ≤ latest.attempt_no) (attempt ∷ attempts)
      × Rung (attempt ∷ attempts) templates latest o
unfolding next_rung
next_rung_lem attempt attempts templates =
    let latest = larger (λ i. i.attempt_no) attempt (max_by (λ i. i.attempt_no) attempts) in
    let a = max_by-ge (λ i. i.attempt_no) (attempt ∷ attempts) latest refl in
    (
      latest,
      rung_after latest templates,
      refl,
      In-max_by (λ i. i.attempt_no) (attempt ∷ attempts) latest refl,
      a,
      rung_after-Rung (attempt ∷ attempts) templates latest a,
    )
