-- ===== src/Services/QcRetryLadder.antt =====
-- src/app/services/qc_retry_ladder.py: what a failed QC tries next.
pub mod Bounds
use softbox_ai.Prelude.{
  ℕ, ◌+◌, Option, none, some, List, [], ◌∷◌, Bool, true, false, not, ◌&&◌, ◌==◌, filter, max_by,
  if◌then◌else◌,
}
use softbox_ai.Errors.{Result, ok, err, empty_max, require, ◌>>=◌}
use softbox_ai.Ids.{Uuid}
use softbox_ai.Entities.GenerationItem.{GenerationItem}
use softbox_ai.Entities.CatalogTemplate.{CatalogTemplate, is_analysed}

pub record RetryRung : Type 0 where
  pub attempt_no : ℕ
  pub template_id : Uuid
  pub reuse_prompt : Bool

-- The comprehension's test: another template, and an analysed one.
abbrev pub is_candidate : GenerationItem → CatalogTemplate → Bool
is_candidate latest t = not (t.id == latest.template_id) && is_analysed t.status

-- `candidates[0]`, if there is one.
abbrev pub first_candidate : GenerationItem → List CatalogTemplate → Option RetryRung
first_candidate latest [] = none
first_candidate latest (t ∷ ts) =
    some (record { attempt_no = latest.attempt_no + 1; template_id = t.id; reuse_prompt = false })

abbrev pub rung_after : GenerationItem → List CatalogTemplate → Option RetryRung
rung_after latest templates =
    if latest.attempt_no == 1
    then some (record {
      attempt_no = latest.attempt_no + 1;
      template_id = latest.template_id;
      reuse_prompt = true;
    })
    else if latest.attempt_no == 2
    then first_candidate latest (filter (is_candidate latest) templates)
    else none

-- `max()` of no attempts raises.
unfoldable pub next_rung : List GenerationItem → List CatalogTemplate → Result (Option RetryRung)
next_rung attempts templates = do
  latest ←
      require (max_by (λ i. i.attempt_no) attempts) (empty_max "max() arg is an empty sequence")
  ok (rung_after latest templates)
