-- ===== src/TaskQueue/Reap.antt =====
-- About `reap_stuck`, the sweep over the jobs that stay running too long.
use softbox_ai.Prelude.{
  ◌≡◌, ◌≢◌, ◌⊎◌, inl, inr, none, List, [], ◌∷◌, Bool, true, false, filter, map, length, All,
  All-of_In, All-map, In, In-map, In-filter, In-filter_of, length-map, Option-cases, Bool-cases,
  refl, ◌∙◌, subst, arith, ◌==◌, if◌then◌else◌,
}
use softbox_ai.Errors.{ok}
use softbox_ai.Ids.{Uuid, Instant}
use softbox_ai.Table.{get, save}
use softbox_ai.Table.Laws.{key-get, get-save-ne-none, get-save_ne, get_of_In}
use softbox_ai.Services.TaskBackoff.{Jitter}
use softbox_ai.TaskQueue.Store.{
  TaskQueueJob, Jobs, job_row, failed_once, fail, fail_all, reap_stuck, is_stuck, stuck_error,
}

module _ (t : Uuid) (before now : Instant) (draws : Uuid → Jitter) where
  abbrev pub stuck_ids : Jobs → List Uuid
  stuck_ids jobs = map (λ j. j.id) (filter (is_stuck t before) jobs)

  abbrev IsPresent : List Uuid → Jobs → Type 0
  IsPresent ids jobs = All (λ i. get t i jobs ≢ none) ids

  abbrev OnlyStuck : List Uuid → Jobs → Type 0
  OnlyStuck ids jobs = All (λ j. (is_stuck t before j ≡ false) ⊎ In j.id ids) jobs

  IsPresent-save :
      (ids : List Uuid) (jobs : Jobs) (x : TaskQueueJob)
      → x.tenant_id ≡ t
      → IsPresent ids jobs
      → IsPresent ids (save x jobs)
  IsPresent-save [] jobs x e p = tt
  IsPresent-save (i ∷ ids) jobs x e p =
      (get-save-ne-none t i jobs x e p.0, IsPresent-save ids jobs x e p.1)

  keep :
      (i : Uuid) (ids : List Uuid) (j x : TaskQueueJob) (b : Bool)
      → (j.id == x.id) ≡ b
      → x.id ≡ i
      → is_stuck t before x ≡ false
      → (is_stuck t before j ≡ false) ⊎ ((j.id ≡ i) ⊎ In j.id ids)
      → (is_stuck t before (if b then x else j) ≡ false) ⊎ In (if b then x else j).id ids
  keep i ids j x true c e q h = inl q
  keep i ids j x false c e q (inl h) = inl h
  keep i ids j x false c e q (inr (inl h)) = absurd (ground arith)
  keep i ids j x false c e q (inr (inr h)) = inr h

  OnlyStuck-save :
      (i : Uuid) (ids : List Uuid) (jobs : Jobs) (x : TaskQueueJob)
      → x.id ≡ i
      → is_stuck t before x ≡ false
      → OnlyStuck (i ∷ ids) jobs
      → OnlyStuck ids (save x jobs)
  OnlyStuck-save i ids [] x e q p = tt
  OnlyStuck-save i ids (j ∷ jobs) x e q p =
      (keep i ids j x (j.id == x.id) refl e q p.0, OnlyStuck-save i ids jobs x e q p.1)

  not_stuck :
      (j : TaskQueueJob) → is_stuck t before (failed_once stuck_error now (draws j.id) j) ≡ false
  not_stuck j = ground arith

  -- The state after the loop: nobody is stuck, and rows that were not stuck are as they were.
  abbrev pub Reaped : List Uuid → Jobs → Jobs → Type 0
  Reaped ids jobs jobs' =
      All (λ j. is_stuck t before j ≡ false) jobs'
      × ((t' i : Uuid) → In i ids ⊎ (get t' i jobs' ≡ get t' i jobs))

  nobody : (jobs : Jobs) → OnlyStuck [] jobs → All (λ j. is_stuck t before j ≡ false) jobs
  nobody [] s = tt
  nobody (j ∷ jobs) (inl e, s) = (e, nobody jobs s)
  nobody (j ∷ jobs) (inr h, s) = absurd h

  untouched :
      (i : Uuid) (ids : List Uuid) (jobs jobs' : Jobs) (x : TaskQueueJob)
      → x.id ≡ i
      → (t' i' : Uuid) → In i' ids ⊎ (get t' i' jobs' ≡ get t' i' (save x jobs))
      → In i' (i ∷ ids) ⊎ (get t' i' jobs' ≡ get t' i' jobs)
  untouched i ids jobs jobs' x e t' i' (inl h) = inl (inr h)
  untouched i ids jobs jobs' x e t' i' (inr p) = elim (Bool-cases (i' == i)) [
    | inl same ↦ inl (inl (ground arith))
    | inr ne ↦ inr (p ∙ get-save_ne t' i' jobs x (ground arith))
  ]

  fail_all_lem :
      (ids : List Uuid) (jobs : Jobs)
      → IsPresent ids jobs
      → OnlyStuck ids jobs
      → (jobs' : Jobs) × (fail_all t ids now draws jobs ≡ ok jobs') × Reaped ids jobs jobs'
  unfolding fail_all
  fail_all_lem [] jobs p s = (jobs, refl, (nobody jobs s, λ t' i. inr refl))
  fail_all_lem (i ∷ ids) jobs p s = elim (Option-cases (get t i jobs)) [
    | inl e ↦ absurd (p.0 e)
    | inr (j, e) ↦
        let k = key-get t i jobs j e in
        let x = failed_once stuck_error now (draws i) j in
        let id_x : x.id ≡ i = ground arith in
        let tenant_x : x.tenant_id ≡ t = ground arith in
        let (jobs', r, (a, u)) =
          fail_all_lem ids (save x jobs) (IsPresent-save ids jobs x tenant_x p.1)
            (OnlyStuck-save i ids jobs x id_x (ground arith) s) in
        (jobs', rw (e, fail) r, (a, λ t' i'. untouched i ids jobs jobs' x id_x t' i' (u t' i')))
  ]

  stuck_ids-OnlyStuck : (jobs : Jobs) → OnlyStuck (stuck_ids jobs) jobs
  stuck_ids-OnlyStuck jobs = All-of_In _ jobs λ j h. elim (Bool-cases (is_stuck t before j)) [
    | inl e ↦ inr (In-map (λ j. j.id) j _ (In-filter_of (is_stuck t before) j jobs h e))
    | inr e ↦ inl e
  ]

  stuck_ids-IsPresent : (jobs : Jobs) → IsPresent (stuck_ids jobs) jobs
  stuck_ids-IsPresent jobs =
      All-map _ (λ (j : TaskQueueJob). j.id) _
        (All-of_In _ _ λ j h.
          let (found, stuck) = In-filter (is_stuck t before) j jobs h in
          let e : j.tenant_id ≡ t = ground arith in
          subst (λ u. get u j.id jobs ≢ none) e (get_of_In j.id jobs j found refl))

  -- A sweep never raises. It counts the stuck jobs, leaves none of the tenant's jobs running since
  -- before the threshold, and touches no row whose id is not that of a stuck job.
  pub reap_stuck_lem :
      (jobs : Jobs)
      → (jobs' : Jobs) × (reap_stuck t before now draws jobs
          ≡ ok (length (filter (is_stuck t before) jobs), jobs'))
        × Reaped (stuck_ids jobs) jobs jobs'
  unfolding reap_stuck
  reap_stuck_lem jobs =
      let (jobs', r, a) =
        fail_all_lem (stuck_ids jobs) jobs (stuck_ids-IsPresent jobs) (stuck_ids-OnlyStuck jobs) in
      (jobs', rw (r, fail_all) (rw length-map), a)
