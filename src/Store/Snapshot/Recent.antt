-- ===== src/Store/Snapshot/Recent.antt =====
-- The records of a snapshot are the most recent ones, crates/atelia-core/src/store.rs.
use atelia_secretary.Store.Query.Walk.{take-drop}
use mathlib.Core.List.{Perm}
use mathlib.Core.List.Perm
use atelia_secretary.Base.{
  zero, suc, refl, min, sym, ◌⊎◌, ◌<◌, ltb, ltb→lt, string_ord, string_lt_asym, String, ℕ, ◌≡◌,
  true, false, ◌==◌, List, [], ◌∷◌, ◌++◌, arith, ok, take, drop, length, values, select, Bool-cases,
  inl, inr, >>=-eq-ok, string_eq,
}
use atelia_secretary.Domain.Time.{LedgerTimestamp}
use atelia_secretary.Domain.Ids.{RepositoryId}
use atelia_secretary.Domain.Job.{JobRecord}
use atelia_secretary.Domain.Policy.{PolicyDecision}
use atelia_secretary.Store.State.{InMemoryInner}
use atelia_secretary.Store.Snapshot.{
  ProjectStatusSnapshot, goes_before, insert_sorted, sort_recent, recent_jobs_of,
  recent_policy_decisions_of, project_status_snapshot,
}

module _ {R : Type 0} (time : R → LedgerTimestamp) (id : R → String) where
  -- The first of two records is later, or as late with an identifier that is not the smaller one.
  abbrev pub IsNoEarlier : R → R → Type 0
  IsNoEarlier r s = (time s < time r) ⊎ ((time s ≡ time r) × (string_ord.lt (id r) (id s) ≡ false))

  -- Along a list times fall, and identifiers where the times are the same.
  abbrev pub IsRecentFirst : List R → Type 0
  IsRecentFirst [] = Unit
  IsRecentFirst (r ∷ []) = Unit
  IsRecentFirst (r ∷ s ∷ rs) = IsNoEarlier r s × IsRecentFirst (s ∷ rs)

  -- The first of a list of records that are sorted, as many as a limit allows.
  pub record AreMostRecent (limit : ℕ) (candidates chosen : List R) : Type 0 where
    pub rest : List R
    pub all : Perm (chosen ++ rest) candidates
    pub sorted : IsRecentFirst (chosen ++ rest)
    pub many : length chosen ≡ min limit (length candidates)

  rest_sorted : (s : R) (rs : List R) → IsRecentFirst (s ∷ rs) → IsRecentFirst rs
  rest_sorted s [] h = tt
  rest_sorted s (t ∷ rs) (first, h) = h

  goes_before-IsNoEarlier : (r s : R) → goes_before time id r s ≡ true → IsNoEarlier r s
  unfolding goes_before
  goes_before-IsNoEarlier r s h = elim (Bool-cases (ltb (time s) (time r))) [
    | inl later ↦ inl (ltb→lt (time s) (time r) later)
    | inr no_later ↦
        let same : time r ≡ time s = ground (arith, h, no_later) in
        let greater : string_ord.lt (id s) (id r) ≡ true = ground (arith, h, no_later) in
        inr (sym same, string_lt_asym (id s) (id r) greater)
  ]

  not_before-IsNoEarlier : (r s : R) → goes_before time id r s ≡ false → IsNoEarlier s r
  unfolding goes_before
  not_before-IsNoEarlier r s h = elim (Bool-cases (ltb (time r) (time s))) [
    | inl later ↦ inl (ltb→lt (time r) (time s) later)
    | inr no_later ↦
        let same : time r ≡ time s = ground (arith, h, no_later) in
        inr (same, ground (arith, h, no_later, same))
  ]

  insert_sorted-after :
      (r s : R) (rs : List R)
      → IsNoEarlier s r
      → IsRecentFirst (s ∷ rs)
      → IsRecentFirst (insert_sorted time id r rs)
      → IsRecentFirst (s ∷ insert_sorted time id r rs)
  unfolding insert_sorted
  insert_sorted-after r s [] later h k = (later, tt)
  insert_sorted-after r s (t ∷ rs) later (first, h) k =
      elim (Bool-cases (goes_before time id t r)) [
        | inl before ↦ rw (before, insert_sorted) (first, rw (before, insert_sorted) at k)
        | inr not_before ↦
            rw (not_before, insert_sorted) (later, rw (not_before, insert_sorted) at k)
      ]

  insert_sorted-IsRecentFirst :
      (r : R) (rs : List R) → IsRecentFirst rs → IsRecentFirst (insert_sorted time id r rs)
  unfolding insert_sorted
  insert_sorted-IsRecentFirst r [] h = tt
  insert_sorted-IsRecentFirst r (s ∷ rs) h = elim (Bool-cases (goes_before time id s r)) [
    | inl before ↦
        rw (before, insert_sorted)
          (insert_sorted-after r s rs (goes_before-IsNoEarlier s r before) h
            (insert_sorted-IsRecentFirst r rs (rest_sorted s rs h)))
    | inr not_before ↦ rw (not_before, insert_sorted) (not_before-IsNoEarlier s r not_before, h)
  ]

  insert_sorted-Perm : (r : R) (rs : List R) → Perm (insert_sorted time id r rs) (r ∷ rs)
  unfolding insert_sorted
  insert_sorted-Perm r [] = Perm.rfl
  insert_sorted-Perm r (s ∷ rs) = elim (Bool-cases (goes_before time id s r)) [
    | inl before ↦
        rw (before, insert_sorted)
          (Perm.trans (Perm.cons s (insert_sorted-Perm r rs)) (Perm.swap r s rs))
    | inr not_before ↦ rw (not_before, insert_sorted) Perm.rfl
  ]

  sort_recent-IsRecentFirst : (rs : List R) → IsRecentFirst (sort_recent time id rs)
  unfolding sort_recent
  sort_recent-IsRecentFirst [] = tt
  sort_recent-IsRecentFirst (r ∷ rs) =
      insert_sorted-IsRecentFirst r (sort_recent time id rs) (sort_recent-IsRecentFirst rs)

  sort_recent-Perm : (rs : List R) → Perm (sort_recent time id rs) rs
  unfolding sort_recent
  sort_recent-Perm [] = Perm.rfl
  sort_recent-Perm (r ∷ rs) =
      Perm.trans (insert_sorted-Perm r (sort_recent time id rs)) (Perm.cons r (sort_recent-Perm rs))

  length-take-min : (n : ℕ) (rs : List R) → length (take n rs) ≡ min n (length rs)
  length-take-min zero rs = omega arith
  length-take-min (suc n) [] = omega arith
  length-take-min (suc n) (r ∷ rs) = omega (arith, length-take-min n rs)

  length-insert_sorted :
      (r : R) (rs : List R) → length (insert_sorted time id r rs) ≡ suc (length rs)
  unfolding insert_sorted
  length-insert_sorted r [] = refl
  length-insert_sorted r (s ∷ rs) = ground (arith, length-insert_sorted r rs)

  length-sort_recent : (rs : List R) → length (sort_recent time id rs) ≡ length rs
  unfolding sort_recent
  length-sort_recent [] = refl
  length-sort_recent (r ∷ rs) =
      omega (arith, length-insert_sorted r (sort_recent time id rs), length-sort_recent rs)

  take-AreMostRecent :
      (limit : ℕ) (candidates : List R)
      → AreMostRecent limit candidates (take limit (sort_recent time id candidates))
  take-AreMostRecent limit candidates =
      let whole = take-drop limit (sort_recent time id candidates) in
      record {
        rest = drop limit (sort_recent time id candidates);
        all = rw whole (sort_recent-Perm candidates);
        sorted = rw whole (sort_recent-IsRecentFirst candidates);
        many =
            rw (← length-sort_recent candidates)
              (length-take-min limit (sort_recent time id candidates));
      }

module _ (inner : InMemoryInner) (repository_id : RepositoryId) (job_limit decision_limit : ℕ) where
  -- A snapshot of a repository shows the most recent of its jobs, by the time of their update, and of
  -- its policy decisions, by their creation: as many as asked for or as there are, and together
  -- with the ones left out they are all that the store has of the repository, sorted from the
  -- latest, and from the greatest identifier at the same time.
  pub project_status_snapshot-AreMostRecent :
      (s : ProjectStatusSnapshot)
      → project_status_snapshot inner repository_id job_limit decision_limit ≡ ok s
      → AreMostRecent
          (λ (j : JobRecord). j.updated_at)
          (λ (j : JobRecord). j.id)
          job_limit
          (select (λ (j : JobRecord). j.repository_id == repository_id) (values inner.jobs))
          s.recent_jobs
        × AreMostRecent
            (λ (d : PolicyDecision). d.created_at)
            (λ (d : PolicyDecision). d.id)
            decision_limit
            (select
              (λ (d : PolicyDecision). d.repository_id == repository_id)
              (values inner.policy_decisions))
            s.recent_policy_decisions
  unfolding project_status_snapshot
  project_status_snapshot-AreMostRecent s h =
      let (event, found, e) = >>=-eq-ok _ _ h in
      let jobs : take job_limit (recent_jobs_of inner repository_id) ≡ s.recent_jobs = cc e in
      let decisions : take decision_limit (recent_policy_decisions_of inner repository_id)
          ≡ s.recent_policy_decisions =
        cc e in
      (
        rw (← jobs) (take-AreMostRecent _ (λ (j : JobRecord). j.id) job_limit _),
        rw (← decisions) (take-AreMostRecent _ (λ (d : PolicyDecision). d.id) decision_limit _),
      )
