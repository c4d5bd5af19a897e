-- ===== src/Spec/Stats/View/Laws.antt =====
-- What a finished view says of the node's readiness and of its applications.
use jopa.Common.{
  ℕ, ◌+◌, ◌<◌, Bool, true, false, Option, none, some, List, [], ◌∷◌, ◌≡◌, ◌≢◌, refl, sym, ◌∙◌,
  subst, arith, ◌==◌, if◌then◌else◌, All,
}
use jopa.Common.Outcome.{ok, >>=-eq-ok, ok_injective}
use jopa.Spec.Stats.{AppStats, ReportView, empty_status}
use jopa.Spec.Stats.Resource.{Quantities}
use jopa.Spec.Stats.Instances.{
  count_instance_num, reset_statuses, reset_node_app_stats, translate_service_resource_quantity,
}
use jopa.Spec.Stats.View.{
  NodeView, node_online, node_uninstall, readiness, populate_node_stats, finish_view,
  populate_report, populate_all, finish_report,
}

-- The last report, sent at `time`, is younger than the timeout.
abbrev pub IsFresh : {F D : Type 0} → NodeView F D → ℕ → ℕ → Type 0
IsFresh {F} view now timeout =
    (report : ReportView F) × (time : ℕ) × (view.report ≡ some report)
    × (report.time ≡ some time)
    × (now < time + timeout)

-- No status is left in the list.
abbrev pub NoStatus : {F : Type 0} → List (AppStats F) → Type 0
NoStatus stats = All (λ stat. stat.status ≡ empty_status) stats

abbrev pub NoStatusIn : {F : Type 0} → Option (ReportView F) → Type 0
NoStatusIn none = Unit
NoStatusIn (some report) = NoStatus report.app_stats × NoStatus report.sys_app_stats

ready_of : {F : Type 0} → Option (ReportView F) → ℕ → ℕ → ℕ
unfolding readiness
ready_of none now timeout = node_uninstall
ready_of (some report) now timeout = readiness report.time now timeout

ready_of-fresh :
    {F : Type 0} (r : Option (ReportView F)) (now timeout : ℕ)
    → ready_of r now timeout ≡ node_online
    → (report : ReportView F) × (time : ℕ) × (r ≡ some report)
      × (report.time ≡ some time)
      × (now < time + timeout)
unfolding ready_of
ready_of-fresh none now timeout e = absurd (omega arith)
ready_of-fresh {F} (some report) now timeout e = go report.time refl
  where
    go :
        (t : Option ℕ)
        → report.time ≡ t
        → (report' : ReportView F) × (time : ℕ) × (some report ≡ some report')
          × (report'.time ≡ some time)
          × (now < time + timeout)
    go none p = let e' : node_uninstall ≡ node_online = rw p at e in absurd (omega arith)
    go (some time) p = (report, time, refl, p, ground arith)

ready_of_fresh :
    {F : Type 0} (r : Option (ReportView F)) (now timeout time : ℕ) (report : ReportView F)
    → r ≡ some report
    → report.time ≡ some time
    → now < time + timeout
    → ready_of r now timeout ≡ node_online
unfolding ready_of
ready_of_fresh r now timeout time report e p h = rw (e, p) (ground arith)

reset_statuses-NoStatus : {F : Type 0} (stats : List (AppStats F)) → NoStatus (reset_statuses stats)
unfolding reset_statuses
reset_statuses-NoStatus [] = tt
reset_statuses-NoStatus (stat ∷ stats) = (refl, reset_statuses-NoStatus stats)

reset_if-NoStatus :
    {F : Type 0} (b : Bool) (t : ReportView F)
    → b ≡ false
    → NoStatusIn (some (count_instance_num (if b then t else reset_node_app_stats t)))
unfolding count_instance_num reset_node_app_stats
reset_if-NoStatus true t e = cc
reset_if-NoStatus false t e =
    (reset_statuses-NoStatus t.app_stats, reset_statuses-NoStatus t.sys_app_stats)

module _ {E F D : Type 0} (q : Quantities E F) where
  populate_report-ready :
      (view view' : NodeView F D) (now timeout : ℕ) (r : Option (ReportView F))
      → populate_report q view now timeout r ≡ ok view'
      → view'.ready ≡ ready_of r now timeout
  unfolding populate_report ready_of
  populate_report-ready view view' now timeout none e = ground arith
  populate_report-ready view view' now timeout (some report) e =
      let (stats, h, e') = >>=-eq-ok (populate_all q report.node_stats) _ e in ground arith

  -- What the last part of `View` keeps of the readiness, and does to the statuses.
  abbrev Finished : NodeView F D → NodeView F D → Type 0
  Finished view view' =
      (view'.ready ≡ view.ready) × (view.ready ≢ node_online → NoStatusIn view'.report)

  finish_report-Finished :
      (view view' : NodeView F D) (r : Option (ReportView F))
      → view.report ≡ r
      → finish_report q view r ≡ ok view'
      → Finished view view'
  unfolding finish_report
  finish_report-Finished view view' none p e =
      let same : view ≡ view' = ground arith in subst (Finished view) same (refl, λ _. rw p tt)
  finish_report-Finished view view' (some report) p e =
      let (t, h, e') = >>=-eq-ok (translate_service_resource_quantity q report) _ e in
      subst (Finished view) (ok_injective e')
        (refl, λ offline. reset_if-NoStatus (view.ready == node_online) t (ground arith))

  -- A finished view shows the node as online exactly if its last report is younger than the timeout;
  -- otherwise the view shows no status of any application.
  pub finish_view_lem :
      (view view' : NodeView F D) (now timeout : ℕ)
      → finish_view q view now timeout ≡ ok view'
      → (view'.ready ≡ node_online → IsFresh view now timeout)
        × (IsFresh view now timeout → view'.ready ≡ node_online)
        × (¬ IsFresh view now timeout → NoStatusIn view'.report)
  unfolding finish_view populate_node_stats
  finish_view_lem view view' now timeout e =
      let (mid, h, e') = >>=-eq-ok (populate_report q view now timeout view.report) _ e in
      let ready = populate_report-ready view mid now timeout view.report h in
      let (kept, reset) = finish_report-Finished mid view' mid.report refl e' in
      (
        λ online. ready_of-fresh view.report now timeout (sym ready ∙ sym kept ∙ online),
        λ (report, time, p, t, lt).
            kept ∙ ready ∙ ready_of_fresh view.report now timeout time report p t lt,
        λ stale.
            reset (λ online. stale (ready_of-fresh view.report now timeout (sym ready ∙ online))),
      )
