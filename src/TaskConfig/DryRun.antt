-- ===== src/TaskConfig/DryRun.antt =====
-- What a dry run of the post writes, and what it announces.
use debusine.Prelude.{ℕ, Bool, true, false, List, [], ◌≡◌, subst, sym, ap, ◌∙◌}
use debusine.TaskConfig.Items.{DebusineTaskConfiguration}
use debusine.TaskConfig.Templates.{ChildItem}
use debusine.TaskConfig.View.{
  SortKey, ComparableItem, ConfigCollection, Submitted, Response, done, failed, UpdateResults, post,
  results, diff_items, remove_names, Update, updated_rows, not_updated,
}
use debusine.TaskConfig.Agreement.{IsUpdate, post-IsUpdate}
use debusine.TaskConfig.Additions.{update_each-rows, update_each-dry, count_updated}

module _ {V : Type 0} where
  -- What a response tells of the update, if it is done.
  abbrev pub Announces : UpdateResults → Response V → Type 0
  Announces r (failed e) = Unit {0}
  Announces r (done after s) = r ≡ s

  rows_in : Update V → List (ChildItem V)
  rows_in (updated_rows _ rows) = rows
  rows_in (not_updated _) = []

  count_in : Update V → ℕ
  count_in (updated_rows n _) = n
  count_in (not_updated _) = 0

  module _ (less_key : SortKey V → SortKey V → Bool)
      (same_model : DebusineTaskConfiguration V → DebusineTaskConfiguration V → Bool)
      (submitted : Submitted V) (before : ConfigCollection V) where
    -- The counts of the comparison.
    counted : UpdateResults
    counted =
        let d = diff_items less_key same_model before.child_items submitted.items in
        results less_key same_model d (count_updated d.removed d.added)

    dry-counted :
        (after : ConfigCollection V) (r : UpdateResults)
        → IsUpdate less_key same_model true submitted before (done after r)
        → (after.child_items ≡ before.child_items) × (r ≡ counted)
    unfolding rows_in count_in counted
    dry-counted after r (n, e, s, c) =
        let d = diff_items less_key same_model before.child_items submitted.items in
        let loop = sym e ∙ update_each-dry d.removed d.added before.child_items in
        (ap rows_in loop, s ∙ ap (results less_key same_model d) (ap count_in loop))

    real-counted :
        (o : Response V)
        → IsUpdate less_key same_model false submitted before o
        → Announces counted o
    unfolding counted
    real-counted (failed e) h = tt
    real-counted (done after r) (n, e, s, c) =
        let d = diff_items less_key same_model before.child_items submitted.items in
        let loop =
          update_each-rows d.removed d.added (remove_names d.removed before.child_items)
            after.child_items n e in
        sym (s ∙ ap (results less_key same_model d) (loop.1))

    -- A dry run of a post that is done leaves every row as it was, saves the git commit that was
    -- submitted, and answers with the same counts as the run that is not dry, if that is done.
    pub post-dry_run :
        (compares : List (ComparableItem V) → List (ComparableItem V) → Bool)
        (after : ConfigCollection V) (r : UpdateResults)
        → post less_key same_model compares true submitted before ≡ done after r
        → (after.child_items ≡ before.child_items)
          × (after.git_commit ≡ submitted.git_commit)
          × Announces r (post less_key same_model compares false submitted before)
    post-dry_run compares after r h =
        let update =
          subst (IsUpdate less_key same_model true submitted before) h
            (post-IsUpdate less_key same_model compares true submitted before) in
        let dry = dry-counted after r update in
        (
          dry.0,
          update.3,
          subst (λ s. Announces s (post less_key same_model compares false submitted before))
              (sym (dry.1))
              (real-counted (post less_key same_model compares false submitted before)
                (post-IsUpdate less_key same_model compares false submitted before)),
        )
