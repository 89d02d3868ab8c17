-- ===== src/Dispatch/Restore.antt =====
-- What a complete element leaves of the stack of handlers.
use jreen.Base.{
  ℕ, suc, Bool, Option, none, some, List, [], ◌∷◌, ◌++◌, Text, length, take-append, append_assoc,
  append-nil, ◌≡◌, refl, ap, ◌∙◌, sym,
}
use jreen.Dispatch.{
  Reader, Event, start, end, characters, Report, handle, handle_all, handle_start, handle_end,
  end_at, ended_at, end_from, choose_parsers, prepend, and_then,
}

-- Well-formed XML: texts and elements, each with its content and what follows it.
pub data Forest (E : Type 0) : Type 0 where
  empty : Forest E
  text : Text → Forest E → Forest E
  element : E → Forest E → Forest E → Forest E

module _ (E : Type 0) (is_features : E → Bool) (stanzas_for features_for : E → List ℕ) where
  abbrev pub events : Forest E → List (Event E is_features stanzas_for features_for)
  events empty = []
  events (text t rest) = characters t ∷ events rest
  events (element e content rest) = start e ∷ (events content ++ end e ∷ events rest)

  abbrev pub Reports : Type 0
  Reports = List (Report E is_features stanzas_for features_for)

  abbrev Outcome : Type 0
  Outcome = Option (Reader × Reports)

  -- `handle_all` on a document and more behind it goes on from `after` when the document is over.
  pub record Restores (f : Forest E) (before : Reader) : Type 0 where
    pub after : Reader
    pub reports : Reports
    pub depth : after.depth ≡ before.depth
    pub parsers : after.parsers ≡ before.parsers
    pub parsers_count : after.parsers_count ≡ before.parsers_count
    pub goes_on :
        (more : List (Event E is_features stanzas_for features_for))
        → handle_all E is_features stanzas_for features_for (events f ++ more) before
          ≡ prepend E is_features stanzas_for features_for reports
              (handle_all E is_features stanzas_for features_for more after)

  prepend-nil : (o : Outcome) → o ≡ prepend E is_features stanzas_for features_for [] o
  prepend-nil none = refl
  prepend-nil (some (r, a)) = refl

  prepend-append :
      (a b : Reports) (o : Outcome)
      → prepend E is_features stanzas_for features_for a
          (prepend E is_features stanzas_for features_for b o)
        ≡ prepend E is_features stanzas_for features_for (a ++ b) o
  prepend-append a b none = refl
  prepend-append a b (some (r, c)) = rw (append_assoc a b c) refl

  -- The end of an element whose content has left the handlers as its start put them.
  record Ends (e : E) (inner before : Reader) : Type 0 where
    after : Reader
    reports : Reports
    ends : handle_end E is_features stanzas_for features_for e inner ≡ some (after, reports)
    depth : after.depth ≡ before.depth
    parsers : after.parsers ≡ before.parsers
    parsers_count : after.parsers_count ≡ before.parsers_count

  end_lem :
      (e : E) (inner before : Reader) (more : List ℕ)
      → inner.depth ≡ suc before.depth
      → inner.parsers ≡ before.parsers ++ more
      → inner.parsers_count ≡ length before.parsers ∷ before.parsers_count
      → Ends e inner before
  unfolding handle_end end_from end_at
  end_lem e inner before more d p c =
      let (after, reports) =
        ended_at E is_features stanzas_for features_for before.depth e (length before.parsers)
          before.parsers_count inner in
      record {
        after = after;
        reports = reports;
        ends = rw (d, c) refl;
        depth = refl;
        parsers = rw (p) (take-append (length before.parsers) before.parsers more refl);
        parsers_count = refl;
      }

  end_step :
      (e : E) (more : List (Event E is_features stanzas_for features_for)) (r s : Reader)
      (a : Reports)
      → handle_end E is_features stanzas_for features_for e r ≡ some (s, a)
      → handle_all E is_features stanzas_for features_for (end e ∷ more) r
        ≡ prepend E is_features stanzas_for features_for a
            (handle_all E is_features stanzas_for features_for more s)
  unfolding handle_all handle
  end_step e more r s a p =
      ap
        (and_then E is_features stanzas_for features_for
          (handle_all E is_features stanzas_for features_for more))
        p

  restores : (f : Forest E) (r : Reader) → Restores f r
  unfolding handle_all handle handle_start
  restores empty r = record {
    after = r;
    reports = [];
    depth = refl;
    parsers = refl;
    parsers_count = refl;
    goes_on = λ more. prepend-nil (handle_all E is_features stanzas_for features_for more r);
  }
  restores (text t rest) r =
      let p = restores rest r in
      record {
        after = p.after;
        reports = _ ++ p.reports;
        depth = p.depth;
        parsers = p.parsers;
        parsers_count = p.parsers_count;
        goes_on = λ more.
            ap (prepend E is_features stanzas_for features_for _) (p.goes_on more)
            ∙ prepend-append _ p.reports _;
      }
  restores (element e content rest) r =
      let (begun, told) = handle_start E is_features stanzas_for features_for e r in
      let p = restores content begun in
      let q =
        end_lem e p.after r ((choose_parsers E is_features stanzas_for features_for e r).1) p.depth
          p.parsers p.parsers_count in
      let o = restores rest q.after in
      record {
        after = o.after;
        reports = told ++ (p.reports ++ (q.reports ++ o.reports));
        depth = o.depth ∙ q.depth;
        parsers = o.parsers ∙ q.parsers;
        parsers_count = o.parsers_count ∙ q.parsers_count;
        goes_on = λ more. rw (append_assoc (events content) (end e ∷ events rest) more) (
            ap (prepend E is_features stanzas_for features_for told) (
              p.goes_on (end e ∷ (events rest ++ more))
              ∙ ap (prepend E is_features stanzas_for features_for p.reports) (
                  end_step e (events rest ++ more) p.after q.after q.reports q.ends
                  ∙ ap (prepend E is_features stanzas_for features_for q.reports) (o.goes_on more)
                  ∙ prepend-append q.reports o.reports _)
              ∙ prepend-append p.reports (q.reports ++ o.reports) _)
            ∙ prepend-append told (p.reports ++ (q.reports ++ o.reports)) _);
      }

  -- Whatever element, text or sequence of them the parser reads, however deeply nested, no pop of
  -- the stack fails, and afterwards the depth, the handlers and the stack are what they were
  -- before.
  pub handle_all-restores :
      (f : Forest E) (before : Reader)
      → (after : Reader) × (reports : Reports) × (handle_all E is_features stanzas_for features_for
            (events f)
            before
          ≡ some (after, reports))
        × (after.depth ≡ before.depth)
        × (after.parsers ≡ before.parsers)
        × (after.parsers_count ≡ before.parsers_count)
  unfolding handle_all
  handle_all-restores f before =
      let p = restores f before in
      (
        p.after,
        p.reports,
        sym (
              ap (λ vs. handle_all E is_features stanzas_for features_for vs before)
                (append-nil (events f)))
            ∙ p.goes_on []
            ∙ ap (λ a. some (p.after, a)) (append-nil p.reports),
        p.depth,
        p.parsers,
        p.parsers_count,
      )
