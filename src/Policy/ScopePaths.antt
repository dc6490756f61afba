-- ===== src/Policy/ScopePaths.antt =====
-- `evaluate_scope`: what each verdict says of the changed paths.
use blindspot_remediation.Prelude.{
  String, Bool, true, false, not, ◌&&◌, List, [], ◌∷◌, any, all, keep, mem, ◌≡◌, refl, ◌↔◌, ◌∙◌, ap,
  arith, is_empty-keep, any-from_keys, from_keys, is_empty, sorted_set,
}
use blindspot_remediation.Config.{Scope}
use blindspot_remediation.Policy.{Verdict, Matcher, scope_reasons, evaluate_scope}

scope_reasons-mem :
    (forbidden outside review : Bool)
    → let codes = scope_reasons forbidden outside review in
      (mem "PATH_FORBIDDEN" codes ≡ forbidden)
      × (mem "PATH_OUTSIDE_ALLOWED" codes ≡ outside)
      × (mem "PATH_REVIEW_REQUIRED" codes ≡ review)
unfolding sorted_set
scope_reasons-mem false false false = (refl, refl, refl)
scope_reasons-mem false false true = (refl, refl, refl)
scope_reasons-mem false true false = (refl, refl, refl)
scope_reasons-mem false true true = (refl, refl, refl)
scope_reasons-mem true false false = (refl, refl, refl)
scope_reasons-mem true false true = (refl, refl, refl)
scope_reasons-mem true true false = (refl, refl, refl)
scope_reasons-mem true true true = (refl, refl, refl)

not-not : (b c : Bool) → c ≡ not b → not c ≡ b
not-not b c h = ground arith

module _ (match_file : Matcher) (scope : Scope) where
  abbrev pub allowed : String → Bool
  allowed = match_file scope.allowed_paths

  abbrev pub forbidden : String → Bool
  forbidden = match_file scope.forbidden_paths

  abbrev pub review_required : String → Bool
  review_required = match_file scope.review_required_paths

  -- A filter of the deduplicated paths is empty when no changed path is caught by it.
  empty-keep_keys :
      (p : String → Bool) (paths : List String)
      → is_empty (keep p (from_keys paths)) ≡ not (any p paths)
  empty-keep_keys p paths = is_empty-keep p (from_keys paths) ∙ ap not (any-from_keys p paths)

  -- Every path is allowed, not forbidden and needs no review.
  abbrev pub clean : String → Bool
  clean path = allowed path && (not (forbidden path) && not (review_required path))

  clean-any :
      (paths : List String)
      → all clean paths ≡ (
          not (any (λ p. not (allowed p)) paths)
          && (not (any forbidden paths) && not (any review_required paths)))
  clean-any [] = refl
  clean-any (p ∷ paths) = ground (arith, clean-any paths)

  -- The scope passes exactly when every changed path is allowed, is not forbidden and needs no
  -- review.
  pub evaluate_scope-pass :
      (paths : List String)
      → ((evaluate_scope match_file scope paths).verdict ≡ Verdict.pass) ↔ (all clean paths ≡ true)
  unfolding evaluate_scope
  evaluate_scope-pass paths = ground (
    arith,
    clean-any paths,
    empty-keep_keys (λ p. not (allowed p)) paths,
    empty-keep_keys forbidden paths,
    empty-keep_keys review_required paths,
  )

  -- The scope asks for a human exactly when a changed path needs review, whatever else is wrong.
  pub evaluate_scope-needs_human :
      (paths : List String)
      → ((evaluate_scope match_file scope paths).verdict ≡ Verdict.needs_human)
        ↔ (any review_required paths ≡ true)
  unfolding evaluate_scope
  evaluate_scope-needs_human paths = ground (
    arith,
    empty-keep_keys (λ p. not (allowed p)) paths,
    empty-keep_keys forbidden paths,
    empty-keep_keys review_required paths,
  )

  -- The scope gives each of its three reasons exactly when a changed path is forbidden, not
  -- allowed, or in need of review.
  pub evaluate_scope-reasons :
      (paths : List String)
      → let codes = (evaluate_scope match_file scope paths).reason_codes in
        (mem "PATH_FORBIDDEN" codes ≡ any forbidden paths)
        × (mem "PATH_OUTSIDE_ALLOWED" codes ≡ any (λ p. not (allowed p)) paths)
        × (mem "PATH_REVIEW_REQUIRED" codes ≡ any review_required paths)
  unfolding evaluate_scope
  evaluate_scope-reasons paths =
      let caught = λ (p : String → Bool). not-not _ _ (empty-keep_keys p paths) in
      let (f, o, r) = scope_reasons-mem _ _ _ in
      (f ∙ caught forbidden, o ∙ caught (λ p. not (allowed p)), r ∙ caught review_required)
