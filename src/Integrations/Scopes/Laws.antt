-- ===== src/Integrations/Scopes/Laws.antt =====
-- What `normalizeIntegrationScopes` of backend/src/modules/integrations/integration-scopes.ts gives.
use monqom.Common.{
  ◌≡◌, refl, ap, ◌∙◌, subst, inl, inr, Bool, true, false, not, ◌&&◌, ◌||◌, List, [], ◌∷◌, arith,
  if◌then◌else◌, all, Bool-cases,
}
use monqom.Common.Results.{ok, err}
use monqom.Common.Text.{Text, text_eq, text_eq_iff, text_lt, includes}
use monqom.Integrations.Scopes.{
  are_supported_integration_scopes, without_repeats, insert_scope, sort_scopes,
  normalize_integration_scopes, unsupported_capability,
}

-- No scope stands before a smaller one or one like it.
abbrev pub is_ascending : List Text → Bool
is_ascending [] = true
is_ascending (t ∷ []) = true
is_ascending (t ∷ u ∷ us) = text_lt t u && is_ascending (u ∷ us)

text_lt_total : (s t : Text) → text_eq s t ≡ false → text_lt s t ≡ false → text_lt t s ≡ true
unfolding text_lt
text_lt_total [] [] h k = cc
text_lt_total [] (b ∷ t) h k = cc
text_lt_total (a ∷ s) [] h k = refl
text_lt_total (a ∷ s) (b ∷ t) h k = ground (arith, text_lt_total s t)

includes-insert_scope :
    (t s : Text) (ts : List Text) → includes (insert_scope t ts) s ≡ (text_eq t s || includes ts s)
includes-insert_scope t s [] = refl
includes-insert_scope t s (u ∷ us) = ground (arith, includes-insert_scope t s us)

includes-sort_scopes : (s : Text) (ts : List Text) → includes (sort_scopes ts) s ≡ includes ts s
includes-sort_scopes s [] = refl
includes-sort_scopes s (t ∷ ts) =
    includes-insert_scope t s (sort_scopes ts)
    ∙ ap (λ b. text_eq t s || b) (includes-sort_scopes s ts)

insert_scope_after :
    (u t : Text) (us : List Text)
    → text_lt u t ≡ true
    → is_ascending (u ∷ us) ≡ true
    → is_ascending (insert_scope t us) ≡ true
    → is_ascending (u ∷ insert_scope t us) ≡ true
insert_scope_after u t [] lt h k = ground arith
insert_scope_after u t (v ∷ vs) lt h k = ground arith

is_ascending_tail :
    (u : Text) (us : List Text) → is_ascending (u ∷ us) ≡ true → is_ascending us ≡ true
is_ascending_tail u [] h = refl
is_ascending_tail u (v ∷ vs) h = ground arith

is_ascending-insert_scope :
    (t : Text) (ts : List Text)
    → includes ts t ≡ false
    → is_ascending ts ≡ true
    → is_ascending (insert_scope t ts) ≡ true
is_ascending-insert_scope t [] h k = refl
is_ascending-insert_scope t (u ∷ us) h k =
    let rest = is_ascending-insert_scope t us (ground arith) (is_ascending_tail u us k) in
    elim (Bool-cases (text_lt u t)) [
      | inl before ↦ rw before (insert_scope_after u t us before k rest)
      | inr after ↦ rw after (ground (arith, text_lt_total u t))
    ]

includes-without_repeats :
    (s : Text) (seen ts : List Text)
    → includes (without_repeats seen ts) s ≡ (includes ts s && not (includes seen s))
includes-without_repeats s seen [] = refl
includes-without_repeats s seen (t ∷ ts) = elim (Bool-cases (text_eq t s)) [
  | inl here ↦
      let same : t ≡ s = (text_eq_iff t s).0 here in
      let alike : includes seen t ≡ includes seen s = ap (includes seen) same in
      ground (arith, includes-without_repeats s seen ts, includes-without_repeats s (t ∷ seen) ts)
  | inr other ↦
      ground (arith, includes-without_repeats s seen ts, includes-without_repeats s (t ∷ seen) ts)
]

is_ascending-sort_scopes :
    (seen ts : List Text) → is_ascending (sort_scopes (without_repeats seen ts)) ≡ true
is_ascending-sort_scopes seen [] = refl
is_ascending-sort_scopes seen (t ∷ ts) = elim (Bool-cases (includes seen t)) [
  | inl known ↦ rw known (is_ascending-sort_scopes seen ts)
  | inr new ↦
      let own : text_eq t t ≡ true = (text_eq_iff t t).1 refl in
      let missing : includes (sort_scopes (without_repeats (t ∷ seen) ts)) t ≡ false =
        includes-sort_scopes t (without_repeats (t ∷ seen) ts)
        ∙ includes-without_repeats t (t ∷ seen) ts
        ∙ ground arith in
      rw new (is_ascending-insert_scope t _ missing (is_ascending-sort_scopes (t ∷ seen) ts))
]

includes-all :
    (p : Text → Bool) (s : Text) (ts : List Text)
    → all p ts ≡ true
    → includes ts s ≡ true
    → p s ≡ true
includes-all p s [] h k = cc
includes-all p s (t ∷ ts) h k = elim (Bool-cases (text_eq t s)) [
  | inl here ↦ subst (λ x. p x ≡ true) ((text_eq_iff t s).0 here) (ground arith)
  | inr other ↦ includes-all p s ts (ground arith) (ground arith)
]

all-without_repeats :
    (p : Text → Bool) (seen ts : List Text)
    → all p seen ≡ true
    → all p (without_repeats seen ts) ≡ all p ts
all-without_repeats p seen [] h = refl
all-without_repeats p seen (t ∷ ts) h = elim (Bool-cases (includes seen t)) [
  | inl known ↦
      let fine = includes-all p t seen h known in ground (arith, all-without_repeats p seen ts)
  | inr new ↦ ground (arith, all-without_repeats p (t ∷ seen) ts)
]

-- `normalizeIntegrationScopes` refuses just the lists with a scope that is not supported, and gives a
-- list with the same scopes otherwise, each once and in ascending order.
pub normalize_integration_scopes_lem :
    (scopes : List Text)
    → (out : List Text) × (normalize_integration_scopes scopes
        ≡ (if are_supported_integration_scopes scopes then ok out else err unsupported_capability))
      × ((s : Text) → includes out s ≡ includes scopes s)
      × (is_ascending out ≡ true)
unfolding normalize_integration_scopes
normalize_integration_scopes_lem scopes =
    let normalized = without_repeats [] scopes in
    (
      sort_scopes normalized,
      ap (λ b. if b then ok (sort_scopes normalized) else err unsupported_capability)
          (all-without_repeats _ [] scopes refl),
      (λ s.
          includes-sort_scopes s normalized ∙ includes-without_repeats s [] scopes ∙ ground arith),
      is_ascending-sort_scopes [] scopes,
    )
