-- ===== src/Tests/Scopes.antt =====
-- Runs of the normalization of scopes, and an instance of its theorem.
use monqom.Common.{◌≡◌, refl, true, List, [], ◌∷◌, if◌then◌else◌}
use monqom.Common.Results.{ok, err}
use monqom.Common.Text.{Text, codes, text_lt, includes}
use monqom.Integrations.Scopes.{
  are_supported_integration_scopes, normalize_integration_scopes, unsupported_capability,
}
use monqom.Integrations.Scopes.Laws.{is_ascending, normalize_integration_scopes_lem}

abbrev asked : List Text
asked = codes "transactions:create" ∷ codes "categories:read" ∷ codes "transactions:create" ∷ []

normalize_integration_scopes_lem_example :
    (out : List Text) × (normalize_integration_scopes asked
      ≡ (if are_supported_integration_scopes asked then ok out else err unsupported_capability))
    × ((s : Text) → includes out s ≡ includes asked s)
    × (is_ascending out ≡ true)
normalize_integration_scopes_lem_example = normalize_integration_scopes_lem asked

sorted_once :
    normalize_integration_scopes asked
    ≡ ok (codes "categories:read" ∷ codes "transactions:create" ∷ [])
unfolding normalize_integration_scopes text_lt
sorted_once = refl

refused : normalize_integration_scopes (codes "goals:read" ∷ asked) ≡ err unsupported_capability
unfolding normalize_integration_scopes text_lt
refused = refl
