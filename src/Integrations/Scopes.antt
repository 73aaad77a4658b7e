-- ===== src/Integrations/Scopes.antt =====
-- backend/src/modules/integrations/integration-scopes.ts. `Array.prototype.sort` without a comparison
-- orders by code units.
pub mod Laws
use monqom.Common.{
  ◌≡◌, refl, sym, ap, ◌∙◌, inl, inr, Bool, true, false, not, ◌&&◌, ◌||◌, List, [], ◌∷◌, arith,
  if◌then◌else◌, all, Bool-cases,
}
use monqom.Common.Results.{Outcome, ok, err}
use monqom.Common.Text.{Text, codes, text_eq, text_eq_iff, text_lt, includes}

abbrev pub integration_scopes : List Text
integration_scopes =
    codes "transactions:create"
    ∷ codes "transactions:read-own"
    ∷ codes "transactions:update-own"
    ∷ codes "transactions:delete-own"
    ∷ codes "categories:read"
    ∷ codes "payment-sources:read"
    ∷ []

abbrev pub implemented_integration_scopes : List Text
implemented_integration_scopes =
    codes "transactions:create"
    ∷ codes "categories:read"
    ∷ codes "payment-sources:read"
    ∷ codes "transactions:read-own"
    ∷ codes "transactions:update-own"
    ∷ codes "transactions:delete-own"
    ∷ []

abbrev pub is_integration_scope : Text → Bool
is_integration_scope value = includes integration_scopes value

abbrev pub are_supported_integration_scopes : List Text → Bool
are_supported_integration_scopes =
    all (λ scope. is_integration_scope scope && includes implemented_integration_scopes scope)

-- `[...new Set(scopes)]`, which keeps first occurrences: `seen` are those before.
abbrev pub without_repeats : List Text → List Text → List Text
without_repeats seen [] = []
without_repeats seen (t ∷ ts) =
    let rest = without_repeats seen ts in
    let more = without_repeats (t ∷ seen) ts in if includes seen t then rest else t ∷ more

abbrev pub insert_scope : Text → List Text → List Text
insert_scope t [] = t ∷ []
insert_scope t (u ∷ us) =
    let rest = insert_scope t us in if text_lt u t then u ∷ rest else t ∷ u ∷ us

abbrev pub sort_scopes : List Text → List Text
sort_scopes [] = []
sort_scopes (t ∷ ts) = insert_scope t (sort_scopes ts)

-- The exception of `normalizeIntegrationScopes`
pub data UnsupportedScope : Type 0 where
  unsupported_capability : UnsupportedScope

unfoldable pub normalize_integration_scopes : List Text → Outcome UnsupportedScope (List Text)
normalize_integration_scopes scopes =
    let normalized = without_repeats [] scopes in
    if are_supported_integration_scopes normalized
    then ok (sort_scopes normalized)
    else err unsupported_capability
