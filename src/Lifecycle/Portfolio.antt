-- ===== src/Lifecycle/Portfolio.antt =====
-- `PortfolioCheckpoint` of domain/lifecycle.py.
use agentic_investment_os.Prelude.{
  Bool, true, false, ◌&&◌, not, Option, none, some, List, [], ◌∷◌, String, str_eq, is_none,
}
use agentic_investment_os.Temporal.{UtcInstant}
use agentic_investment_os.Scheduler.Status.{is_hash}
use agentic_investment_os.Lifecycle.Checkpoint.{
  PortfolioShadowKind, PortfolioShadowReference, empty, valid_hash_references,
}

pub data PortfolioCheckpointRefusalReason : Type 0 where
  invalid_request incomplete_input stale_input : PortfolioCheckpointRefusalReason
  contradictory_input authority_violation : PortfolioCheckpointRefusalReason

pub record PortfolioCheckpoint : Type 0 where
  pub result_id : String
  pub house_view_id : Option String
  pub policy_id : String
  pub input_id : String
  pub target_band_ids : List String
  pub recorded_at : UtcInstant
  pub refusal_reason : Option PortfolioCheckpointRefusalReason
  pub shadow_accounts : List PortfolioShadowReference

abbrev is_optional_hash : Option String → Bool
is_optional_hash none = true
is_optional_hash (some s) = is_hash s

abbrev distinct : String → String → String → Bool
distinct a b c = not (str_eq a b) && not (str_eq a c) && not (str_eq b c)

abbrev are_three_kinds : PortfolioShadowKind → PortfolioShadowKind → PortfolioShadowKind → Bool
are_three_kinds PortfolioShadowKind.conservative PortfolioShadowKind.growth
      PortfolioShadowKind.equal_weight =
    true
are_three_kinds _ _ _ = false

-- No accounts, or the conservative, the growth and the equal-weight one with distinct identities;
-- each of them was checked by `PortfolioShadowReference.__post_init__`.
abbrev shadow_accounts_are_valid : List PortfolioShadowReference → Bool
shadow_accounts_are_valid [] = true
shadow_accounts_are_valid (a ∷ b ∷ c ∷ []) =
    are_three_kinds a.account_kind b.account_kind c.account_kind
    && is_hash a.account_id
    && is_hash b.account_id
    && is_hash c.account_id
    && distinct a.account_id b.account_id c.account_id
shadow_accounts_are_valid _ = false

abbrev no_accounts : List PortfolioShadowReference → Bool
no_accounts [] = true
no_accounts (a ∷ rest) = false

-- What a construction leaves, and what a refused one must not.
abbrev outcome_is_valid : PortfolioCheckpoint → Option PortfolioCheckpointRefusalReason → Bool
outcome_is_valid c none = not (is_none c.house_view_id) && not (no_accounts c.shadow_accounts)
outcome_is_valid c (some r) =
    is_none c.house_view_id && empty c.target_band_ids && no_accounts c.shadow_accounts

-- `PortfolioCheckpoint.__post_init__`
unfoldable pub portfolio_checkpoint_is_valid : PortfolioCheckpoint → Bool
portfolio_checkpoint_is_valid c =
    is_hash c.result_id
    && is_optional_hash c.house_view_id
    && is_hash c.policy_id
    && is_hash c.input_id
    && valid_hash_references c.target_band_ids
    && shadow_accounts_are_valid c.shadow_accounts
    && outcome_is_valid c c.refusal_reason

-- `portfolio.refusal_reason is not None`
abbrev pub is_refused : PortfolioCheckpoint → Bool
is_refused c = not (is_none c.refusal_reason)
