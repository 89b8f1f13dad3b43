-- ===== src/SourceSchema/Tests.antt =====
-- The announced modifiers at two lists.
use ice_hive.Prelude.{◌≡◌, [], ◌∷◌}
use ice_hive.Text.{codes}
use ice_hive.Github.Spec.{options_from_modifiers}
use ice_hive.SourceSchema.{github_v1}
use ice_hive.SourceSchema.Agree.{is_ok, offers_all, github_v1_offers_lem}

github_v1_offers_lem_example :
    is_ok (options_from_modifiers (codes "pr" ∷ codes "wiki" ∷ []))
    ≡ offers_all github_v1.modifiers (codes "pr" ∷ codes "wiki" ∷ [])
github_v1_offers_lem_example = github_v1_offers_lem (codes "pr" ∷ codes "wiki" ∷ [])
