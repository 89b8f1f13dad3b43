-- ===== src/Github/Spec/Tests.antt =====
-- Runs of the parser, as in spec_test.go.
use ice_hive.Prelude.{◌≡◌, refl, true, false, List, [], ◌∷◌, map, arith, Result, ok, err}
use ice_hive.Text.{
  Bytes, codes, str_eq, is_space, trim_left, trim_right, trim, trim_space, lower, to_lower,
  has_prefix, contains_byte, contains_any, split_from, split, split_two,
}
use ice_hive.Github.Spec.{
  SpecError, SourceOpts, Target, no_opts, split_source_spec, set_option, seen_before,
  options_from_modifiers, parse_repo_primary, parse_github_source_spec, unknown_modifier,
}
use ice_hive.Github.Spec.Options.{join_opts}
use ice_hive.Github.Spec.Sound.{IsTarget, parse_github_source_spec-IsTarget}
use ice_hive.Github.Spec.RoundTrip.{
  Modifier, dependabot, pr, word, IsName, render_repo, parse-render_repo,
}

-- Everything a run computes with.
parse : Bytes → Result SpecError (Target × SourceOpts)
unfolding parse_github_source_spec split_source_spec options_from_modifiers parse_repo_primary
    set_option seen_before str_eq is_space trim_left trim_right trim trim_space lower to_lower
    has_prefix contains_byte contains_any split_from split split_two
parse s = parse_github_source_spec s

single_repo :
    parse (codes " Repo:jamesread/IceHive +pr + Issue ")
    ≡ ok (
      record { owner = codes "jamesread"; repo = codes "IceHive"; all_repos = false },
      record no_opts { prs = true; issues = true },
    )
unfolding parse
single_repo = refl

whole_org :
    parse (codes "org.repos:jamesread")
    ≡ ok (record { owner = codes "jamesread"; repo = []; all_repos = true }, no_opts)
unfolding parse
whole_org = refl

unknown : parse (codes "repo:a/b +nope") ≡ err (unknown_modifier (codes "nope"))
unfolding parse
unknown = refl

abbrev mods : List Modifier
mods = pr ∷ dependabot ∷ pr ∷ []

jamesread : IsName (codes "jamesread")
unfolding is_space
jamesread = (ground arith, λ e. cc)

icehive : IsName (codes "IceHive")
unfolding is_space
icehive = (ground arith, λ e. cc)

parse-render_repo_example :
    parse_github_source_spec (render_repo (codes "jamesread") (codes "IceHive") mods)
    ≡ ok (
      record { owner = codes "jamesread"; repo = codes "IceHive"; all_repos = false },
      join_opts (map word mods) no_opts,
    )
parse-render_repo_example =
    parse-render_repo (codes "jamesread") (codes "IceHive") mods jamesread icehive (ground arith)
      (ground arith)

parse_github_source_spec-IsTarget_example :
    IsTarget (record { owner = codes "jamesread"; repo = codes "IceHive"; all_repos = false })
parse_github_source_spec-IsTarget_example =
    parse_github_source_spec-IsTarget (codes " Repo:jamesread/IceHive +pr + Issue ") _
      (record no_opts { prs = true; issues = true }) (unfold parse in single_repo)
