-- ===== src/Profile/Roundtrip.antt =====
-- A profile that is written out reads back.
use duet.Prelude.{map, ◌∙◌, ℕ, ◌<◌, List, [], ◌∷◌, ◌++◌, Option, none, some, ok, All, ◌≡◌, refl}
use duet.Ord.{nat_ord}
use duet.Ord.Lexicographic.{list_ord, cmp_list}
use duet.FilePath.{cur_dir}
use duet.Text.{Text, trim, trim_start, trim_end, is_whitespace, split_once}
use duet.Scan.Location.{exclude}
use duet.Sync.Staging.{basis_points}
use duet.Profile.Laws.{
  parse_line-IsPattern, IsTrimmed, IsContent, IsPattern, Rule, rule_line, rule_location, at,
  parse_lines-rules, parse_lines-ignore, parse_lines-prune, parse_line-ignore_header,
  parse_line-prune_header,
}
use duet.Cli.Reserve.Laws.{is_empty-display, display, percent_text, from_str-display, trim-display}
use duet.Profile.{
  Profile, Progress, ProfileSection, start, header, parse_staging, parse_in, parse_found,
  parse_line, parse_lines, parse_file, ignore_header, prune_header, staging_header, reserve_key,
  locations_section, ignore_section, prune_section, staging_section,
}

-- What a profile's file says: two places, rules, patterns, and a share of the disk as a reserve.
pub record Written : Type 0 where
  pub local : Text
  pub remote : Text
  pub rules : List Rule
  pub ignore : List Text
  pub prune : List Text
  pub points : ℕ

abbrev pub reserve_line : ℕ → Text
reserve_line points = reserve_key ++ b'=' ∷ display points

unfoldable pub write : Written → List (Option Text)
write w =
    some w.local
    ∷ some w.remote
    ∷ (map (λ rule. some (rule_line rule)) w.rules
        ++ (some ignore_header
            ∷ (map some w.ignore
                ++ (some prune_header
                    ∷ (map some w.prune
                        ++ (some staging_header ∷ some (reserve_line w.points) ∷ []))))))

-- The profile that it means. The base directory is excluded unless a rule includes it.
unfoldable pub meaning : Written → Profile
meaning w = record {
  local = w.local;
  remote = w.remote;
  locations = exclude (cur_dir ∷ []) ∷ map rule_location w.rules;
  ignore = w.ignore;
  prune = w.prune;
  staging_reserve = some (basis_points w.points);
}

-- The places and patterns stand for themselves as lines, paths have no white space around them, and
-- the share is below 100 percent.
pub record CanWrite (w : Written) : Type 0 where
  pub places : IsContent w.local × IsContent w.remote
  pub rules : All (λ rule. IsTrimmed rule.1) w.rules
  pub ignore : All IsPattern w.ignore
  pub prune : All IsPattern w.prune
  pub points : w.points < 10000

split_once-reserve_line :
    (points : ℕ) → split_once b'=' (reserve_line points) ≡ some (reserve_key, display points)
unfolding split_once
split_once-reserve_line points = refl

trim-reserve_line : (points : ℕ) → trim (reserve_line points) ≡ reserve_line points
unfolding trim trim_start trim_end is_whitespace display percent_text
trim-reserve_line points = refl

header-reserve_line : (points : ℕ) → header (reserve_line points) ≡ none
unfolding header list_ord cmp_list nat_ord
header-reserve_line points = refl

module _ (parse_str : Text → Option ℕ) where
  parse_line-staging_header :
      (p : Profile) (section : ProfileSection)
      → parse_line parse_str (at p section) staging_header ≡ ok (at p staging_section)
  unfolding parse_line parse_found header trim trim_start trim_end is_whitespace list_ord cmp_list
      nat_ord
  parse_line-staging_header p section = refl

  parse_staging-reserve_line :
      (p : Profile) (points : ℕ) (line : Text)
      → points < 10000
      → p.staging_reserve ≡ none
      → parse_staging parse_str (at p staging_section) line (reserve_line points)
        ≡ ok (at (record p { staging_reserve = some (basis_points points) }) staging_section)
  unfolding parse_staging trim trim_start trim_end is_whitespace list_ord cmp_list nat_ord
  parse_staging-reserve_line p points line h n =
      rw
        (
          split_once-reserve_line points,
          trim-display points h,
          is_empty-display points,
          n,
          from_str-display parse_str points h,
        )
        refl

  parse_line-reserve_line :
      (p : Profile) (points : ℕ)
      → points < 10000
      → p.staging_reserve ≡ none
      → parse_line parse_str (at p staging_section) (reserve_line points)
        ≡ ok (at (record p { staging_reserve = some (basis_points points) }) staging_section)
  unfolding parse_in
  parse_line-reserve_line p points h n =
      let e = trim-reserve_line points in
      parse_line-IsPattern parse_str p staging_section (reserve_line points)
        (rw e refl, rw e (header-reserve_line points))
      ∙ rw e (parse_staging-reserve_line p points (reserve_line points) h n)

  parse_lines-some :
      (s s' : Progress) (line : Text) (rest : List (Option Text))
      → parse_line parse_str s line ≡ ok s'
      → parse_lines parse_str s (some line ∷ rest) ≡ parse_lines parse_str s' rest
  unfolding parse_lines
  parse_lines-some s s' line rest h = rw h refl

  -- The first two lines are the places.
  abbrev with_places : Text → Text → Profile
  with_places local remote = record start.profile { local = local; remote = remote }

  parse_lines-places :
      (local remote : Text) (rest : List (Option Text))
      → IsContent local
      → IsContent remote
      → parse_lines parse_str start (some local ∷ some remote ∷ rest)
        ≡ parse_lines parse_str (at (with_places local remote) locations_section) rest
  parse_lines-places local remote rest l r =
      parse_lines-some start
        (record start { profile = record start.profile { local = local }; found = 1 }) local
        (some remote ∷ rest) (unfold parse_line parse_found in rw l refl)
      ∙ parse_lines-some
          (record start { profile = record start.profile { local = local }; found = 1 })
          (at (with_places local remote) locations_section) remote rest
          (unfold parse_line parse_found in rw r refl)

  -- A profile whose parts can stand in a file, with a share of the disk as its reserve, is read back
  -- from its lines, with the base directory excluded before all rules.
  pub parse_file-write :
      (w : Written) → CanWrite w → parse_file parse_str (write w) ≡ ok (meaning w)
  unfolding parse_file write meaning
  parse_file-write w c =
      let p = with_places w.local w.remote in
      let q = record p { locations = p.locations ++ map rule_location w.rules } in
      let r = record q { ignore = w.ignore } in
      let t = record r { prune = w.prune } in
      let staging = some staging_header ∷ some (reserve_line w.points) ∷ [] in
      let prunes = some prune_header ∷ (map some w.prune ++ staging) in
      let ignores = some ignore_header ∷ (map some w.ignore ++ prunes) in
      parse_lines-places w.local w.remote (map (λ rule. some (rule_line rule)) w.rules ++ ignores)
        c.places.0 c.places.1
      ∙ parse_lines-rules parse_str p w.rules ignores c.rules
      ∙ parse_lines-some (at q locations_section) (at q ignore_section) ignore_header
          (map some w.ignore ++ prunes) (parse_line-ignore_header parse_str q locations_section)
      ∙ parse_lines-ignore parse_str q w.ignore prunes c.ignore
      ∙ parse_lines-some (at r ignore_section) (at r prune_section) prune_header
          (map some w.prune ++ staging) (parse_line-prune_header parse_str r ignore_section)
      ∙ parse_lines-prune parse_str r w.prune staging c.prune
      ∙ parse_lines-some (at t prune_section) (at t staging_section) staging_header
          (some (reserve_line w.points) ∷ []) (parse_line-staging_header t prune_section)
      ∙ parse_lines-some (at t staging_section) _ (reserve_line w.points) []
          (parse_line-reserve_line t w.points c.points refl)
      ∙ (unfold parse_lines in refl)
