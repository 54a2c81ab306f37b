-- ===== src/SearchConfig/Samples.antt =====
-- The theorems on the header search directories (src/command/search_config.cpp) at concrete groups.
use clice.Base.{◌≡◌, refl, [], ◌∷◌, arith, contains, string_equality}
use clice.SearchConfig.{Groups, build_config}
use clice.SearchConfig.Segments.{Segments, fresh, seen_after, build_config-Segments}

abbrev groups : Groups
groups = record {
  quoted = "q" ∷ [];
  angled = "q" ∷ "a" ∷ "q" ∷ [];
  system = "a" ∷ "s" ∷ [];
  after = "t" ∷ "s" ∷ [];
  prefix = "";
}

build_config_example :
    Segments groups.quoted
      (fresh [] groups.angled)
      (fresh (seen_after [] groups.angled) groups.system)
      (fresh (seen_after (seen_after [] groups.angled) groups.system) groups.after)
      (build_config groups)
build_config_example = build_config-Segments groups (omega arith)

kept_angled : fresh [] groups.angled ≡ "q" ∷ "a" ∷ []
unfolding fresh contains
kept_angled = refl

kept_system : fresh (seen_after [] groups.angled) groups.system ≡ "s" ∷ []
unfolding fresh seen_after contains
kept_system = refl
