-- ===== src/IncludeResolver/Samples.antt =====
-- The theorems on include resolution (src/syntax/include_resolver.cpp) in a small file system.
use Prim.Native.String.{◌++◌ as join}
use clice.Base.{
  ◌<◌, ◌≡◌, refl, true, false, ◌||◌, some, [], ◌∷◌, ◌==◌, string_equality, if◌then◌else◌, arith,
  lookup, contains, insert,
}
use clice.SearchConfig.{SearchConfig}
use clice.IncludeResolver.{
  FileSystem, Paths, DirListingCache, resolve_include_config, drop, resolve_search_config,
  resolve_dirs, resolve_dir, answer_dir, includer_listing, resolve_include, search_dirs,
  check_in_dir, is_simple, make_candidate, needs_normalize,
}
use clice.IncludeResolver.Transparent.{Consistent}
use clice.IncludeResolver.Next.{include_next_range}

abbrev disk : FileSystem
disk = record {
  readdir = λ d. if d == "sys" || d == "inc" then "a.h" ∷ [] else [];
  exists = λ p. false;
}

abbrev slashes : Paths
slashes = record {
  append = λ d f. join d (join "/" f);
  parent_path = λ p. p;
  filename_of = λ p. p;
  remove_dots = λ p. p;
  is_absolute = λ p. false;
}

abbrev config : SearchConfig
config = record {
  dirs = "quote" ∷ "inc" ∷ "sys" ∷ [];
  angled_start_idx = 1;
  system_start_idx = 2;
  after_start_idx = 3;
}

abbrev empty_cache : DirListingCache
empty_cache = record { dirs = []; dir_listings = 0; dir_hits = 0; lookups = 0 }

empty_cache-Consistent : Consistent disk empty_cache
unfolding lookup
empty_cache-Consistent dir entries h = ground (arith, h)

found_next :
    (resolve_include_config disk slashes "a.h" true "inc" true 1 config true empty_cache).1
    ≡ some (record { path = "sys/a.h"; found_dir_idx = 2 })
unfolding resolve_include_config resolve_search_config resolve_dirs resolve_dir answer_dir
    includer_listing resolve_include search_dirs check_in_dir is_simple make_candidate
    needs_normalize drop lookup contains insert
found_next = refl

include_next_example : (1 < 2) × (2 < 3)
include_next_example =
    include_next_range disk slashes "a.h" true "inc" 1 config true empty_cache
      (record { path = "sys/a.h"; found_dir_idx = 2 }) empty_cache-Consistent refl (omega arith)
      (omega arith) found_next
