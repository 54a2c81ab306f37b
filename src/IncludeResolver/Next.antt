-- ===== src/IncludeResolver/Next.antt =====
-- src/syntax/include_resolver.cpp: #include_next goes on behind the directory of the includer.
use clice.Base.{
  u32, ℕ, zero, suc, ◌+◌, ◌-◌, ◌%◌, ◌≤◌, ◌<◌, ◌≡◌, sym, ◌∙◌, inl, inr, Bool, true, false, some,
  List, [], ◌∷◌, String, length, Bool-cases, arith,
}
use clice.SearchConfig.{SearchConfig}
use clice.IncludeResolver.{
  FileSystem, Paths, DirListingCache, ResolveResult, drop, resolve_include_config,
}
use clice.IncludeResolver.Transparent.{
  Consistent, present, first_of, numbered, search_order, resolution, resolve_include_config-Agrees,
}

length-drop : (n : ℕ) (xs : List String) → length (drop n xs) ≡ length xs - n
unfolding drop
length-drop zero xs = omega arith
length-drop (suc n) [] = omega arith
length-drop (suc n) (x ∷ xs) = omega (arith, length-drop n xs)

module _ (fs : FileSystem) (paths : Paths) (filename : String) where
  -- The index is increased without a wrap while a directory is left.
  numbered_later :
      (i : ℕ) (dirs : List String) (r : ResolveResult)
      → i + length dirs < u32
      → first_of fs paths filename (numbered fs paths filename ((i + 1) % u32) dirs) ≡ some r
      → ((i + 1) % u32 + length dirs ≤ u32
          → ((i + 1) % u32 ≤ r.found_dir_idx) × (r.found_dir_idx < (i + 1) % u32 + length dirs))
      → (i ≤ r.found_dir_idx) × (r.found_dir_idx < i + suc (length dirs))
  unfolding first_of numbered
  numbered_later i [] r l h range = ground (arith, h)
  numbered_later i (d ∷ dirs) r l h range =
      let bounds = range (omega (arith, l)) in
      (omega (arith, l, bounds.0), omega (arith, l, bounds.1))

  numbered_range :
      (i : ℕ) (dirs : List String) (r : ResolveResult)
      → i + length dirs ≤ u32
      → first_of fs paths filename (numbered fs paths filename i dirs) ≡ some r
      → (i ≤ r.found_dir_idx) × (r.found_dir_idx < i + length dirs)
  unfolding first_of numbered
  numbered_range i [] r l h = ground (arith, h)
  numbered_range i (dir ∷ dirs) r l h = elim (Bool-cases (present fs paths filename dir)) [
    | inl e ↦
        let here : i ≡ r.found_dir_idx = ground (arith, h, e) in
        (omega (arith, here), omega (arith, here))
    | inr e ↦
        let later : first_of fs paths filename (numbered fs paths filename ((i + 1) % u32) dirs)
            ≡ some r =
          ground (arith, h, e) in
        numbered_later i dirs r (omega (arith, l)) later
          (λ below. numbered_range ((i + 1) % u32) dirs r below later)
  ]

  next_search :
      (is_angled : Bool) (includer_dir : String) (found_idx : ℕ) (config : SearchConfig)
      (r : ResolveResult)
      → paths.is_absolute filename ≡ false
      → resolution fs paths filename is_angled includer_dir true found_idx config ≡ some r
      → first_of fs paths filename (
          numbered fs paths filename
            ((found_idx + 1) % u32)
            (drop ((found_idx + 1) % u32) config.dirs))
        ≡ some r
  unfolding resolution search_order
  next_search is_angled includer_dir found_idx config r rel h = ground (arith, h, rel)

  -- Where there are fewer than 2^32 search directories, `found_idx` is the index of one of them, the name is
  -- not absolute and the cache has the listings of the file system, a file that #include_next finds is in
  -- a search directory with a larger index.
  pub include_next_range :
      (is_angled : Bool) (includer_dir : String) (found_idx : ℕ) (config : SearchConfig)
      (counted : Bool) (cache : DirListingCache) (r : ResolveResult)
      → Consistent fs cache
      → paths.is_absolute filename ≡ false
      → length config.dirs < u32
      → found_idx < length config.dirs
      → (resolve_include_config fs paths filename is_angled includer_dir true found_idx config
          counted cache).1
        ≡ some r
      → (found_idx < r.found_dir_idx) × (r.found_dir_idx < length config.dirs)
  include_next_range is_angled includer_dir found_idx config counted cache r c rel small inside h =
      let told =
        (resolve_include_config-Agrees fs paths filename is_angled includer_dir true found_idx
          config counted cache c).answer in
      let found = next_search is_angled includer_dir found_idx config r rel (sym told ∙ h) in
      let same : (found_idx + 1) % u32 ≡ found_idx + 1 = omega (arith, small, inside) in
      let rest = length-drop ((found_idx + 1) % u32) config.dirs in
      let range =
        numbered_range ((found_idx + 1) % u32) (drop ((found_idx + 1) % u32) config.dirs) r
          (omega (arith, same, rest, small, inside)) found in
      (omega (arith, same, range.0), omega (arith, same, rest, inside, range.1))
