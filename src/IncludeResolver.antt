-- ===== src/IncludeResolver.antt =====
-- src/syntax/include_resolver.{h,cpp}: from an include directive to a file, over the search directories
-- and a cache of directory listings. The file system and the path library of LLVM are arguments.
mod Transparent
mod Next
mod Samples
use Prim.Native.Char.{code}
use clice.Base.{
  u32, u64, ℕ, zero, suc, ◌+◌, ◌%◌, Bool, true, false, not, ◌&&◌, ◌||◌, Option, none, some, List,
  [], ◌∷◌, ◌++◌, map, String, Table, lookup, insert, contains, length, if◌then◌else◌, ◌==◌,
  nat_equality, string_equality,
}
use clice.SearchConfig.{SearchConfig}

-- `DirListingCache`, and `StatCounters` but for the time.
pub record DirListingCache : Type 0 where
  pub dirs : Table String (List String)
  pub dir_listings : ℕ
  pub dir_hits : ℕ
  pub lookups : ℕ

pub record ResolvedSearchDir : Type 0 where
  pub path : String
  pub entries : List String

pub record ResolvedSearchConfig : Type 0 where
  pub dirs : List ResolvedSearchDir
  pub angled_start_idx : ℕ
  pub system_start_idx : ℕ
  pub after_start_idx : ℕ

pub record ResolveResult : Type 0 where
  pub path : String
  pub found_dir_idx : ℕ

abbrev codes : String → List ℕ
codes String.[] = []
codes (String.◌∷◌ c s) = code c ∷ codes s

unfoldable pub is_separator : ℕ → Bool
is_separator c = c == b'/' || c == b'\\'

-- Neither slash stands in the name.
unfoldable pub is_simple : List ℕ → Bool
unfolding is_separator
is_simple [] = true
is_simple (c ∷ cs) = not (is_separator c) && is_simple cs

-- The name up to the first slash.
unfoldable pub first_component : String → String
unfolding is_separator
first_component String.[] = String.[]
first_component (String.◌∷◌ c s) =
    let rest = first_component s in if is_separator (code c) then String.[] else String.◌∷◌ c rest

-- Whether two bytes stand next to each other.
unfoldable pub has_pair : ℕ → ℕ → List ℕ → Bool
has_pair a b [] = false
has_pair a b (x ∷ []) = false
has_pair a b (x ∷ y ∷ rest) = (x == a && y == b) || has_pair a b (y ∷ rest)

unfoldable pub needs_normalize : String → Bool
needs_normalize filename =
    let cs = codes filename in
    not (is_simple cs)
    && (has_pair b'.' b'.' cs
        || has_pair b'.' b'/' cs
        || has_pair b'.' b'\\' cs
        || has_pair b'\\' b'.' cs)

unfoldable pub drop {ℓ} : {A : Type ℓ} → ℕ → List A → List A
drop zero xs = xs
drop (suc n) [] = []
drop (suc n) (x ∷ xs) = drop n xs

-- The names in a directory, as `directory_iterator` lists them, and whether a file exists.
pub record FileSystem : Type 0 where
  pub readdir : String → List String
  pub exists : String → Bool

-- The functions of `llvm::sys::path`.
pub record Paths : Type 0 where
  pub append : String → String → String
  pub parent_path : String → String
  pub filename_of : String → String
  pub remove_dots : String → String
  pub is_absolute : String → Bool

-- The first component is not in the listing.
unfoldable pub is_rejected : String → List String → Bool
is_rejected filename entries =
    let first = first_component filename in
    not (first == ".") && not (first == "..") && not (contains entries first)

unfoldable pub make_candidate : Paths → String → String → String
make_candidate paths filename dir =
    let candidate = paths.append dir filename in
    if needs_normalize filename then paths.remove_dots candidate else candidate

module _ (fs : FileSystem) where
  -- `counted` says whether the counters are given.
  unfoldable pub answer_dir :
      Option (List String) → Bool → String → DirListingCache → DirListingCache × List String
  answer_dir (some entries) counted dir cache =
      ((if counted then record cache { dir_hits = (cache.dir_hits + 1) % u64 } else cache), entries)
  answer_dir none counted dir cache =
      let listing = fs.readdir dir in
      let kept = insert dir listing cache.dirs in
      (
        (if counted
            then record cache { dirs = kept; dir_listings = (cache.dir_listings + 1) % u64 }
            else record cache { dirs = kept }),
        listing,
      )

  unfoldable pub resolve_dir : Bool → String → DirListingCache → DirListingCache × List String
  resolve_dir counted dir cache = answer_dir (lookup dir cache.dirs) counted dir cache

  unfoldable pub resolve_dirs :
      List String → DirListingCache → DirListingCache × List ResolvedSearchDir
  resolve_dirs [] cache = (cache, [])
  resolve_dirs (dir ∷ dirs) cache =
      let one = resolve_dir false dir cache in
      let rest = resolve_dirs dirs one.0 in
      (rest.0, record { path = dir; entries = one.1 } ∷ rest.1)

  unfoldable pub resolve_search_config :
      SearchConfig → DirListingCache → DirListingCache × ResolvedSearchConfig
  resolve_search_config config cache =
      let resolved = resolve_dirs config.dirs cache in
      (
        resolved.0,
        record {
          dirs = resolved.1;
          angled_start_idx = config.angled_start_idx;
          system_start_idx = config.system_start_idx;
          after_start_idx = config.after_start_idx;
        },
      )

  -- The listing of the directory of the includer, if there is one.
  unfoldable pub includer_listing :
      Bool → String → DirListingCache → DirListingCache × Option (List String)
  includer_listing counted dir cache =
      let listed = resolve_dir counted dir cache in
      if dir == "" then (cache, none) else (listed.0, some listed.1)

  module _ (paths : Paths) (filename : String) where
    unfoldable pub check_in_dir :
        Bool → String → List String → DirListingCache → DirListingCache × Bool
    check_in_dir counted dir entries cache =
        let seen =
          if counted then record cache { lookups = (cache.lookups + 1) % u64 } else cache in
        let full = paths.append dir filename in
        let sub = resolve_dir counted (paths.parent_path full) seen in
        if is_simple (codes filename)
        then (seen, contains entries filename)
        else if is_rejected filename entries
        then (seen, false)
        else (sub.0, contains sub.1 (paths.filename_of full))

    -- The loops over the directories, from the one with index `i`.
    unfoldable pub search_dirs :
        Bool → ℕ → List ResolvedSearchDir → DirListingCache → DirListingCache × Option ResolveResult
    search_dirs counted i [] cache = (cache, none)
    search_dirs counted i (d ∷ ds) cache =
        let checked = check_in_dir counted d.path d.entries cache in
        let rest = search_dirs counted ((i + 1) % u32) ds checked.0 in
        if checked.1
        then (
          checked.0,
          some (record { path = make_candidate paths filename d.path; found_dir_idx = i }),
        )
        else rest

    -- The directory of the includer, for a quoted include, and what is done if it has no such file.
    unfoldable pub search_includer :
        Bool
        → String
        → Option (List String)
        → (DirListingCache → DirListingCache × Option ResolveResult)
        → DirListingCache
        → DirListingCache × Option ResolveResult
    search_includer counted dir none continue cache = continue cache
    search_includer counted dir (some entries) continue cache =
        let checked = check_in_dir counted dir entries cache in
        let rest = continue checked.0 in
        if checked.1
        then (
          checked.0,
          some (record { path = make_candidate paths filename dir; found_dir_idx = 0 }),
        )
        else rest

    unfoldable pub resolve_include :
        Bool
        → Option (List String)
        → String
        → Bool
        → ℕ
        → ResolvedSearchConfig
        → Bool
        → DirListingCache
        → DirListingCache × Option ResolveResult
    resolve_include is_angled includer_entries includer_dir is_next found_idx config counted cache =
        let after = (found_idx + 1) % u32 in
        let start = if is_angled then config.angled_start_idx else 0 in
        if paths.is_absolute filename
        then (
          cache,
          (if fs.exists filename
              then some (record { path = filename; found_dir_idx = 0 })
              else none),
        )
        else if is_next
        then search_dirs counted after (drop after config.dirs) cache
        else search_includer counted includer_dir (if is_angled then none else includer_entries)
            (search_dirs counted start (drop start config.dirs)) cache

    -- The overload that resolves the directories itself.
    unfoldable pub resolve_include_config :
        Bool
        → String
        → Bool
        → ℕ
        → SearchConfig
        → Bool
        → DirListingCache
        → DirListingCache × Option ResolveResult
    resolve_include_config is_angled includer_dir is_next found_idx config counted cache =
        let resolved = resolve_search_config config cache in
        let includer = includer_listing counted includer_dir resolved.0 in
        resolve_include is_angled includer.1 includer_dir is_next found_idx resolved.1 counted
          includer.0
