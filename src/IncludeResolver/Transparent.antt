-- ===== src/IncludeResolver/Transparent.antt =====
-- src/syntax/include_resolver.cpp: the cache is transparent. An answer is what a search of the file
-- system in the order of the directories gives.
use clice.Base.{
  u32, u64, ℕ, zero, suc, ◌+◌, ◌%◌, ◌≡◌, refl, sym, subst, ap, inl, inr, Bool, true, false, Option,
  none, some, List, [], ◌∷◌, ◌++◌, map, String, lookup, insert, lookup-insert, contains,
  if◌then◌else◌, ◌==◌, string_equality, Bool-cases, arith,
}
use clice.SearchConfig.{SearchConfig}
use clice.IncludeResolver.{
  FileSystem, Paths, DirListingCache, ResolvedSearchDir, ResolveResult, codes, is_simple, drop,
  answer_dir, resolve_dir, resolve_dirs, resolve_search_config, is_rejected, check_in_dir,
  make_candidate, search_dirs, search_includer, resolve_include, includer_listing,
  resolve_include_config,
}

module _ (fs : FileSystem) where
  -- Every listing of the cache is that of the file system.
  abbrev pub Consistent : DirListingCache → Type 0
  Consistent cache =
      (dir : String) (entries : List String)
      → lookup dir cache.dirs ≡ some entries
      → entries ≡ fs.readdir dir

  -- A call answers `a` and leaves a consistent cache.
  pub record Agrees {ℓ} {A : Type ℓ} (r : DirListingCache × A) (a : A) : Type ℓ where
    pub consistent : Consistent r.0
    pub answer : r.1 ≡ a

  abbrev listed : String → ResolvedSearchDir
  listed dir = record { path = dir; entries = fs.readdir dir }

  kept :
      (dir : String) (cache : DirListingCache)
      → Consistent cache
      → (d : String) (es : List String)
      → lookup d (insert dir (fs.readdir dir) cache.dirs) ≡ some es
      → es ≡ fs.readdir d
  kept dir cache c d es h = elim (Bool-cases (dir == d)) [
    | inl e ↦
        let same : dir ≡ d = (string_equality.test_iff dir d).0 e in
        let got : some (fs.readdir dir) ≡ some es =
          ground (arith, h, e, lookup-insert dir d (fs.readdir dir) cache.dirs) in
        ground (arith, got, same)
    | inr e ↦ c d es (ground (arith, h, e, lookup-insert dir d (fs.readdir dir) cache.dirs))
  ]

  same_dirs :
      (counted : Bool) (cache : DirListingCache)
      → Consistent cache
      → Consistent (if counted then record cache { lookups = (cache.lookups + 1) % u64 } else cache)
  same_dirs true cache c = c
  same_dirs false cache c = c

  answer_dir-Agrees :
      (o : Option (List String)) (counted : Bool) (dir : String) (cache : DirListingCache)
      → Consistent cache
      → lookup dir cache.dirs ≡ o
      → Agrees (answer_dir fs o counted dir cache) (fs.readdir dir)
  unfolding answer_dir
  answer_dir-Agrees (some entries) true dir cache c e = record {
    consistent = c;
    answer = c dir entries e;
  }
  answer_dir-Agrees (some entries) false dir cache c e = record {
    consistent = c;
    answer = c dir entries e;
  }
  answer_dir-Agrees none true dir cache c e = record {
    consistent = λ d es h. kept dir cache c d es h;
    answer = refl;
  }
  answer_dir-Agrees none false dir cache c e = record {
    consistent = λ d es h. kept dir cache c d es h;
    answer = refl;
  }

  resolve_dir-Agrees :
      (counted : Bool) (dir : String) (cache : DirListingCache)
      → Consistent cache
      → Agrees (resolve_dir fs counted dir cache) (fs.readdir dir)
  unfolding resolve_dir
  resolve_dir-Agrees counted dir cache c =
      answer_dir-Agrees (lookup dir cache.dirs) counted dir cache c refl

  resolve_dirs-Agrees :
      (dirs : List String) (cache : DirListingCache)
      → Consistent cache
      → Agrees (resolve_dirs fs dirs cache) (map listed dirs)
  unfolding resolve_dirs
  resolve_dirs-Agrees [] cache c = record { consistent = c; answer = refl }
  resolve_dirs-Agrees (dir ∷ dirs) cache c =
      let one = resolve_dir-Agrees false dir cache c in
      let rest = resolve_dirs-Agrees dirs (resolve_dir fs false dir cache).0 one.consistent in
      record { consistent = rest.consistent; answer = cc (one.answer, rest.answer) }

  resolve_search_config-Agrees :
      (config : SearchConfig) (cache : DirListingCache)
      → Consistent cache
      → Agrees (resolve_search_config fs config cache) (record {
        dirs = map listed config.dirs;
        angled_start_idx = config.angled_start_idx;
        system_start_idx = config.system_start_idx;
        after_start_idx = config.after_start_idx;
      })
  unfolding resolve_search_config
  resolve_search_config-Agrees config cache c =
      let dirs = resolve_dirs-Agrees config.dirs cache c in
      record { consistent = dirs.consistent; answer = cc (dirs.answer) }

  includer_listing-Agrees :
      (counted : Bool) (dir : String) (cache : DirListingCache)
      → Consistent cache
      → Agrees
          (includer_listing fs counted dir cache)
          (if dir == "" then none else some (fs.readdir dir))
  unfolding includer_listing
  includer_listing-Agrees counted dir cache c =
      let one = resolve_dir-Agrees counted dir cache c in
      elim (Bool-cases (dir == "")) [
        | inl e ↦ rw e (record { consistent = c; answer = refl })
        | inr e ↦ rw e (record { consistent = one.consistent; answer = ap some one.answer })
      ]

  module _ (paths : Paths) (filename : String) where
    -- Whether the directory has the file, by the listings of the file system.
    unfoldable pub present : String → Bool
    present dir =
        let full = paths.append dir filename in
        if is_simple (codes filename)
        then contains (fs.readdir dir) filename
        else if is_rejected filename (fs.readdir dir)
        then false
        else contains (fs.readdir (paths.parent_path full)) (paths.filename_of full)

    -- The first directory of an order that has the file.
    unfoldable pub first_of : List (String × ℕ) → Option ResolveResult
    first_of [] = none
    first_of ((dir, i) ∷ rest) =
        let later = first_of rest in
        if present dir
        then some (record { path = make_candidate paths filename dir; found_dir_idx = i })
        else later

    unfoldable pub numbered : ℕ → List String → List (String × ℕ)
    numbered i [] = []
    numbered i (dir ∷ dirs) = (dir, i) ∷ numbered ((i + 1) % u32) dirs

    -- The directories that a directive searches, in their order.
    unfoldable pub search_order : Bool → String → Bool → ℕ → SearchConfig → List (String × ℕ)
    search_order is_angled includer_dir is_next found_idx config =
        let after = (found_idx + 1) % u32 in
        let start = if is_angled then config.angled_start_idx else 0 in
        if is_next
        then numbered after (drop after config.dirs)
        else (if is_angled then [] else if includer_dir == "" then [] else (includer_dir, 0) ∷ [])
          ++ numbered start (drop start config.dirs)

    check_in_dir-Agrees :
        (counted : Bool) (dir : String) (cache : DirListingCache)
        → Consistent cache
        → Agrees (check_in_dir fs paths filename counted dir (fs.readdir dir) cache) (present dir)
    unfolding check_in_dir present
    check_in_dir-Agrees counted dir cache c =
        let seen =
          if counted then record cache { lookups = (cache.lookups + 1) % u64 } else cache in
        let sub =
          resolve_dir-Agrees counted (paths.parent_path (paths.append dir filename)) seen
            (same_dirs counted cache c) in
        elim (Bool-cases (is_simple (codes filename))) [
          | inl e ↦ rw e (record { consistent = same_dirs counted cache c; answer = refl })
          | inr e ↦ rw e (elim (Bool-cases (is_rejected filename (fs.readdir dir))) [
            | inl h ↦ rw h (record { consistent = same_dirs counted cache c; answer = refl })
            | inr h ↦ rw h (record {
              consistent = sub.consistent;
              answer =
                  ap (λ es. contains es (paths.filename_of (paths.append dir filename))) sub.answer;
            })
          ])
        ]

    search_dirs-Agrees :
        (counted : Bool) (i : ℕ) (dirs : List String) (cache : DirListingCache)
        → Consistent cache
        → Agrees
            (search_dirs fs paths filename counted i (map listed dirs) cache)
            (first_of (numbered i dirs))
    unfolding search_dirs first_of numbered
    search_dirs-Agrees counted i [] cache c = record { consistent = c; answer = refl }
    search_dirs-Agrees counted i (dir ∷ dirs) cache c =
        let checked = check_in_dir fs paths filename counted dir (fs.readdir dir) cache in
        let one = check_in_dir-Agrees counted dir cache c in
        let rest = search_dirs-Agrees counted ((i + 1) % u32) dirs checked.0 one.consistent in
        elim (Bool-cases (present dir)) [
          | inl e ↦ rw (one.answer, e) (record { consistent = one.consistent; answer = refl })
          | inr e ↦ rw (one.answer, e) rest
        ]

    drop-map : (n : ℕ) (dirs : List String) → drop n (map listed dirs) ≡ map listed (drop n dirs)
    unfolding drop
    drop-map zero dirs = refl
    drop-map (suc n) [] = refl
    drop-map (suc n) (dir ∷ dirs) = drop-map n dirs

    search_from-Agrees :
        (counted : Bool) (start : ℕ) (dirs : List String) (cache : DirListingCache)
        → Consistent cache
        → Agrees
            (search_dirs fs paths filename counted start (drop start (map listed dirs)) cache)
            (first_of (numbered start (drop start dirs)))
    search_from-Agrees counted start dirs cache c =
        subst
          (λ ds.
            Agrees (search_dirs fs paths filename counted start ds cache)
              (first_of (numbered start (drop start dirs))))
          (sym (drop-map start dirs)) (search_dirs-Agrees counted start (drop start dirs) cache c)

    search_includer-Agrees :
        (counted : Bool) (dir : String) (start : ℕ) (dirs : List String) (cache : DirListingCache)
        → Consistent cache
        → Agrees
            (search_includer fs paths filename counted dir
              (some (fs.readdir dir))
              (search_dirs fs paths filename counted start (drop start (map listed dirs)))
              cache)
            (first_of ((dir, 0) ∷ numbered start (drop start dirs)))
    unfolding search_includer first_of
    search_includer-Agrees counted dir start dirs cache c =
        let checked = check_in_dir fs paths filename counted dir (fs.readdir dir) cache in
        let one = check_in_dir-Agrees counted dir cache c in
        let rest = search_from-Agrees counted start dirs checked.0 one.consistent in
        elim (Bool-cases (present dir)) [
          | inl e ↦ rw (one.answer, e) (record { consistent = one.consistent; answer = refl })
          | inr e ↦ rw (one.answer, e) rest
        ]

    -- The answer of the search behind an absolute path.
    unfoldable pub resolution : Bool → String → Bool → ℕ → SearchConfig → Option ResolveResult
    resolution is_angled includer_dir is_next found_idx config =
        if paths.is_absolute filename
        then (if fs.exists filename
            then some (record { path = filename; found_dir_idx = 0 })
            else none)
        else first_of (search_order is_angled includer_dir is_next found_idx config)

    relative-Agrees :
        (is_angled : Bool) (includer_dir : String) (config : SearchConfig) (counted : Bool)
        (cache : DirListingCache)
        → Consistent cache
        → Agrees
            (search_includer fs paths filename counted includer_dir
              (if is_angled
                then none
                else if includer_dir == ""
                then none
                else some (fs.readdir includer_dir))
              (search_dirs fs paths filename counted
                (if is_angled then config.angled_start_idx else 0)
                (drop (if is_angled then config.angled_start_idx else 0) (map listed config.dirs)))
              cache)
            (first_of (search_order is_angled includer_dir false 0 config))
    unfolding search_order search_includer
    relative-Agrees true includer_dir config counted cache c =
        search_from-Agrees counted config.angled_start_idx config.dirs cache c
    relative-Agrees false includer_dir config counted cache c =
        elim (Bool-cases (includer_dir == "")) [
          | inl e ↦ rw e (search_from-Agrees counted 0 config.dirs cache c)
          | inr e ↦ rw e (search_includer-Agrees counted includer_dir 0 config.dirs cache c)
        ]

    resolve_include-Agrees :
        (is_angled : Bool) (includer_dir : String) (is_next : Bool) (found_idx : ℕ)
        (config : SearchConfig) (counted : Bool) (cache : DirListingCache)
        → Consistent cache
        → Agrees
            (resolve_include fs paths filename is_angled
              (if includer_dir == "" then none else some (fs.readdir includer_dir))
              includer_dir
              is_next
              found_idx
              (record {
                dirs = map listed config.dirs;
                angled_start_idx = config.angled_start_idx;
                system_start_idx = config.system_start_idx;
                after_start_idx = config.after_start_idx;
              })
              counted
              cache)
            (resolution is_angled includer_dir is_next found_idx config)
    unfolding resolve_include resolution search_order
    resolve_include-Agrees is_angled includer_dir is_next found_idx config counted cache c =
        elim (Bool-cases (paths.is_absolute filename)) [
          | inl e ↦ rw e (record { consistent = c; answer = refl })
          | inr e ↦ rw e (elim (Bool-cases is_next) [
            | inl n ↦ rw n (search_from-Agrees counted ((found_idx + 1) % u32) config.dirs cache c)
            | inr n ↦ rw n (relative-Agrees is_angled includer_dir config counted cache c)
          ])
        ]

    pub resolve_include_config-Agrees :
        (is_angled : Bool) (includer_dir : String) (is_next : Bool) (found_idx : ℕ)
        (config : SearchConfig) (counted : Bool) (cache : DirListingCache)
        → Consistent cache
        → Agrees
            (resolve_include_config fs paths filename is_angled includer_dir is_next found_idx
              config counted cache)
            (resolution is_angled includer_dir is_next found_idx config)
    unfolding resolve_include_config
    resolve_include_config-Agrees is_angled includer_dir is_next found_idx config counted cache c =
        let resolved = resolve_search_config-Agrees config cache c in
        let includer =
          includer_listing-Agrees counted includer_dir (resolve_search_config fs config cache).0
            resolved.consistent in
        rw (resolved.answer, includer.answer)
          (resolve_include-Agrees is_angled includer_dir is_next found_idx config counted
            (includer_listing fs counted includer_dir (resolve_search_config fs config cache).0).0
            includer.consistent)
