-- ===== src/SearchConfig/Segments.antt =====
-- The in-place deduplication of src/command/search_config.cpp against the list of first occurrences,
-- and the segments of the result.
use clice.Base.{
  u32, ℕ, suc, ◌+◌, ◌-◌, ◌%◌, ◌≤◌, ◌<◌, ◌≡◌, refl, sym, ◌∙◌, ap, subst, Bool, true, false, List, [],
  ◌∷◌, ◌++◌, String, arith, length, length-append, contains, if◌then◌else◌, ltb, ◌==◌, nat_equality,
  string_equality, Bool-cases, inl, inr,
}
use clice.SearchConfig.{
  Groups, Dedup, SearchConfig, dir_at, set_dir, resize, bump, dedup_step, dedup_loop, minus32,
  build_config,
}

-- The directories that were not seen before, in order.
unfoldable pub fresh : List String → List String → List String
fresh seen [] = []
fresh seen (x ∷ xs) = if contains seen x then fresh seen xs else x ∷ fresh (x ∷ seen) xs

unfoldable pub seen_after : List String → List String → List String
seen_after seen [] = seen
seen_after seen (x ∷ xs) = if contains seen x then seen_after seen xs else seen_after (x ∷ seen) xs

fresh-append :
    (seen xs ys : List String)
    → fresh seen (xs ++ ys) ≡ fresh seen xs ++ fresh (seen_after seen xs) ys
unfolding fresh seen_after
fresh-append seen [] ys = refl
fresh-append seen (x ∷ xs) ys = elim (Bool-cases (contains seen x)) [
  | inl old ↦ rw old (fresh-append seen xs ys)
  | inr new ↦ rw new (ap (λ (zs : List String). x ∷ zs) (fresh-append (x ∷ seen) xs ys))
]

-- How many directories before `bound` were seen before.
unfoldable dropped : ℕ → ℕ → List String → List String → ℕ
dropped bound read seen [] = 0
dropped bound read seen (x ∷ xs) =
    if contains seen x
    then (if ltb read bound then 1 else 0) + dropped bound (suc read) seen xs
    else dropped bound (suc read) (x ∷ seen) xs

dropped_past :
    (bound read : ℕ) (seen xs : List String) → bound ≤ read → dropped bound read seen xs ≡ 0
unfolding dropped
dropped_past bound read seen [] h = refl
dropped_past bound read seen (x ∷ xs) h =
    ground
      (arith, dropped_past bound (suc read) seen xs, dropped_past bound (suc read) (x ∷ seen) xs)

dropped-fresh :
    (bound read : ℕ) (seen xs ys : List String)
    → bound ≡ read + length xs
    → dropped bound read seen (xs ++ ys) + length (fresh seen xs) ≡ length xs
unfolding dropped fresh
dropped-fresh bound read seen [] ys h = omega (arith, dropped_past bound read seen ys (omega arith))
dropped-fresh bound read seen (x ∷ xs) ys h = elim (Bool-cases (contains seen x)) [
  | inl old ↦ rw old (ground (arith, dropped-fresh bound (suc read) seen xs ys))
  | inr new ↦ rw new (ground (arith, dropped-fresh bound (suc read) (x ∷ seen) xs ys))
]

append_assoc : (xs ys zs : List String) → (xs ++ ys) ++ zs ≡ xs ++ (ys ++ zs)
append_assoc [] ys zs = refl
append_assoc (x ∷ xs) ys zs = ap (λ (ws : List String). x ∷ ws) (append_assoc xs ys zs)

dir_at-append :
    (xs : List String) (y : String) (ys : List String) → dir_at (length xs) (xs ++ (y ∷ ys)) ≡ y
unfolding dir_at
dir_at-append [] y ys = refl
dir_at-append (x ∷ xs) y ys = dir_at-append xs y ys

set_dir-append :
    (xs : List String) (w y : String) (ys : List String)
    → set_dir (length xs) w (xs ++ (y ∷ ys)) ≡ xs ++ (w ∷ ys)
unfolding set_dir
set_dir-append [] w y ys = refl
set_dir-append (x ∷ xs) w y ys = ap (λ (zs : List String). x ∷ zs) (set_dir-append xs w y ys)

resize-append : (xs ys : List String) → resize (length xs) (xs ++ ys) ≡ xs
unfolding resize
resize-append [] ys = refl
resize-append (x ∷ xs) ys = ap (λ (zs : List String). x ∷ zs) (resize-append xs ys)

append_nil : (xs : List String) → xs ++ [] ≡ xs
append_nil [] = refl
append_nil (x ∷ xs) = ap (λ (ws : List String). x ∷ ws) (append_nil xs)

-- The state at `read`: the kept directories, leftovers of the moves, and the directories to come.
record At (read : ℕ) (ks js rest : List String) (s : Dedup) : Type 0 where
  dirs : s.dirs ≡ ks ++ (js ++ rest)
  write : s.write ≡ length ks
  read_is : read ≡ length ks + length js
  fits : length ks + length js + length rest < u32
  system_fits : s.removed_before_system + length rest < u32
  after_fits : s.removed_before_after + length rest < u32

record Done (sys aft read : ℕ) (ks rest : List String) (s r : Dedup) : Type 0 where
  dirs : resize r.write r.dirs ≡ ks ++ fresh s.seen rest
  before_system : r.removed_before_system ≡ s.removed_before_system + dropped sys read s.seen rest
  before_after : r.removed_before_after ≡ s.removed_before_after + dropped aft read s.seen rest

-- The leftovers after a directory was kept.
abbrev shift : List String → String → List String
shift [] x = []
shift (j ∷ js) x = js ++ (x ∷ [])

length-shift : (js : List String) (x : String) → length (shift js x) ≡ length js
length-shift [] x = refl
length-shift (j ∷ js) x = omega (arith, length-append js (x ∷ []))

-- The write of a directory that is kept.
placed :
    (ks js rest : List String) (x : String) (write read : ℕ) (dirs : List String)
    → write ≡ length ks
    → read ≡ length ks + length js
    → dirs ≡ ks ++ (js ++ (x ∷ rest))
    → (if write == read then dirs else set_dir write x dirs)
      ≡ (ks ++ (x ∷ [])) ++ (shift js x ++ rest)
placed ks [] rest x write read dirs w r e = pick (write == read) (ground (arith, w, r))
  where
    pick :
        (b : Bool)
        → b ≡ true
        → (if b then dirs else set_dir write x dirs) ≡ (ks ++ (x ∷ [])) ++ rest
    pick b h = rw h (e ∙ sym (append_assoc ks (x ∷ []) rest))
placed ks (j ∷ js) rest x write read dirs w r e = pick (write == read) (ground (arith, w, r))
  where
    pick :
        (b : Bool)
        → b ≡ false
        → (if b then dirs else set_dir write x dirs)
          ≡ (ks ++ (x ∷ [])) ++ ((js ++ (x ∷ [])) ++ rest)
    pick b h =
        rw (h, e, w)
          (set_dir-append ks x j (js ++ (x ∷ rest))
            ∙ (ap (λ ys. ks ++ (x ∷ ys)) (sym (append_assoc js (x ∷ []) rest))
                ∙ sym (append_assoc ks (x ∷ []) ((js ++ (x ∷ [])) ++ rest))))

bump_small : (b : Bool) (n k : ℕ) → n + suc k < u32 → bump b n ≡ n + (if b then 1 else 0)
unfolding bump
bump_small false n k h = omega arith
bump_small true n k h = omega (arith, h)

module _ (sys aft read : ℕ) (ks js rest : List String) (x : String) (s : Dedup)
    (a : At read ks js (x ∷ rest) s) where
  next : (read + 1) % u32 ≡ suc read
  next = omega (arith, a.read_is, a.fits)

  here : dir_at read s.dirs ≡ x
  here =
      rw (a.dirs, a.read_is, ← length-append ks js, ← append_assoc ks js (x ∷ rest))
        (dir_at-append (ks ++ js) x rest)

  old-At :
      contains s.seen x ≡ true → At (suc read) ks (js ++ (x ∷ [])) rest (dedup_step sys aft read s)
  unfolding dedup_step
  old-At old =
      rw (here, old)
        (record {
          dirs = a.dirs ∙ ap (λ ys. ks ++ ys) (sym (append_assoc js (x ∷ []) rest));
          write = a.write;
          read_is = omega (arith, a.read_is, length-append js (x ∷ []));
          fits = omega (arith, a.fits, length-append js (x ∷ []));
          system_fits = ground (
            arith,
            bump_small (ltb read sys) s.removed_before_system (length rest),
            a.system_fits,
          );
          after_fits =
              ground (
                arith,
                bump_small (ltb read aft) s.removed_before_after (length rest),
                a.after_fits,
              );
        })

  moved :
      (if s.write == read then s.dirs else set_dir s.write x s.dirs)
      ≡ (ks ++ (x ∷ [])) ++ (shift js x ++ rest)
  moved = placed ks js rest x s.write read s.dirs a.write a.read_is a.dirs

  new-At :
      contains s.seen x ≡ false
      → At (suc read) (ks ++ (x ∷ [])) (shift js x) rest (dedup_step sys aft read s)
  unfolding dedup_step
  new-At new =
      rw (here, new)
        (record {
          dirs = moved;
          write = omega (arith, a.write, a.fits, length-append ks (x ∷ []));
          read_is = omega (arith, a.read_is, length-append ks (x ∷ []), length-shift js x);
          fits = omega (arith, a.fits, length-append ks (x ∷ []), length-shift js x);
          system_fits = omega (arith, a.system_fits);
          after_fits = omega (arith, a.after_fits);
        })

  abbrev after_step : Dedup
  after_step = dedup_step sys aft read s

  old-fields :
      contains s.seen x ≡ true
      → (after_step.seen ≡ s.seen)
        × (after_step.removed_before_system
            ≡ s.removed_before_system + (if ltb read sys then 1 else 0))
        × (after_step.removed_before_after
            ≡ s.removed_before_after + (if ltb read aft then 1 else 0))
  unfolding dedup_step
  old-fields old =
      rw (here, old)
        (
          refl,
          bump_small (ltb read sys) s.removed_before_system (length rest) a.system_fits,
          bump_small (ltb read aft) s.removed_before_after (length rest) a.after_fits,
        )

  new-fields :
      contains s.seen x ≡ false
      → (after_step.seen ≡ x ∷ s.seen)
        × (after_step.removed_before_system ≡ s.removed_before_system)
        × (after_step.removed_before_after ≡ s.removed_before_after)
  unfolding dedup_step
  new-fields new = rw (here, new) (refl, refl, refl)

  old-Done :
      (r : Dedup)
      → contains s.seen x ≡ true
      → Done sys aft (suc read) ks rest after_step r
      → Done sys aft read ks (x ∷ rest) s r
  unfolding dropped fresh
  old-Done r old d =
      let (seen, system, after) = old-fields old in
      record {
        dirs = d.dirs ∙ rw (seen, old) refl;
        before_system = d.before_system ∙ rw (seen, system, old) (omega arith);
        before_after = d.before_after ∙ rw (seen, after, old) (omega arith);
      }

  new-Done :
      (r : Dedup)
      → contains s.seen x ≡ false
      → Done sys aft (suc read) (ks ++ (x ∷ [])) rest after_step r
      → Done sys aft read ks (x ∷ rest) s r
  unfolding dropped fresh
  new-Done r new d =
      let (seen, system, after) = new-fields new in
      record {
        dirs = d.dirs ∙ rw (seen, new) (append_assoc ks (x ∷ []) (fresh (x ∷ s.seen) rest));
        before_system = d.before_system ∙ rw (seen, system, new) refl;
        before_after = d.before_after ∙ rw (seen, after, new) refl;
      }

module _ (sys aft : ℕ) where
  dedup_loop-Done :
      (rest ks js : List String) (read : ℕ) (s : Dedup)
      → At read ks js rest s
      → Done sys aft read ks rest s (dedup_loop (length rest) sys aft read s)
  unfolding dedup_loop dropped fresh
  dedup_loop-Done [] ks js read s a = record {
    dirs = rw (a.dirs, a.write) (resize-append ks (js ++ []) ∙ sym (append_nil ks));
    before_system = omega arith;
    before_after = omega arith;
  }
  dedup_loop-Done (x ∷ rest) ks js read s a =
      subst
        (λ r.
          Done sys aft read ks (x ∷ rest) s
            (dedup_loop (length rest) sys aft r (dedup_step sys aft read s)))
        (sym (next sys aft read ks js rest x s a))
        (elim (Bool-cases (contains s.seen x)) [
          | inl old ↦ old-Done sys aft read ks js rest x s a _ old (
              dedup_loop-Done rest ks (js ++ (x ∷ [])) (suc read) _
                (old-At sys aft read ks js rest x s a old))
          | inr new ↦ new-Done sys aft read ks js rest x s a _ new (
              dedup_loop-Done rest (ks ++ (x ∷ [])) (shift js x) (suc read) _
                (new-At sys aft read ks js rest x s a new))
        ])

-- The segments of a configuration.
pub record Segments (quoted angled system after : List String) (c : SearchConfig) : Type 0 where
  pub dirs : c.dirs ≡ quoted ++ (angled ++ (system ++ after))
  pub angled_start : c.angled_start_idx ≡ length quoted
  pub system_start : c.system_start_idx ≡ length quoted + length angled
  pub after_start : c.after_start_idx ≡ length quoted + length angled + length system

minus32_small : (a b : ℕ) → b ≤ a → a < u32 → minus32 a b ≡ a - b
unfolding minus32
minus32_small a b h k = omega (arith, h, k)

module _ (g : Groups)
    (fits : length g.quoted + length g.angled + length g.system + length g.after < u32) where
  abbrev rest : List String
  rest = g.angled ++ (g.system ++ g.after)

  abbrev start : ℕ
  start = length g.quoted % u32

  abbrev sys : ℕ
  sys = length (g.quoted ++ g.angled) % u32

  abbrev aft : ℕ
  aft = length ((g.quoted ++ g.angled) ++ g.system) % u32

  abbrev first : Dedup
  first = record {
    dirs = ((g.quoted ++ g.angled) ++ g.system) ++ g.after;
    seen = [];
    write = start;
    removed_before_system = 0;
    removed_before_after = 0;
  }

  start_is : start ≡ length g.quoted
  start_is = omega (arith, fits)

  sys_is : sys ≡ length g.quoted + length g.angled
  sys_is = omega (arith, fits, length-append g.quoted g.angled)

  aft_is : aft ≡ length g.quoted + length g.angled + length g.system
  aft_is =
      omega (
        arith,
        fits,
        length-append g.quoted g.angled,
        length-append (g.quoted ++ g.angled) g.system,
      )

  remaining_lem : length rest ≡ length g.angled + length g.system + length g.after
  remaining_lem =
      omega (arith, length-append g.angled (g.system ++ g.after), length-append g.system g.after)

  all_is : first.dirs ≡ g.quoted ++ ([] ++ rest)
  all_is =
      append_assoc (g.quoted ++ g.angled) g.system g.after
      ∙ append_assoc g.quoted g.angled (g.system ++ g.after)

  count_is : length first.dirs - start ≡ length rest
  count_is =
      omega
        (arith, start_is, ap (λ (xs : List String). length xs) all_is, length-append g.quoted rest)

  first-At : At start g.quoted [] rest first
  first-At = record {
    dirs = all_is;
    write = start_is;
    read_is = omega (arith, start_is);
    fits = omega (arith, remaining_lem, fits);
    system_fits = omega (arith, remaining_lem, fits);
    after_fits = omega (arith, remaining_lem, fits);
  }

  dropped_sys : dropped sys start [] rest + length (fresh [] g.angled) ≡ length g.angled
  dropped_sys =
      dropped-fresh sys start [] g.angled (g.system ++ g.after) (omega (arith, start_is, sys_is))

  dropped_aft :
      dropped aft start [] rest
        + length (fresh [] g.angled)
        + length (fresh (seen_after [] g.angled) g.system)
      ≡ length g.angled + length g.system
  dropped_aft = omega (
    arith,
    subst
        (λ xs.
          dropped aft start [] xs + length (fresh [] (g.angled ++ g.system))
          ≡ length (g.angled ++ g.system))
        (append_assoc g.angled g.system g.after)
        (dropped-fresh aft start [] (g.angled ++ g.system) g.after
          (omega (arith, start_is, aft_is, length-append g.angled g.system))),
    length-append g.angled g.system,
    ap (λ (xs : List String). length xs) (fresh-append [] g.angled g.system),
    length-append (fresh [] g.angled) (fresh (seen_after [] g.angled) g.system),
  )

  finished-Segments :
      (r : Dedup)
      → Done sys aft start g.quoted rest first r
      → Segments g.quoted
          (fresh [] g.angled)
          (fresh (seen_after [] g.angled) g.system)
          (fresh (seen_after (seen_after [] g.angled) g.system) g.after)
          (record {
            dirs = resize r.write r.dirs;
            angled_start_idx = start;
            system_start_idx = minus32 sys r.removed_before_system;
            after_start_idx = minus32 aft r.removed_before_after;
          })
  finished-Segments r d = record {
    dirs =
        d.dirs
        ∙ ap (λ ys. g.quoted ++ ys)
            (fresh-append [] g.angled (g.system ++ g.after)
              ∙ ap (λ ys. fresh [] g.angled ++ ys)
                  (fresh-append (seen_after [] g.angled) g.system g.after));
    angled_start = start_is;
    system_start =
        minus32_small sys r.removed_before_system
          (omega (arith, sys_is, d.before_system, dropped_sys)) (omega (arith, sys_is, fits))
        ∙ omega (arith, sys_is, d.before_system, dropped_sys);
    after_start =
        minus32_small aft r.removed_before_after
          (omega (arith, aft_is, d.before_after, dropped_aft)) (omega (arith, aft_is, fits))
        ∙ omega (arith, aft_is, d.before_after, dropped_aft);
  }

-- Where fewer than 2^32 directories are given, the configuration is the quoted directories followed by
-- the first occurrences of the angled, the system and the after directories, in that order; the start
-- indices are where these segments begin. A quoted directory does not hide a later one.
pub build_config-Segments :
    (g : Groups)
    → length g.quoted + length g.angled + length g.system + length g.after < u32
    → Segments g.quoted
        (fresh [] g.angled)
        (fresh (seen_after [] g.angled) g.system)
        (fresh (seen_after (seen_after [] g.angled) g.system) g.after)
        (build_config g)
unfolding build_config
build_config-Segments g fits = finished-Segments g fits _ (
    subst
      (λ n.
        Done (sys g fits) (aft g fits) (start g fits) g.quoted (rest g fits) (first g fits)
          (dedup_loop n (sys g fits) (aft g fits) (start g fits) (first g fits)))
      (sym (count_is g fits))
      (dedup_loop-Done (sys g fits) (aft g fits) (rest g fits) g.quoted [] (start g fits)
        (first g fits) (first-At g fits)))
