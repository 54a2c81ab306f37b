-- ===== src/SearchConfig.antt =====
-- src/command/search_config.cpp: the header search directories of a command line. The parsed options
-- are given; `make_absolute` is an argument, since the path library of LLVM does the work.
pub mod Segments
mod Samples
use clice.Base.{
  u32, ℕ, zero, suc, ◌+◌, ◌-◌, ◌%◌, Bool, true, false, Option, none, some, List, [], ◌∷◌, ◌++◌,
  String, length, contains, if◌then◌else◌, ltb, ◌==◌, nat_equality, string_equality,
}

-- An option of the command line that the switch handles, with its value.
pub data SearchOption : Type 0 where
  iquote include_dir isystem internal_isystem internal_externc_isystem iprefix iwithprefix
        iwithprefixbefore idirafter :
      String → SearchOption
  other : SearchOption

-- The four groups and the state of `-iprefix`.
pub record Groups : Type 0 where
  pub quoted : List String
  pub angled : List String
  pub system : List String
  pub after : List String
  pub prefix : String

pub record SearchConfig : Type 0 where
  pub dirs : List String
  pub angled_start_idx : ℕ
  pub system_start_idx : ℕ
  pub after_start_idx : ℕ

-- `join` is the concatenation of the prefix and the value.
module _ (make_absolute : String → String) (join : String → String → String) where
  -- The switch.
  unfoldable pub apply_option : SearchOption → Groups → Groups
  apply_option (iquote v) g = record g { quoted = g.quoted ++ (make_absolute v ∷ []) }
  apply_option (include_dir v) g = record g { angled = g.angled ++ (make_absolute v ∷ []) }
  apply_option (isystem v) g = record g { system = g.system ++ (make_absolute v ∷ []) }
  apply_option (internal_isystem v) g = record g { system = g.system ++ (make_absolute v ∷ []) }
  apply_option (internal_externc_isystem v) g = record g {
    system = g.system ++ (make_absolute v ∷ []);
  }
  apply_option (iprefix v) g = record g { prefix = v }
  apply_option (iwithprefix v) g = record g {
    after = g.after ++ (make_absolute (join g.prefix v) ∷ []);
  }
  apply_option (iwithprefixbefore v) g = record g {
    angled = g.angled ++ (make_absolute (join g.prefix v) ∷ []);
  }
  apply_option (idirafter v) g = record g { after = g.after ++ (make_absolute v ∷ []) }
  apply_option other g = g

  unfoldable pub apply_options : List SearchOption → Groups → Groups
  unfolding apply_option
  apply_options [] g = g
  apply_options (o ∷ os) g = apply_options os (apply_option o g)

-- `dirs[i]` and the write to it; the source stays within the vector.
unfoldable pub dir_at : ℕ → List String → String
dir_at i [] = ""
dir_at zero (x ∷ xs) = x
dir_at (suc i) (x ∷ xs) = dir_at i xs

unfoldable pub set_dir : ℕ → String → List String → List String
set_dir i y [] = []
set_dir zero y (x ∷ xs) = y ∷ xs
set_dir (suc i) y (x ∷ xs) = x ∷ set_dir i y xs

-- `dirs.resize(n)` to a smaller size.
unfoldable pub resize : ℕ → List String → List String
resize zero xs = []
resize (suc n) [] = []
resize (suc n) (x ∷ xs) = x ∷ resize n xs

-- The variables of the loop.
pub record Dedup : Type 0 where
  pub dirs : List String
  pub seen : List String
  pub write : ℕ
  pub removed_before_system : ℕ
  pub removed_before_after : ℕ

unfoldable pub bump : Bool → ℕ → ℕ
bump b n = if b then (n + 1) % u32 else n

-- The body of the loop at `read`. A directory that was moved is read no more.
unfoldable pub dedup_step : ℕ → ℕ → ℕ → Dedup → Dedup
unfolding dir_at set_dir bump
dedup_step system_start after_start read s =
    let path = dir_at read s.dirs in
    if contains s.seen path
    then record s {
      removed_before_system = bump (ltb read system_start) s.removed_before_system;
      removed_before_after = bump (ltb read after_start) s.removed_before_after;
    }
    else record s {
      seen = path ∷ s.seen;
      dirs = if s.write == read then s.dirs else set_dir s.write path s.dirs;
      write = (s.write + 1) % u32;
    }

-- The loop; the first argument counts the directories from `read` to the end.
unfoldable pub dedup_loop : ℕ → ℕ → ℕ → ℕ → Dedup → Dedup
unfolding dedup_step
dedup_loop zero system_start after_start read s = s
dedup_loop (suc n) system_start after_start read s =
    dedup_loop n system_start after_start ((read + 1) % u32)
      (dedup_step system_start after_start read s)

-- `a -= b` on `unsigned`.
unfoldable pub minus32 : ℕ → ℕ → ℕ
minus32 a b = (a + u32 - b) % u32

-- The part of `extract_search_config` behind the loop over the options.
unfoldable pub build_config : Groups → SearchConfig
unfolding dedup_loop resize minus32
build_config g =
    let start = length g.quoted % u32 in
    let system_start = length (g.quoted ++ g.angled) % u32 in
    let after_start = length ((g.quoted ++ g.angled) ++ g.system) % u32 in
    let all = ((g.quoted ++ g.angled) ++ g.system) ++ g.after in
    let s = dedup_loop (length all - start) system_start after_start start (record {
      dirs = all;
      seen = [];
      write = start;
      removed_before_system = 0;
      removed_before_after = 0;
    }) in
    record {
      dirs = resize s.write s.dirs;
      angled_start_idx = start;
      system_start_idx = minus32 system_start s.removed_before_system;
      after_start_idx = minus32 after_start s.removed_before_after;
    }

unfoldable pub extract_search_config :
    (String → String) → (String → String → String) → List SearchOption → SearchConfig
unfolding apply_options build_config
extract_search_config make_absolute join options = build_config (
    apply_options make_absolute join options
      (record { quoted = []; angled = []; system = []; after = []; prefix = "" }))
