-- ===== src/GlobPattern/Prefix.antt =====
-- src/support/glob_pattern.cpp: the check of the prefix for repeated slashes.
use clice.Base.{
  u64, ℕ, ◌+◌, ◌-◌, ◌%◌, ◌<◌, ◌≡◌, refl, [], ◌∷◌, length, contains, nat_equality, arith,
}
use clice.GlobPattern.{Bytes, rejects_slash}

-- From the second byte on, the byte before is always the one that was looked at last.
rejects_slash-later :
    (i : ℕ) (s : Bytes) → i + 1 + length s < u64 → rejects_slash (i + 1) i s ≡ contains s b'/'
unfolding rejects_slash contains
rejects_slash-later i [] l = refl
rejects_slash-later i (c ∷ cs) l =
    let rest = rejects_slash-later (i + 1) cs (omega (arith, l)) in
    let step : (i + 1 + u64 - i) % u64 ≡ 1 = omega arith in ground (arith, rest, step)

-- The check for repeated slashes, which sets the last slash at every byte, refuses a prefix of fewer than
-- 2^64 bytes exactly when a slash stands anywhere behind its first byte.
pub rejects_slash-contains :
    (c : ℕ) (cs : Bytes) → length (c ∷ cs) < u64 → rejects_slash 0 0 (c ∷ cs) ≡ contains cs b'/'
unfolding rejects_slash
rejects_slash-contains c cs l =
    let rest = rejects_slash-later 0 cs (omega (arith, l)) in ground (arith, rest)
