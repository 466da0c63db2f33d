-- ===== src/RepoPath/Refusals.antt =====
-- Why `resolveRepoPathOpts` refuses a repository name, and the suffix that it gives one.
use simple_git_server.Base.{
  ◌≡◌, ◌⊎◌, inl, inr, refl, sym, ◌∙◌, true, false, [], ◌++◌, err, Bool-cases,
}
use simple_git_server.Text.{Bytes, equal, has_suffix}
use simple_git_server.Text.Laws.{equal_iff}
use simple_git_server.FilePath.{dot, is_abs, clean}
use simple_git_server.FilePath.Clean.{HasNoClimb}
use simple_git_server.GitPath.{has_dot_dot_segment, dot_git}
use simple_git_server.GitPath.Names.{HasNoClimb-has_dot_dot_segment}
use simple_git_server.RepoPath.{
  RepoPathError, empty_repository_path, invalid_repository_path, absolute_not_allowed, with_git,
  check_name,
}

-- Why a name is refused: it is empty, it or what it is cleaned to has a `..` among its parts, it
-- stands for the root itself, or it is absolute.
pub data Refused (repo : Bytes) (e : RepoPathError) : Type 0 where
  empty : repo ≡ [] → e ≡ empty_repository_path → Refused repo e
  climbs : (HasNoClimb repo → ⊥) → e ≡ invalid_repository_path → Refused repo e
  climbs_cleaned : (HasNoClimb (clean repo) → ⊥) → e ≡ invalid_repository_path → Refused repo e
  current : clean repo ≡ dot → e ≡ invalid_repository_path → Refused repo e
  absolute : is_abs (clean repo) ≡ true → e ≡ absolute_not_allowed → Refused repo e

Refused-climb : (p : Bytes) → has_dot_dot_segment p ≡ true → HasNoClimb p → ⊥
Refused-climb p h k = cc (sym h ∙ HasNoClimb-has_dot_dot_segment p k)

pub check_name-Refused :
    (repo : Bytes) {e : RepoPathError} → check_name repo ≡ err e → Refused repo e
unfolding check_name
check_name-Refused repo {e} h = elim (Bool-cases (equal repo [])) [
  | inl a ↦ empty ((equal_iff repo []).0 a) (cc (rw a at h))
  | inr a ↦ elim (Bool-cases (has_dot_dot_segment repo)) [
    | inl b ↦ climbs (Refused-climb repo b) (cc (rw (a, b) at h))
    | inr b ↦ elim (Bool-cases (equal (clean repo) dot)) [
      | inl c ↦ current ((equal_iff (clean repo) dot).0 c) (cc (rw (a, b, c) at h))
      | inr c ↦ elim (Bool-cases (has_dot_dot_segment (clean repo))) [
        | inl d ↦ climbs_cleaned (Refused-climb (clean repo) d) (cc (rw (a, b, c, d) at h))
        | inr d ↦ elim (Bool-cases (is_abs (clean repo))) [
          | inl f ↦ absolute f (cc (rw (a, b, c, d, f) at h))
          | inr f ↦ cc (rw (a, b, c, d, f) at h)
        ]
      ]
    ]
  ]
]

-- The name, with `.git` behind it unless it ends in that.
abbrev pub Suffixed : Bytes → Bytes → Type 0
Suffixed p name =
    ((has_suffix p dot_git ≡ true) × (name ≡ p))
    ⊎ ((has_suffix p dot_git ≡ false) × (name ≡ p ++ dot_git))

pub with_git-Suffixed : (p : Bytes) → Suffixed p (with_git p)
unfolding with_git
with_git-Suffixed p = elim (Bool-cases (has_suffix p dot_git)) [
  | inl e ↦ inl (e, rw e refl)
  | inr e ↦ inr (e, rw e refl)
]
