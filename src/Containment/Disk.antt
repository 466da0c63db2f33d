-- ===== src/Containment/Disk.antt =====
-- A small file system with a symlink that leads out of the root, for the tests.
use simple_git_server.Base.{
  ◌≡◌, refl, [], ◌∷◌, if◌then◌else◌, arith, Result, ok, err, Bool-cases, inl, inr, sym, subst, ◌⊎◌,
}
use simple_git_server.Text.{Bytes, codes, equal, join}
use simple_git_server.FilePath.{render}
use simple_git_server.FilePath.Names.{IsPart}
use simple_git_server.Containment.{FsError, not_exist, FileSystem, directory}
use simple_git_server.Containment.Paths.{IsNamed, Resolves}

abbrev pub srv : Bytes
srv = codes "/srv"

abbrev pub inside : Bytes
inside = codes "/srv/r.git"

abbrev pub outside : Bytes
outside = codes "/etc"

-- `/srv/x.git` is a symlink to `/etc`.
abbrev pub resolve_link : Bytes → Result FsError Bytes
resolve_link p =
    if equal p srv
    then ok srv
    else if equal p inside
    then ok inside
    else if equal p outside
    then ok outside
    else if equal p (codes "/srv/x.git")
    then ok outside
    else err not_exist

abbrev pub disk : FileSystem
disk = record { eval_symlinks = resolve_link; stat = λ _. ok directory }

pub srv-IsPart : IsPart (codes "srv")
srv-IsPart = record {
  ne_nil = λ e. ground arith;
  ne_dot = λ e. ground arith;
  ne_dot_dot = λ e. ground arith;
  one = omega arith;
}

pub repo-IsPart : IsPart (codes "r.git")
repo-IsPart = record {
  ne_nil = λ e. ground arith;
  ne_dot = λ e. ground arith;
  ne_dot_dot = λ e. ground arith;
  one = omega arith;
}

pub etc-IsPart : IsPart (codes "etc")
etc-IsPart = record {
  ne_nil = λ e. ground arith;
  ne_dot = λ e. ground arith;
  ne_dot_dot = λ e. ground arith;
  one = omega arith;
}

pub srv-IsNamed : IsNamed srv
srv-IsNamed = (codes "srv" ∷ [], (srv-IsPart, tt), unfold render join in refl)

inside-IsNamed : IsNamed inside
inside-IsNamed =
    (codes "srv" ∷ codes "r.git" ∷ [], (srv-IsPart, (repo-IsPart, tt)), unfold render join in refl)

outside-IsNamed : IsNamed outside
outside-IsNamed = (codes "etc" ∷ [], (etc-IsPart, tt), unfold render join in refl)

three_targets : (p q : Bytes) → resolve_link p ≡ ok q → (q ≡ srv) ⊎ ((q ≡ inside) ⊎ (q ≡ outside))
three_targets p q e = elim (Bool-cases (equal p srv)) [
  | inl a ↦ inl (cc (rw a at e))
  | inr a ↦ elim (Bool-cases (equal p inside)) [
    | inl b ↦ inr (inl (cc (rw (a, b) at e)))
    | inr b ↦ elim (Bool-cases (equal p outside)) [
      | inl c ↦ inr (inr (cc (rw (a, b, c) at e)))
      | inr c ↦ elim (Bool-cases (equal p (codes "/srv/x.git"))) [
        | inl d ↦ inr (inr (cc (rw (a, b, c, d) at e)))
        | inr d ↦ cc (rw (a, b, c, d) at e)
      ]
    ]
  ]
]

target-IsNamed : (q : Bytes) → (q ≡ srv) ⊎ ((q ≡ inside) ⊎ (q ≡ outside)) → IsNamed q
target-IsNamed q (inl e) = subst IsNamed (sym e) srv-IsNamed
target-IsNamed q (inr (inl e)) = subst IsNamed (sym e) inside-IsNamed
target-IsNamed q (inr (inr e)) = subst IsNamed (sym e) outside-IsNamed

target_again : (q : Bytes) → (q ≡ srv) ⊎ ((q ≡ inside) ⊎ (q ≡ outside)) → resolve_link q ≡ ok q
unfolding equal
target_again q (inl e) = rw e refl
target_again q (inr (inl e)) = rw e refl
target_again q (inr (inr e)) = rw e refl

pub disk_sane : Resolves disk
disk_sane = record {
  named = λ p q abs e. target-IsNamed q (three_targets p q e);
  again = λ p q e. target_again q (three_targets p q e);
}
