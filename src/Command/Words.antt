-- ===== src/Command/Words.antt =====
-- The words of a git command: the services, how they are spelled, and what they need.
use simple_git_server.Base.{
  ◌≡◌, ◌↔◌, inl, inr, refl, ap, ap₂, ◌∙◌, Bool, true, false, List, [], ◌∷◌, ◌++◌, Option, some, ok,
  Bool-cases,
}
use simple_git_server.Text.{Bytes, codes, equal}
use simple_git_server.Text.Laws.{equal_iff}
use simple_git_server.Command.{GitService, receive_pack, upload_pack, classify, allow}

-- How a git client may spell the service: one word with a dash, or two words.
pub data Spelling : Type 0 where
  dashed spaced : Spelling

abbrev pub service_words : Spelling → GitService → List Bytes
service_words dashed receive_pack = codes "git-receive-pack" ∷ []
service_words dashed upload_pack = codes "git-upload-pack" ∷ []
service_words spaced receive_pack = codes "git" ∷ codes "receive-pack" ∷ []
service_words spaced upload_pack = codes "git" ∷ codes "upload-pack" ∷ []

-- The capability that a service needs.
abbrev pub Allowed : GitService → Bool → Bool → Type 0
Allowed upload_pack fetch push = fetch ≡ true
Allowed receive_pack fetch push = push ≡ true

-- The words are a service, spelled either way, and one argument.
pub record Names (words : List Bytes) (service : GitService) (arg : Bytes) : Type 0 where
  pub spelling : Spelling
  pub words_are : words ≡ service_words spelling service ++ arg ∷ []

pub classify_names :
    (spelling : Spelling) (service : GitService) (arg : Bytes)
    → classify (service_words spelling service ++ arg ∷ []) ≡ some (service, arg)
unfolding classify equal
classify_names dashed receive_pack arg = refl
classify_names dashed upload_pack arg = refl
classify_names spaced receive_pack arg = refl
classify_names spaced upload_pack arg = refl

same_service :
    {s t : GitService} {a b : Bytes}
    → ◌≡◌ {A = Option (GitService × Bytes)} (some (s, a)) (some (t, b))
    → (s ≡ t) × (a ≡ b)
same_service h = (cc, cc)

Names-of :
    (spelling : Spelling) (s : GitService) (a : Bytes) {words : List Bytes} {t : GitService}
    {b : Bytes}
    → words ≡ service_words spelling s ++ a ∷ []
    → ◌≡◌ {A = Option (GitService × Bytes)} (some (s, a)) (some (t, b))
    → Names words t b
Names-of spelling s a {words} e h =
    let (p, q) = same_service h in
    record {
      spelling = spelling;
      words_are = e ∙ ap₂ (λ x y. service_words spelling x ++ y ∷ []) p q;
    }

pub classify_sound :
    (words : List Bytes) {service : GitService} {arg : Bytes}
    → classify words ≡ some (service, arg)
    → Names words service arg
unfolding classify
classify_sound [] h = cc
classify_sound (a ∷ []) h = cc
classify_sound (a ∷ b ∷ []) h = elim (Bool-cases (equal a (codes "git-receive-pack"))) [
  | inl e ↦ Names-of dashed receive_pack b (ap (λ x. x ∷ b ∷ []) ((equal_iff a _).0 e)) (rw e at h)
  | inr n ↦ elim (Bool-cases (equal a (codes "git-upload-pack"))) [
    | inl e ↦
        Names-of dashed upload_pack b (ap (λ x. x ∷ b ∷ []) ((equal_iff a _).0 e)) (rw (n, e) at h)
    | inr m ↦ cc (rw (n, m) at h)
  ]
]
classify_sound (a ∷ b ∷ c ∷ []) h = elim (Bool-cases (equal a (codes "git"))) [
  | inr n ↦ cc (rw n at h)
  | inl g ↦ elim (Bool-cases (equal b (codes "receive-pack"))) [
    | inl e ↦
        Names-of spaced receive_pack c
          (ap₂ (λ x y. x ∷ y ∷ c ∷ []) ((equal_iff a _).0 g) ((equal_iff b _).0 e)) (rw (g, e) at h)
    | inr n ↦ elim (Bool-cases (equal b (codes "upload-pack"))) [
      | inl e ↦
          Names-of spaced upload_pack c
            (ap₂ (λ x y. x ∷ y ∷ c ∷ []) ((equal_iff a _).0 g) ((equal_iff b _).0 e))
            (rw (g, n, e) at h)
      | inr m ↦ cc (rw (g, n, m) at h)
    ]
  ]
]
classify_sound (a ∷ b ∷ c ∷ d ∷ ws) h = cc

pub allow_iff :
    (service : GitService) (fetch push : Bool)
    → (allow service fetch push ≡ ok tt) ↔ Allowed service fetch push
unfolding allow
allow_iff upload_pack true push = (λ _. refl, λ _. refl)
allow_iff upload_pack false push = (λ h. cc, λ h. cc)
allow_iff receive_pack fetch true = (λ _. refl, λ _. refl)
allow_iff receive_pack fetch false = (λ h. cc, λ h. cc)
