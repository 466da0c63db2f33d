-- ===== src/Cgi/Headers.antt =====
-- Reading back the headers that a CGI child writes.
use simple_git_server.Base.{
  ℕ, ◌≡◌, ◌≢◌, refl, ap, ap₂, sym, ◌∙◌, true, false, List, [], ◌∷◌, ◌++◌, ◌==◌, reverse, arith, All,
  All-append, Bool-cases, inl, inr, some, ok, ℤ, pos, append_assoc, append-nil, subst, map,
}
use mathlib.Core.List.{reverse-append, reverse-reverse}
use simple_git_server.Text.{Bytes, codes, equal, split, join, after?, has_byte, grow_head}
use simple_git_server.Text.Laws.{Lacks, equal_ne, split-cons, split-ne-nil, before-append}
use simple_git_server.Text.Unicode.{trim_space, trim_space-blank, equal_fold, IsPrint}
use simple_git_server.Cgi.{
  strip_line_end, trim_line, read_headers, canonical_key, write_cgi_response,
}

-- A header that survives the reading: its parts are trimmed, and it is not the status.
pub record IsField (f : Bytes × Bytes) : Type 0 where
  pub key_trimmed : trim_space f.0 ≡ f.0
  pub key_lacks_colon : Lacks b':' f.0
  pub key_lacks_feed : Lacks b'\n' f.0
  pub key_other : equal_fold f.0 (codes "Status") ≡ false
  pub front : Bytes
  pub last : ℕ
  pub value_is : f.1 ≡ front ++ last ∷ []
  pub last_print : IsPrint last
  pub value_trimmed : trim_space f.1 ≡ f.1
  pub value_lacks_feed : Lacks b'\n' f.1

-- The header under its canonical name.
abbrev pub canonical : Bytes × Bytes → Bytes × Bytes
canonical f = (canonical_key f.0, f.1)

abbrev field_line : Bytes → Bytes → Bytes
field_line key value = key ++ (b':' ∷ b' ' ∷ value)

-- The output of a child: the headers, an empty line, the body.
abbrev pub render_response : List (Bytes × Bytes) → Bytes → Bytes
render_response [] body = b'\r' ∷ b'\n' ∷ body
render_response ((key, value) ∷ fs) body =
    (field_line key value ++ b'\r' ∷ []) ++ (b'\n' ∷ render_response fs body)

join-grow_head : (c b : ℕ) (ps : List Bytes) → join (grow_head c ps) b ≡ c ∷ join ps b
unfolding join
join-grow_head c b [] = refl
join-grow_head c b (p ∷ []) = refl
join-grow_head c b (p ∷ q ∷ ps) = refl

join-nil-cons : (b : ℕ) (ps : List Bytes) → ps ≢ [] → join ([] ∷ ps) b ≡ b ∷ join ps b
unfolding join
join-nil-cons b [] h = absurd (h refl)
join-nil-cons b (p ∷ ps) h = refl

-- Joining undoes splitting.
pub join-split : (s : Bytes) (b : ℕ) → join (split s b) b ≡ s
unfolding split
join-split [] b = unfold join in refl
join-split (c ∷ s) b = elim (Bool-cases (c == b)) [
  | inl e ↦ rw e (
      join-nil-cons b (split s b) (split-ne-nil s b)
      ∙ ap (◌∷◌ b) (join-split s b)
      ∙ ap (λ x. x ∷ s) (ground arith))
  | inr e ↦ rw e (join-grow_head c b (split s b) ∙ ap (◌∷◌ c) (join-split s b))
]

after-append : (p s : Bytes) (b : ℕ) → Lacks b p → after? (p ++ (b ∷ s)) b ≡ some s
unfolding after?
after-append [] s b h = ground arith
after-append (c ∷ p) s b (hc, h) = ground (arith, after-append p s b h)

has_byte-append : (p s : Bytes) (b : ℕ) → has_byte (p ++ (b ∷ s)) b ≡ true
unfolding has_byte
has_byte-append [] s b = ground arith
has_byte-append (c ∷ p) s b = ground (arith, has_byte-append p s b)

strip_print : (d : ℕ) (s : Bytes) → IsPrint d → strip_line_end (d ∷ s) ≡ d ∷ s
unfolding strip_line_end
strip_print d s h = ground arith

-- A carriage return behind a printed byte is all that is cut.
trim_line-return :
    (s : Bytes) (d : ℕ) → IsPrint d → trim_line ((s ++ d ∷ []) ++ b'\r' ∷ []) ≡ s ++ d ∷ []
unfolding trim_line strip_line_end
trim_line-return s d h =
    rw
      (
        reverse-append (s ++ d ∷ []) (b'\r' ∷ []),
        reverse-append s (d ∷ []),
        strip_print d (reverse s) h,
      )
      (reverse-append (d ∷ []) (reverse s) ∙ ap (λ t. t ++ d ∷ []) (reverse-reverse s))

line-ne-nil : (key value : Bytes) → field_line key value ≢ []
line-ne-nil [] value e = ground arith
line-ne-nil (c ∷ key) value e = ground arith

-- The line of a header, when the line end is cut.
trim_field :
    (f : Bytes × Bytes)
    → IsField f
    → trim_line (field_line f.0 f.1 ++ b'\r' ∷ []) ≡ field_line f.0 f.1
trim_field f h =
    subst (λ v. trim_line (field_line f.0 v ++ b'\r' ∷ []) ≡ field_line f.0 v) (sym h.value_is)
      (subst (λ t. trim_line (t ++ b'\r' ∷ []) ≡ t)
        (append_assoc f.0 (b':' ∷ b' ' ∷ h.front) (h.last ∷ []))
        (trim_line-return (f.0 ++ (b':' ∷ b' ' ∷ h.front)) h.last h.last_print))

-- One header line is read as the header.
read_field :
    (f : Bytes × Bytes) (ls : List Bytes) (status : ℤ) (fs : List (Bytes × Bytes))
    → IsField f
    → ls ≢ []
    → read_headers ((field_line f.0 f.1 ++ b'\r' ∷ []) ∷ ls) status fs
      ≡ read_headers ls status (fs ++ canonical f ∷ [])
unfolding read_headers
read_field f [] status fs h ne = absurd (ne refl)
read_field f (next ∷ rest) status fs h ne =
    let line = trim_field f h in
    let key = before-append f.0 (b' ' ∷ f.1) b':' h.key_lacks_colon in
    rw
      (
        line,
        equal_ne (field_line f.0 f.1) [] (line-ne-nil f.0 f.1),
        line,
        has_byte-append f.0 (b' ' ∷ f.1) b':',
        line,
        key,
        h.key_trimmed,
        h.key_other,
        line,
        key,
        h.key_trimmed,
        after-append f.0 (b' ' ∷ f.1) b':' h.key_lacks_colon,
        trim_space-blank f.1,
        h.value_trimmed,
        read_headers,
      )
      refl

line-Lacks : (f : Bytes × Bytes) → IsField f → Lacks b'\n' (field_line f.0 f.1 ++ b'\r' ∷ [])
line-Lacks f h =
    All-append (λ c. c ≢ b'\n') (field_line f.0 f.1) (b'\r' ∷ [])
      (All-append (λ c. c ≢ b'\n') f.0 (b':' ∷ b' ' ∷ f.1) h.key_lacks_feed
        (ground arith, (ground arith, h.value_lacks_feed)))
      (ground arith)

-- The empty line ends the headers.
read_end :
    (ls : List Bytes) (status : ℤ) (fs : List (Bytes × Bytes))
    → ls ≢ []
    → read_headers ((b'\r' ∷ []) ∷ ls) status fs
      ≡ ok (record { status = status; headers = fs; body = join ls b'\n' })
unfolding read_headers trim_line strip_line_end equal
read_end [] status fs ne = absurd (ne refl)
read_end (next ∷ rest) status fs ne = refl

read-render :
    (fs gs : List (Bytes × Bytes)) (body : Bytes) (status : ℤ)
    → All IsField fs
    → read_headers (split (render_response fs body) b'\n') status gs
      ≡ ok (record { status = status; headers = gs ++ map canonical fs; body = body })
read-render [] gs body status h =
    ap (λ ls. read_headers ls status gs) (split-cons (b'\r' ∷ []) body b'\n' (ground arith))
    ∙ read_end (split body b'\n') status gs (split-ne-nil body b'\n')
    ∙ ap₂ (λ hs b. ok (record { status = status; headers = hs; body = b })) (sym (append-nil gs))
        (join-split body b'\n')
read-render (f ∷ fs) gs body status (hf, h) =
    ap (λ ls. read_headers ls status gs)
      (split-cons (field_line f.0 f.1 ++ b'\r' ∷ []) (render_response fs body) b'\n'
        (line-Lacks f hf))
    ∙ read_field f (split (render_response fs body) b'\n') status gs hf
        (split-ne-nil (render_response fs body) b'\n')
    ∙ read-render fs (gs ++ canonical f ∷ []) body status h
    ∙ ap (λ hs. ok (record { status = status; headers = hs; body = body }))
        (append_assoc gs (canonical f ∷ []) (map canonical fs))

-- The response to a child that writes headers and a body has the status 200, that body byte for
-- byte, and for every header one that is added under its canonical name with its value byte for
-- byte, so that the values of a name keep their order. The names are trimmed, without a colon or a
-- line feed, and not `Status`; the values are trimmed, without a line feed, and end in a printed
-- byte.
pub write_cgi_response-render :
    (fs : List (Bytes × Bytes)) (body : Bytes)
    → All IsField fs
    → write_cgi_response (render_response fs body)
      ≡ ok (record { status = pos 200; headers = map canonical fs; body = body })
unfolding write_cgi_response
write_cgi_response-render fs body h = read-render fs [] body (pos 200) h
