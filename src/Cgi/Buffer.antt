-- ===== src/Cgi/Buffer.antt =====
-- What the buffer of the child's errors keeps.
use simple_git_server.Base.{
  ℕ, zero, suc, ◌-◌, ◌*◌, ◌^◌, ◌≤◌, ◌<◌, ◌≡◌, refl, ap, sym, ◌∙◌, false, List, [], ◌∷◌, ◌++◌, ◌==◌,
  arith, length, take, if◌then◌else◌, ltb, Bool-cases, inl, inr, append-nil, append_assoc,
}
use simple_git_server.Text.{Bytes}
use simple_git_server.Cgi.{LimitedBuffer, write_limited}

-- The writes, one after the other.
abbrev pub writes_limited : LimitedBuffer → List Bytes → LimitedBuffer
writes_limited l [] = l
writes_limited l (p ∷ ps) = writes_limited (write_limited l p) ps

abbrev pub concat : List Bytes → Bytes
concat [] = []
concat (p ∷ ps) = p ++ concat ps

abbrev pub new_buffer : LimitedBuffer
new_buffer = record { buf = []; limit = 0 }

-- The front of two texts, one after the other.
take-append_rest :
    (n : ℕ) (xs p : Bytes) → take n xs ++ take (n - length (take n xs)) p ≡ take n (xs ++ p)
take-append_rest zero xs p = refl
take-append_rest (suc n) [] p = let k : suc n - 0 ≡ suc n = omega arith in ap (λ k. take k p) k
take-append_rest (suc n) (x ∷ xs) p =
    let k : suc n - suc (length (take n xs)) ≡ n - length (take n xs) = omega arith in
    ap (◌∷◌ x) (ap (λ k. take n xs ++ take k p) k ∙ take-append_rest n xs p)

take_all : (n : ℕ) (p : Bytes) → length p ≤ n → take n p ≡ p
take_all zero [] h = refl
take_all zero (x ∷ p) h = absurd (omega (arith, h))
take_all (suc n) [] h = refl
take_all (suc n) (x ∷ p) h = ap (◌∷◌ x) (take_all n p (omega (arith, h)))

take-min : (n : ℕ) (p : Bytes) → take (if ltb (length p) n then length p else n) p ≡ take n p
take-min n p = elim (Bool-cases (ltb (length p) n)) [
  | inr e ↦ rw e refl
  | inl e ↦ rw e (take_all (length p) p (omega arith) ∙ sym (take_all n p (ground (arith, e))))
]

-- One write appends what there is room for.
write_limited-buf :
    (n : ℕ) (all p : Bytes)
    → 0 < n
    → write_limited (record { buf = take n all; limit = n }) p
      ≡ record { buf = take n (all ++ p); limit = n }
unfolding write_limited
write_limited-buf n all p positive =
    let z : (n == 0) ≡ false = ground arith in
    elim (Bool-cases (ltb (length (take n all)) n)) [
      | inl e ↦
          rw (z, e)
            (ap kept (
              ap (λ t. take n all ++ t) (take-min (n - length (take n all)) p)
              ∙ take-append_rest n all p))
      | inr e ↦
          let none_left : 0 ≡ n - length (take n all) = ground (arith, e) in
          rw (z, e)
            (ap kept (
              sym (append-nil (take n all))
              ∙ ap (λ k. take n all ++ take k p) none_left
              ∙ take-append_rest n all p))
    ]
  where
    kept : Bytes → LimitedBuffer
    kept b = record { buf = b; limit = n }

writes_limited-buf :
    (n : ℕ) (all : Bytes) (ps : List Bytes)
    → 0 < n
    → (writes_limited (record { buf = take n all; limit = n }) ps).buf ≡ take n (all ++ concat ps)
writes_limited-buf n all [] positive = ap (take n) (sym (append-nil all))
writes_limited-buf n all (p ∷ ps) positive =
    ap (λ l. (writes_limited l ps).buf) (write_limited-buf n all p positive)
    ∙ writes_limited-buf n (all ++ p) ps positive
    ∙ ap (take n) (append_assoc all p (concat ps))

-- However the child's errors are cut into writes, the buffer keeps their first 64 KiB.
pub new_buffer-keeps :
    (ps : List Bytes) → (writes_limited new_buffer ps).buf ≡ take (64 * 2 ^ 10) (concat ps)
unfolding write_limited
new_buffer-keeps [] = refl
new_buffer-keeps (p ∷ ps) =
    ap (λ b. (writes_limited (record { buf = b; limit = 64 * 2 ^ 10 }) ps).buf)
      (take-min (64 * 2 ^ 10) p)
    ∙ writes_limited-buf (64 * 2 ^ 10) p ps (omega arith)
