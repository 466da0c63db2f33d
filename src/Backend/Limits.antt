-- ===== src/Backend/Limits.antt =====
-- What the limits on a request do not cover.
use simple_git_server.Base.{
  ℕ, zero, suc, ◌<◌, ◌≡◌, refl, ap, sym, subst, List, [], ◌∷◌, ◌++◌, arith, length, none, negsuc,
}
use simple_git_server.Text.{Bytes, codes, equal}
use simple_git_server.Dict.{lookup}
use simple_git_server.Config.{ServerConfig}
use simple_git_server.Backend.{
  HttpRequest, header_get, check_cgi_env_limits, ServerEnv, git_backend_env, optional,
  content_length_entry,
}

-- Some entry of the list is longer than this.
pub data HasLonger (n : ℕ) : List Bytes → Type 0 where
  here : {e : Bytes} {es : List Bytes} → n < length e → HasLonger n (e ∷ es)
  there : {e : Bytes} {es : List Bytes} → HasLonger n es → HasLonger n (e ∷ es)

HasLonger-right : (n : ℕ) (xs ys : List Bytes) → HasLonger n ys → HasLonger n (xs ++ ys)
HasLonger-right n [] ys h = h
HasLonger-right n (x ∷ xs) ys h = there (HasLonger-right n xs ys h)

filler : ℕ → Bytes
filler zero = []
filler (suc n) = b'a' ∷ filler n

length-filler : (n : ℕ) → length (filler n) ≡ n
unfolding filler
length-filler zero = refl
length-filler (suc n) = ap suc (length-filler n)

-- A request with one long header.
long_request : ℕ → HttpRequest
long_request n = record {
  method = codes "GET";
  path = codes "/r.git/info/refs";
  raw_query = [];
  header = (codes "Git-Protocol", b'v' ∷ filler n) ∷ [];
  content_length = negsuc 0;
  remote_addr = [];
  proto = codes "HTTP/1.1";
}

passes_limits : (n : ℕ) → check_cgi_env_limits (long_request n) ≡ none
unfolding check_cgi_env_limits header_get long_request equal
passes_limits n = refl

long_optional : (n : ℕ) → HasLonger n (optional (codes "HTTP_GIT_PROTOCOL=") (b'v' ∷ filler n))
unfolding equal
long_optional n = here (omega (arith, length-filler n))

has_protocol : (n : ℕ) → header_get (long_request n) (codes "Git-Protocol") ≡ b'v' ∷ filler n
unfolding header_get long_request equal lookup
has_protocol n = refl

-- A list whose last part has a long entry, behind the fixed entries and the optional ones.
at_the_end :
    (n : ℕ) (a b c d e f g h i j k : Bytes) (v w x y z last : List Bytes)
    → HasLonger n last
    → HasLonger n
        (a ∷ b ∷ c ∷ d ∷ e ∷ f ∷ g ∷ h ∷ i ∷ j ∷ k ∷ (v ++ (w ++ (x ++ (y ++ (z ++ last))))))
at_the_end n a b c d e f g h i j k v w x y z last long = there (
    there (
      there (
        there (
          there (
            there (
              there (
                there (
                  there (
                    there (
                      there (
                        HasLonger-right n v _ (
                          HasLonger-right n w _ (
                            HasLonger-right n x _
                              (HasLonger-right n y _ (HasLonger-right n z _ long)))))))))))))))

-- The limits do not bound the environment of the command: for every length there is a request that
-- passes them and that puts a longer entry there, by way of its `Git-Protocol` header.
pub git_backend_env_unlimited :
    (env : ServerEnv) (cfg : ServerConfig) (path : Bytes) (n : ℕ)
    → (r : HttpRequest) × (check_cgi_env_limits r ≡ none)
      × HasLonger n (git_backend_env env cfg path r)
unfolding git_backend_env
git_backend_env_unlimited env cfg path n = (
  long_request n,
  passes_limits n,
  at_the_end n _ _ _ _ _ _ _ _ _ _ _ (optional (codes "HOME=") env.home)
      (optional (codes "CONTENT_TYPE=") (header_get (long_request n) (codes "Content-Type")))
      (content_length_entry (long_request n).content_length)
      (optional (codes "HTTP_AUTHORIZATION=") (header_get (long_request n) (codes "Authorization")))
      (optional (codes "HTTP_CONTENT_ENCODING=")
        (header_get (long_request n) (codes "Content-Encoding")))
      _
      (subst (λ v. HasLonger n (optional (codes "HTTP_GIT_PROTOCOL=") v)) (sym (has_protocol n))
        (long_optional n)),
)
