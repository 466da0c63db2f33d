-- ===== src/Cgi/Tests.antt =====
-- Outputs of a CGI child, and instances of the theorems on them.
use simple_git_server.Base.{map, ◌≡◌, refl, [], ◌∷◌, arith, ok, err, pos}
use simple_git_server.Text.{Bytes, codes, equal, split, join, before, after?, has_byte}
use simple_git_server.Text.Unicode.{trim_space, first_field, equal_fold}
use simple_git_server.Cgi.{
  atoi, status_of, trim_line, strip_line_end, malformed, truncated, read_headers,
  write_cgi_response, writes, too_large, no_body_error, aborted, valid_status, error_page,
  run_git_cgi, canonical_key,
}
use simple_git_server.Cgi.Headers.{canonical, IsField, render_response, write_cgi_response-render}

abbrev not_found : Bytes
not_found = codes "status: 404 Not Found\r\nExpires: 0\n\nmissing\n"

-- The status is taken from its header, and a line may end in a line feed alone.
statuses :
    (write_cgi_response not_found
      ≡ ok (record {
        status = pos 404;
        headers = (codes "Expires", codes "0") ∷ [];
        body = codes "missing\n";
      }))
    × (write_cgi_response (codes "Expires 0\n\n") ≡ err malformed)
    × (write_cgi_response (codes "Expires: 0\n") ≡ err truncated)
    × (run_git_cgi (writes []) too_large ≡ error_page 413 (codes "request body too large"))
unfolding write_cgi_response read_headers canonical_key trim_line strip_line_end equal split join
    before after? has_byte trim_space first_field equal_fold status_of atoi run_git_cgi
statuses = (refl, refl, refl, refl)

-- A name is spelled as `net/http` spells it, and one that is no token is left alone; a status of two
-- digits ends the handler.
names :
    (canonical_key (codes "content-TYPE") ≡ codes "Content-Type")
    × (canonical_key (codes "two words") ≡ codes "two words")
    × (run_git_cgi (writes (codes "Status: 99\n\n")) no_body_error ≡ aborted)
unfolding write_cgi_response read_headers canonical_key trim_line strip_line_end equal split join
    before after? has_byte trim_space first_field equal_fold status_of atoi run_git_cgi valid_status
names = (refl, refl, refl)

abbrev expires : Bytes × Bytes
expires = (codes "Expires", codes "Fri, 01 Jan 1980")

expires_is : IsField expires
unfolding trim_space equal_fold equal
expires_is = record {
  key_trimmed = refl;
  key_lacks_colon = ground arith;
  key_lacks_feed = ground arith;
  key_other = refl;
  front = codes "Fri, 01 Jan 198";
  last = b'0';
  value_is = refl;
  last_print = omega arith;
  value_trimmed = refl;
  value_lacks_feed = ground arith;
}

write_cgi_response-render_example :
    write_cgi_response (render_response (expires ∷ []) (codes "PACK\n"))
    ≡ ok
        (record { status = pos 200; headers = map canonical (expires ∷ []); body = codes "PACK\n" })
write_cgi_response-render_example =
    write_cgi_response-render (expires ∷ []) (codes "PACK\n") (expires_is, tt)
