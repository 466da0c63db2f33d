-- ===== src/SshMain/Tests.antt =====
-- Flags and signals of the SSH server, and instances of the theorems on them.
use simple_git_server.Base.{
  ℕ, ◌-◌, ◌/◌, ◌*◌, ◌≡◌, refl, true, false, List, [], ◌∷◌, ◌++◌, map, Option, some, none, Result,
  ok, err, pos, negsuc, arith,
}
use simple_git_server.Dict.{lookup}
use simple_git_server.Text.{Bytes, codes, equal, before, after?, has_byte}
use simple_git_server.Text.Decimal.{leading_int}
use simple_git_server.Text.Numbers.{parse_bool, parse_int, parse_uint, read_digits, digit_value}
use simple_git_server.Duration.{
  parse_duration, parse_unsigned, parse_terms, add_term, unit_of, split_unit, split_digits,
  split_fraction,
}
use simple_git_server.Auth.{KeyLine, KeyStore}
use simple_git_server.Auth.Store.{last_read, Reflects}
use simple_git_server.Flag.{
  FlagError, read_arg, flags_of, parse_one, parse_args, set_kind, bad_value, needs_argument,
  help_requested, bad_syntax,
}
use simple_git_server.Supervise.{ssh_read_write_args}
use simple_git_server.Supervise.Tests.{small}
use simple_git_server.SshMain.{
  SshFlags, default_ssh_flags, parse_ssh_flags, check_ssh_flags, host_key_required, serves_nothing,
  accept_error, sighup, terminated, main_loop, wait_for_git_wg,
}
use simple_git_server.SshMain.Handover.{handed_over, parse_ssh_flags-ssh_read_write_args}
use simple_git_server.SshMain.Reload.{closing, main_loop-Reflects}

-- The fraction of a unit that one digit stands for.
abbrev tenths : ℕ → Bytes → ℕ
tenths unit [] = 0
tenths unit (c ∷ s) = unit / 10 * (c - b'0')

abbrev parsed : List Bytes → Result FlagError (SshFlags × List Bytes)
parsed args = parse_ssh_flags tenths args

flags_read :
    (parsed (
        codes "-git-idle-timeout"
        ∷ codes "1.5m"
        ∷ codes "--git-max-concurrent=0x10"
        ∷ codes "--"
        ∷ codes "-x"
        ∷ [])
      ≡ ok (
        record default_ssh_flags {
          git_idle_timeout = pos 90000000000;
          git_max_concurrent = pos 16;
        },
        codes "-x" ∷ [],
      ))
    × (parsed (codes "--git-idle-timeout=-3ns" ∷ [])
        ≡ ok (record default_ssh_flags { git_idle_timeout = negsuc 2 }, []))
    × (parsed (codes "--enable-ssh-read=maybe" ∷ []) ≡ err bad_value)
    × (parsed (codes "--ssh-on" ∷ []) ≡ err needs_argument)
    × (parsed (codes "---ssh-on" ∷ []) ≡ err bad_syntax)
    × (parsed (codes "-h" ∷ []) ≡ err help_requested)
unfolding parse_ssh_flags parse_args parse_one read_arg flags_of set_kind lookup equal before after?
    parse_bool parse_int parse_uint read_digits digit_value parse_duration parse_unsigned
    parse_terms add_term unit_of split_unit split_digits split_fraction leading_int has_byte
flags_read = (refl, refl, refl, refl, refl, refl)

checks :
    (check_ssh_flags default_ssh_flags ≡ err host_key_required)
    × (check_ssh_flags (record default_ssh_flags {
      ssh_host_key = codes "k";
      ssh_authorized_keys = codes "a";
      enable_ssh_read = false;
    })
        ≡ err serves_nothing)
unfolding check_ssh_flags equal
checks = (refl, refl)

grace : (wait_for_git_wg 3000 (some 20) ≡ (20, false)) × (wait_for_git_wg 3000 none ≡ (3000, true))
unfolding wait_for_git_wg
grace = (refl, refl)

parse_ssh_flags-ssh_read_write_args_example :
    parse_ssh_flags tenths (ssh_read_write_args small) ≡ ok (handed_over small, [])
parse_ssh_flags-ssh_read_write_args_example =
    parse_ssh_flags-ssh_read_write_args tenths small 90 (omega arith) (omega arith) refl
      (omega arith)

-- A line is a key.
abbrev whole_line : Bytes → Option (KeyLine Bytes)
whole_line s = some (record { key = s; comment = []; options = [] })

abbrev same : Bytes → Bytes
same k = k

abbrev blank : KeyStore Bytes
blank = record { path = codes "/keys"; keys = none }

abbrev reads : List (Option Bytes)
reads = some (codes "k1\nk2\n") ∷ none ∷ some (codes "k2\n") ∷ []

main_loop-Reflects_example :
    Reflects same whole_line
      (main_loop same whole_line blank (map sighup reads)).0
      (last_read same whole_line none reads)
    × ((main_loop same whole_line blank (map sighup reads)).1 ≡ [])
    × Reflects same whole_line
        (main_loop same whole_line blank (map sighup reads ++ (terminated ∷ accept_error ∷ []))).0
        (last_read same whole_line none reads)
    × ((main_loop same whole_line blank (map sighup reads ++ (terminated ∷ accept_error ∷ []))).1
        ≡ closing terminated)
main_loop-Reflects_example =
    main_loop-Reflects same whole_line blank none reads terminated (accept_error ∷ []) tt
      (λ read e. cc)
