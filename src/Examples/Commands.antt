-- ===== src/Examples/Commands.antt =====
-- Commands that are typed: at the menu, and to the distributed grep.
use cs425_mp.Common.{
  ℕ, ◌≡◌, refl, Bool, true, none, some, [], ◌∷◌, ◌++◌, Bytes, codes, arith, ◌==◌, if◌then◌else◌,
}
use cs425_mp.Wire.{ReturnCode, success, failure}
use cs425_mp.Ui.{Args, parse_command, put}
use cs425_mp.Ui.Commands.{command_text, parse_command-command_text, parse_command-overrun}
use cs425_mp.Dgrep.{retry, Attempts, do_dgrep, status_success, send_script_file}
use cs425_mp.Dgrep.Script.{
  line_test-IsLine, template_text, sent_whole, send_script_file-template_text,
}
use cs425_mp.Dgrep.Retries.{WentWell, do_dgrep-WentWell}

abbrev there : Bytes → Bool
there name = true

abbrev unset : Args
unset k = 7

abbrev put_a_b : Bytes
put_a_b = command_text (put (codes "a") (codes "b")) ++ 0 ∷ codes "c"

parse_command-command_text_example :
    parse_command there unset put_a_b ≡ some (put (codes "a") (codes "b"))
parse_command-command_text_example =
    parse_command-command_text there unset (put (codes "a") (codes "b")) (codes "c") (
      ((omega arith, omega arith, tt), omega arith, omega arith),
      ((omega arith, omega arith, tt), omega arith, omega arith),
      refl,
    )

parse_command-overrun_example : parse_command there unset (codes "get a b c") ≡ none
parse_command-overrun_example =
    parse_command-overrun there unset (codes "get") (codes "a") (codes "b") (b'c') []
      (omega arith, omega arith, (omega arith, omega arith, (omega arith, omega arith, tt)))
      (omega arith) ((omega arith, omega arith, tt), omega arith, omega arith)
      ((omega arith, omega arith, tt), omega arith, omega arith) (omega arith)

-- The second try goes well.
abbrev at_second : ℕ → ReturnCode
at_second i = if i == 1 then success else failure

abbrev eventful : Attempts
eventful = record { has_socket = true; connected = true; script = at_second; execute = at_second }

eventful_succeeds : do_dgrep eventful ≡ status_success
unfolding do_dgrep retry
eventful_succeeds = refl

do_dgrep-WentWell_example : WentWell eventful
do_dgrep-WentWell_example = do_dgrep-WentWell eventful eventful_succeeds

abbrev always : ℕ → ReturnCode
always i = success

send_script_file-template_text_example :
    send_script_file always
      (some (template_text (codes "#!" ∷ codes "##REPLACE USER COMMAND" ∷ []) (codes "ls")))
      (codes "cd /\n")
    ≡ sent_whole always (codes "#!\ncd /\nls")
send_script_file-template_text_example =
    send_script_file-template_text always (codes "cd /\n")
      (codes "#!" ∷ codes "##REPLACE USER COMMAND" ∷ []) (codes "ls")
      (
        line_test-IsLine (codes "#!") refl,
        omega arith,
        (line_test-IsLine (codes "##REPLACE USER COMMAND") refl, omega arith, tt),
      )
      (line_test-IsLine (codes "ls") refl) (omega arith) (omega arith)
