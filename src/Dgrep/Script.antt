-- ===== src/Dgrep/Script.antt =====
-- The script that the client sends.
use cs425_mp.Common.{
  ℕ, zero, suc, ◌+◌, ◌≡◌, ◌≤◌, ◌<◌, ◌≢◌, refl, ◌∙◌, ap, Bool, true, false, Option, none, some, List,
  [], ◌∷◌, ◌++◌, append_assoc, Bytes, ◌==◌, ==_false, ltb→lt, Bool-cases, inl, inr, ◌&&◌, not, ltb,
  le→ltb_false, arith, if◌then◌else◌, length, length-append, bytes_eq, cstr-text, IsText,
}
use cs425_mp.Wire.{ReturnCode, set_flag}
use cs425_mp.Transfer.{Message, ftp_request, ftp_start, ftp_stop}
use cs425_mp.Admission.{fgets}
use cs425_mp.Dgrep.{
  hit_eof, marker, payload_room, script_name, Pending, script_message, started_flags, take_line,
  last_message, next_message, send_script_loop, send_script_file, sent_before, going,
}

-- A line without its end: no NUL, no line feed.
abbrev pub IsLine : Bytes → Type 0
IsLine [] = Unit
IsLine (b ∷ bs) = (0 < b) × (b ≢ 10) × IsLine bs

-- The same, as a test.
abbrev pub line_test : Bytes → Bool
line_test [] = true
line_test (b ∷ bs) = if ltb 0 b && not (b == 10) then line_test bs else false

pub line_test-IsLine : (l : Bytes) → line_test l ≡ true → IsLine l
line_test-IsLine [] e = tt
line_test-IsLine (b ∷ bs) e = elim (Bool-cases (ltb 0 b)) [
  | inl x ↦ elim (Bool-cases (b == 10)) [
    | inl y ↦ absurd (ground (arith, rw (x, y) at e))
    | inr y ↦ (ltb→lt 0 b x, ground arith, line_test-IsLine bs (rw (x, y) at e))
  ]
  | inr x ↦ absurd (ground (arith, rw (x) at e))
]

abbrev pub AreLines : List Bytes → Type 0
AreLines [] = Unit
AreLines (l ∷ ls) = IsLine l × (length l < 999) × AreLines ls

-- The template: whole lines, and what stands behind the last line feed.
abbrev pub template_text : List Bytes → Bytes → Bytes
template_text [] last = last
template_text (l ∷ ls) last = l ++ 10 ∷ template_text ls last

-- A line, or the command in its place.
abbrev pub fill : Bytes → Bytes → Bytes
fill command line = if bytes_eq line marker then command else line

-- The script: the filled lines, and at the end what stands behind the last line feed; but where nothing
-- stands there, the last line once more, `held`.
abbrev pub script_text : Bytes → Bytes → List Bytes → Bytes → Bytes
script_text command held [] [] = fill command held
script_text command held [] (b ∷ last) = fill command (b ∷ last)
script_text command held (l ∷ ls) last =
    fill command (l ++ 10 ∷ []) ++ script_text command (fill command (l ++ 10 ∷ [])) ls last

pub fgets-whole_line :
    (n : ℕ) (l rest : Bytes)
    → IsLine l
    → length l < n
    → fgets n (l ++ 10 ∷ rest) ≡ (l ++ 10 ∷ [], rest)
unfolding fgets
fgets-whole_line zero l rest w h = absurd (omega arith)
fgets-whole_line (suc n) [] rest w h = refl
fgets-whole_line (suc n) (b ∷ l) rest w h =
    let e : (b == 10) ≡ false = ==_false b 10 w.1 in
    rw (fgets-whole_line n l rest w.2 (omega arith), e) refl

hit_eof-whole_line :
    (n : ℕ) (l rest : Bytes) → IsLine l → length l < n → hit_eof n (l ++ 10 ∷ rest) ≡ false
unfolding hit_eof
hit_eof-whole_line zero l rest w h = absurd (omega arith)
hit_eof-whole_line (suc n) [] rest w h = refl
hit_eof-whole_line (suc n) (b ∷ l) rest w h =
    let e : (b == 10) ≡ false = ==_false b 10 w.1 in
    rw (hit_eof-whole_line n l rest w.2 (omega arith), e) refl

fgets-rest : (n : ℕ) (l : Bytes) → IsLine l → length l < n → fgets n l ≡ (l, [])
unfolding fgets
fgets-rest zero l w h = absurd (omega arith)
fgets-rest (suc n) [] w h = refl
fgets-rest (suc n) (b ∷ l) w h =
    let e : (b == 10) ≡ false = ==_false b 10 w.1 in rw (fgets-rest n l w.2 (omega arith), e) refl

hit_eof-rest : (n : ℕ) (l : Bytes) → IsLine l → length l < n → hit_eof n l ≡ true
unfolding hit_eof
hit_eof-rest zero l w h = absurd (omega arith)
hit_eof-rest (suc n) [] w h = refl
hit_eof-rest (suc n) (b ∷ l) w h =
    let e : (b == 10) ≡ false = ==_false b 10 w.1 in rw (hit_eof-rest n l w.2 (omega arith), e) refl

pub IsLine-IsText : (l : Bytes) → IsLine l → IsText l
IsLine-IsText [] w = tt
IsLine-IsText (b ∷ l) w = (w.0, IsLine-IsText l w.2)

pub line-IsText : (l : Bytes) → IsLine l → IsText (l ++ 10 ∷ [])
line-IsText [] w = (omega arith, tt)
line-IsText (b ∷ l) w = (w.0, line-IsText l w.2)

next_message-line :
    (command held l : Bytes)
    → IsLine l
    → next_message command held (l ++ 10 ∷ []) ≡ fill command (l ++ 10 ∷ [])
unfolding next_message
next_message-line command held l w =
    rw
      (
        ==_false (length (l ++ 10 ∷ [])) 0 (λ e. omega (arith, length-append l (10 ∷ []))),
        cstr-text (l ++ 10 ∷ []) (line-IsText l w),
      )
      refl

-- What the loop leaves to the last message, after all the script.
abbrev pub filled : Bytes → Bytes → Pending
filled held text = record { message = held; file_buf = text; seq = 0; status = ftp_request }

take_line-fits :
    (reply : ℕ → ReturnCode) (held message buf : Bytes)
    → length message + length buf ≤ 1000
    → take_line reply message (filled held buf) ≡ going [] (filled message (buf ++ message))
unfolding take_line
take_line-fits reply held message buf h =
    rw (le→ltb_false 1000 (length message + length buf) h) refl

-- What is handed to `sendPayload` of a script that fits one message; a longer one is written outside
-- `ftpBuf`.
abbrev pub sent_whole : (ℕ → ReturnCode) → Bytes → Option (ReturnCode × List Message)
sent_whole reply script =
    if ltb payload_room (length script)
    then none
    else some (
      reply 0,
      record { status = ftp_request + ftp_start + ftp_stop; name = script_name; piece = script }
          ∷ [],
    )

last_message-filled :
    (reply : ℕ → ReturnCode) (held script : Bytes)
    → last_message reply (filled held script) ≡ sent_whole reply script
unfolding last_message script_message started_flags set_flag
last_message-filled reply held script = refl

sent_before_nil : (o : Option (ReturnCode × List Message)) → sent_before [] o ≡ o
sent_before_nil none = refl
sent_before_nil (some (rc, later)) = refl

-- One round of the loop that takes a line and fits.
round-fits :
    (fuel : ℕ) (reply : ℕ → ReturnCode) (command held buf text line rest message : Bytes)
    (eof : Bool)
    → fgets 999 text ≡ (line, rest)
    → hit_eof 999 text ≡ eof
    → next_message command held line ≡ message
    → length message + length buf ≤ 1000
    → send_script_loop (suc fuel) reply command (filled held buf) text ≡ (
        if eof
        then last_message reply (filled message (buf ++ message))
        else send_script_loop fuel reply command (filled message (buf ++ message)) rest)
unfolding send_script_loop
round-fits fuel reply command held buf text line rest message eof got ends reads fits =
    let left : (fgets 999 text).1 ≡ rest = ap (λ q. q.1) got in
    rw (send_script_loop, got, reads, take_line-fits reply held message buf fits, ends, left)
      (sent_before_nil (
        if eof
        then last_message reply (filled message (buf ++ message))
        else send_script_loop fuel reply command (filled message (buf ++ message)) rest))

next_message-end : (command held : Bytes) → next_message command held [] ≡ fill command held
unfolding next_message
next_message-end command held = refl

next_message-rest :
    (command held : Bytes) (b : ℕ) (l : Bytes)
    → IsLine (b ∷ l)
    → next_message command held (b ∷ l) ≡ fill command (b ∷ l)
unfolding next_message
next_message-rest command held b l w =
    rw (==_false (length (b ∷ l)) 0 (λ e. omega arith), cstr-text (b ∷ l) (IsLine-IsText (b ∷ l) w))
      refl

-- The last round, over what stands behind the last line feed.
at_end :
    (reply : ℕ → ReturnCode) (command : Bytes) (fuel : ℕ) (held buf l : Bytes)
    → IsLine l
    → length l < 999
    → length buf + length (script_text command held [] l) ≤ 1000
    → send_script_loop (suc fuel) reply command (filled held buf) l
      ≡ sent_whole reply (buf ++ script_text command held [] l)
at_end reply command fuel held buf [] w short fits =
    round-fits fuel reply command held buf [] [] [] (fill command held) true
      (fgets-rest 999 [] w short) (hit_eof-rest 999 [] w short) (next_message-end command held)
      (omega arith)
    ∙ last_message-filled reply (fill command held) (buf ++ fill command held)
at_end reply command fuel held buf (b ∷ l) w short fits =
    round-fits fuel reply command held buf (b ∷ l) (b ∷ l) [] (fill command (b ∷ l)) true
      (fgets-rest 999 (b ∷ l) w short) (hit_eof-rest 999 (b ∷ l) w short)
      (next_message-rest command held b l w) (omega arith)
    ∙ last_message-filled reply (fill command (b ∷ l)) (buf ++ fill command (b ∷ l))

module _ (reply : ℕ → ReturnCode) (command : Bytes) (last : Bytes) (w : IsLine last)
    (short : length last < 999) where
  send_script_loop-fits :
      (ls : List Bytes) (fuel : ℕ) (held buf : Bytes)
      → AreLines ls
      → length (template_text ls last) < fuel
      → length buf + length (script_text command held ls last) ≤ 1000
      → send_script_loop fuel reply command (filled held buf) (template_text ls last)
        ≡ sent_whole reply (buf ++ script_text command held ls last)
  send_script_loop-fits ls zero held buf a enough fits = absurd (omega arith)
  send_script_loop-fits [] (suc fuel) held buf a enough fits =
      at_end reply command fuel held buf last w short fits
  send_script_loop-fits (l ∷ ls) (suc fuel) held buf a enough fits =
      let message : Bytes = fill command (l ++ 10 ∷ []) in
      let all = length-append message (script_text command message ls last) in
      round-fits fuel reply command held buf (l ++ 10 ∷ template_text ls last) (l ++ 10 ∷ [])
        (template_text ls last) message false
        (fgets-whole_line 999 l (template_text ls last) a.0 a.1)
        (hit_eof-whole_line 999 l (template_text ls last) a.0 a.1)
        (next_message-line command held l a.0) (omega (arith, all))
      ∙ send_script_loop-fits ls fuel message (buf ++ message) a.2
          (omega (arith, length-append l (10 ∷ template_text ls last)))
          (omega (arith, all, length-append buf message))
      ∙ ap (sent_whole reply) (append_assoc buf message (script_text command message ls last))

-- A template whose lines are shorter than 999 bytes, and whose script, with the command in place of the
-- marker's line, has at most 1000 bytes: `sendScriptFile` sends the whole script in one message, marked
-- first and last, and returns what sending it returns; but if the script has more than 820 bytes, it
-- writes outside `ftpBuf`. Where the template ends with a line feed, the script has its last line twice.
pub send_script_file-template_text :
    (reply : ℕ → ReturnCode) (command : Bytes) (ls : List Bytes) (last : Bytes)
    → AreLines ls
    → IsLine last
    → length last < 999
    → length (script_text command [] ls last) ≤ 1000
    → send_script_file reply (some (template_text ls last)) command
      ≡ sent_whole reply (script_text command [] ls last)
unfolding send_script_file
send_script_file-template_text reply command ls last lines w short fits =
    send_script_loop-fits reply command last w short ls (suc (length (template_text ls last))) [] []
      lines (omega arith) (omega arith)
