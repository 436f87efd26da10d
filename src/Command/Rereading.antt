-- ===== src/Command/Rereading.antt =====
-- `parseRunCommand` of command-parser.ts reads a written run command back.
use locus_pi.Common.{
  and_parts, if_of_false, ℕ, zero, suc, ◌<◌, ◌≤◌, ◌≡◌, refl, ap, ◌∙◌, Bool, true, false, not, List,
  [], ◌∷◌, ◌++◌, Option, none, some, arith, every, length, length-append, if_intro,
}
use locus_pi.Common.Text.{Text, codes, is_white_space}
use locus_pi.Common.Json.{Json}
use locus_pi.Command.Strings.{stringify}
use locus_pi.Command.Tokens.{trim_start, format_token, parse_token, is_plain, is_plain_unit}
use locus_pi.Command.Reading.{parse_token-format_token, plain_white}
use locus_pi.Command.Options.{
  Field, run_name, workspace_dir, resume_from_run_id, name_of, force_flag, mode_flag, Options,
  no_options, set_field, at_start, option_at_start, option_value, is_reserved, taken,
}
use locus_pi.Command.Run
use locus_pi.Command.Run.{
  Round, forces, sets_mode, takes, ends, round, option_round, Ending, reads, read_options,
  plain_run, non_empty, read_input, finish, after_run, parse_tail, run_of, run_after,
  parse_run_command, has_json_word,
}

-- An option that is given, as it is written and as it is meant.
pub data Given : Type 0 where
  force : Given
  mode : Bool → Given
  field : Field → Text → Given

abbrev written : Given → Text → Text
written force rest = force_flag ++ b' ' ∷ rest
written (mode b) rest = mode_flag b ++ b' ' ∷ rest
written (field f v) rest = name_of f ++ b' ' ∷ (format_token v ++ b' ' ∷ rest)

abbrev meant : Options → Given → Options
meant o force = record o { force = true }
meant o (mode b) = record o { no_operator = some b }
meant o (field f v) = set_field o f v

abbrev pub options_text : List Given → Text → Text
options_text [] input = codes "-- " ++ input
options_text (g ∷ gs) input = written g (options_text gs input)

-- The later of two options counts.
abbrev pub options_meant : Options → List Given → Options
options_meant o [] = o
options_meant o (g ∷ gs) = options_meant (meant o g) gs

-- The line of a run: its script, its options, and the input after `--`.
abbrev pub run_line : Text → List Given → Text → Text
run_line ref gs input = codes "run " ++ (format_token ref ++ b' ' ∷ options_text gs input)

abbrev pub is_takeable : Given → Bool
is_takeable force = true
is_takeable (mode b) = true
is_takeable (field f v) = not (is_reserved v)

trim_start-plain : (v rest : Text) → is_plain v ≡ true → trim_start (v ++ rest) ≡ v ++ rest
unfolding trim_start
trim_start-plain [] rest e = ground arith
trim_start-plain (c ∷ cs) rest e =
    let (unit, units) = and_parts (is_plain_unit c) (every is_plain_unit cs) e in
    if_of_false (is_white_space c) (trim_start (cs ++ rest)) (c ∷ cs ++ rest) (plain_white c unit)

trim_start-token : (v rest : Text) → trim_start (format_token v ++ rest) ≡ format_token v ++ rest
unfolding format_token
trim_start-token v rest =
    if_intro (λ x. trim_start (x ++ rest) ≡ x ++ rest) (is_plain v) (λ e. trim_start-plain v rest e)
      (λ _. unfold trim_start stringify in refl)

trim_start-options_text :
    (gs : List Given) (input : Text) → trim_start (options_text gs input) ≡ options_text gs input
unfolding trim_start
trim_start-options_text [] input = refl
trim_start-options_text (force ∷ gs) input = refl
trim_start-options_text (mode true ∷ gs) input = refl
trim_start-options_text (mode false ∷ gs) input = refl
trim_start-options_text (field run_name v ∷ gs) input = refl
trim_start-options_text (field workspace_dir v ∷ gs) input = refl
trim_start-options_text (field resume_from_run_id v ∷ gs) input = refl

option_value_of :
    (text v rest : Text)
    → parse_token text ≡ some (v, rest)
    → is_reserved v ≡ false
    → option_value text ≡ some (v, rest)
unfolding option_value
option_value_of [] v rest e h = unfold parse_token in ground arith
option_value_of (c ∷ cs) v rest e h =
    ap taken e ∙ if_of_false (is_reserved v) none (some (v, rest)) h

round-force : (rest : Text) → round (force_flag ++ b' ' ∷ rest) ≡ forces (trim_start rest)
unfolding round at_start trim_start
round-force rest = refl

round-mode :
    (b : Bool) (rest : Text) → round (mode_flag b ++ b' ' ∷ rest) ≡ sets_mode b (trim_start rest)
unfolding round at_start trim_start
round-mode true rest = refl
round-mode false rest = refl

round-field :
    (f : Field) (rest : Text)
    → round (name_of f ++ b' ' ∷ rest) ≡ elim (option_value (trim_start rest)) [
      | none ↦ Run.lacks f
      | some (v, tail) ↦ takes f v (trim_start tail)
    ]
unfolding round option_round option_at_start at_start trim_start
round-field run_name rest = refl
round-field workspace_dir rest = refl
round-field resume_from_run_id rest = refl

round-field_token :
    (f : Field) (v rest : Text)
    → is_reserved v ≡ false
    → round (name_of f ++ b' ' ∷ (format_token v ++ b' ' ∷ rest))
      ≡ takes f v (trim_start (trim_start rest))
unfolding trim_start
round-field_token f v rest h =
    round-field f (format_token v ++ b' ' ∷ rest)
    ∙ rw
        (
          trim_start-token v (b' ' ∷ rest),
          option_value_of (format_token v ++ b' ' ∷ rest) v (trim_start rest)
              (parse_token-format_token v (b' ' ∷ rest) refl) h,
        )
        refl

-- How the loop goes on after a written option
abbrev goes_on : Given → Text → Round
goes_on force rest = forces rest
goes_on (mode b) rest = sets_mode b rest
goes_on (field f v) rest = takes f v rest

not-true : (b : Bool) → not b ≡ true → b ≡ false
not-true true h = ground arith
not-true false h = refl

round-written :
    (g : Given) (gs : List Given) (input : Text)
    → is_takeable g ≡ true
    → round (written g (options_text gs input)) ≡ goes_on g (options_text gs input)
round-written force gs input h = round-force _ ∙ ap forces (trim_start-options_text gs input)
round-written (mode b) gs input h =
    round-mode b _ ∙ ap (sets_mode b) (trim_start-options_text gs input)
round-written (field f v) gs input h =
    let same = trim_start-options_text gs input in
    round-field_token f v (options_text gs input) (not-true (is_reserved v) h)
    ∙ ap (λ t. takes f v (trim_start t)) same
    ∙ ap (takes f v) same

round-input : (input : Text) → round (codes "-- " ++ input) ≡ ends
unfolding round option_round option_at_start at_start
round-input input = refl

read_options-options_text :
    (fuel : ℕ) (o : Options) (gs : List Given) (input : Text)
    → every is_takeable gs ≡ true
    → length gs < fuel
    → read_options fuel o (options_text gs input)
      ≡ reads (options_meant o gs) (codes "-- " ++ input)
unfolding read_options
read_options-options_text zero o gs input h f = ground arith
read_options-options_text (suc fuel) o [] input h f = rw (round-input input, read_options) refl
read_options-options_text (suc fuel) o (force ∷ gs) input h f =
    let (one, rest) = and_parts (is_takeable force) (every is_takeable gs) h in
    let ih = read_options-options_text fuel (meant o force) gs input rest (omega (arith, f)) in
    rw (round-written force gs input one, read_options) ih
read_options-options_text (suc fuel) o (mode b ∷ gs) input h f =
    let (one, rest) = and_parts (is_takeable (mode b)) (every is_takeable gs) h in
    let ih = read_options-options_text fuel (meant o (mode b)) gs input rest (omega (arith, f)) in
    rw (round-written (mode b) gs input one, read_options) ih
read_options-options_text (suc fuel) o (field f v ∷ gs) input h fuel_lt =
    let (one, rest) = and_parts (is_takeable (field f v)) (every is_takeable gs) h in
    let ih =
      read_options-options_text fuel (meant o (field f v)) gs input rest (omega (arith, fuel_lt)) in
    rw (round-written (field f v) gs input one, read_options) ih

length-written : (g : Given) (rest : Text) → length rest < length (written g rest)
length-written force rest = omega arith
length-written (mode true) rest = omega arith
length-written (mode false) rest = omega arith
length-written (field run_name v) rest =
    ground (arith, length-append (format_token v) (b' ' ∷ rest))
length-written (field workspace_dir v) rest =
    ground (arith, length-append (format_token v) (b' ' ∷ rest))
length-written (field resume_from_run_id v) rest =
    ground (arith, length-append (format_token v) (b' ' ∷ rest))

length-options_text : (gs : List Given) (input : Text) → length gs ≤ length (options_text gs input)
length-options_text [] input = omega arith
length-options_text (g ∷ gs) input =
    let shorter = length-written g (options_text gs input) in
    let ih = length-options_text gs input in omega (arith, shorter, ih)

read_input-marked :
    (parse_json : Text → Option Json) (ref : Text) (o : Options) (input : Text)
    → read_input parse_json ref o (codes "-- " ++ input)
      ≡ record (plain_run ref o) { input = non_empty input }
unfolding read_input at_start
read_input-marked parse_json ref o input = refl

parse_tail-options_text :
    (parse_json : Text → Option Json) (ref : Text) (gs : List Given) (input : Text)
    → every is_takeable gs ≡ true
    → parse_tail parse_json ref (options_text gs input)
      ≡ record (plain_run ref (options_meant no_options gs)) { input = non_empty input }
unfolding parse_tail
parse_tail-options_text parse_json ref gs input h =
    let rest = options_text gs input in
    let short = length-options_text gs input in
    rw (trim_start-options_text gs input) (
      ap (finish parse_json ref)
        (read_options-options_text (suc (length rest)) no_options gs input h (omega (arith, short)))
      ∙ unfold finish in read_input-marked parse_json ref (options_meant no_options gs) input)

trim_start-space : (text : Text) → trim_start (b' ' ∷ text) ≡ trim_start text
unfolding trim_start
trim_start-space text = refl

after_run-run_line :
    (ref : Text) (gs : List Given) (input : Text)
    → after_run (run_line ref gs input) ≡ some (format_token ref ++ b' ' ∷ options_text gs input)
unfolding after_run
after_run-run_line ref gs input = ap some (
    trim_start-space (format_token ref ++ b' ' ∷ options_text gs input)
    ∙ trim_start-token ref (b' ' ∷ options_text gs input))

-- A run command reads back as it is meant: its script, its options in any order, of which the last
-- of a kind counts, and the input unchanged, whatever it holds.
pub parse_run_command-run_line :
    (parse_json : Text → Option Json) (c : ℕ) (ref : Text) (gs : List Given) (input : Text)
    → every is_takeable gs ≡ true
    → parse_run_command parse_json (run_line (c ∷ ref) gs input)
      ≡ some
          (record (plain_run (c ∷ ref) (options_meant no_options gs)) { input = non_empty input })
unfolding parse_run_command
parse_run_command-run_line parse_json c ref gs input h =
    let tail = options_text gs input in
    ap (run_after parse_json) (after_run-run_line (c ∷ ref) gs input)
    ∙ ap (run_of parse_json) (parse_token-format_token (c ∷ ref) (b' ' ∷ tail) refl)
    ∙ ap (λ t. some (parse_tail parse_json (c ∷ ref) t)) (trim_start-space tail)
    ∙ ap (λ t. some (parse_tail parse_json (c ∷ ref) t)) (trim_start-options_text gs input)
    ∙ ap some (parse_tail-options_text parse_json (c ∷ ref) gs input h)
