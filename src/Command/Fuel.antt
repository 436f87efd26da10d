-- ===== src/Command/Fuel.antt =====
-- The loop over the options in `parseRunCommand` of command-parser.ts ends.
use locus_pi.Common.{
  ℕ, zero, suc, ◌+◌, ◌<◌, ◌≤◌, ◌≡◌, refl, ap, true, false, [], ◌∷◌, Option, none, some, arith,
  length,
}
use locus_pi.Common.Text.{Text, codes}
use locus_pi.Command.Tokens.{trim_start, parse_token, scan_from, put_token}
use locus_pi.Command.Options.{
  run_name, workspace_dir, resume_from_run_id, Field, Options, set_field, at_start, option_at_start,
  option_value,
}
use locus_pi.Command.Run.{
  Round, obsolete, forces, sets_mode, takes, lacks, ends, round, option_round, read_options, Ending,
  is_obsolete, lacks_value, reads,
}
use locus_pi.Command.Lengths.{
  LeftLt, TailLe, length-trim_start, at_start_lt, parse_token_lt, option_value_le,
}

scan_on_congr :
    (n m k : ℕ) (o : Option (Text × Text))
    → TailLe k o
    → ((t : Text) → length t ≤ k → scan_from n t ≡ scan_from m t)
    → elim o [ none ↦ none | some (v, rest) ↦ put_token v (scan_from n rest) ]
      ≡ elim o [ none ↦ none | some (v, rest) ↦ put_token v (scan_from m rest) ]
scan_on_congr n m k none h f = refl
scan_on_congr n m k (some (v, rest)) h f = ap (put_token v) (f rest h)

-- Fuel of the length of a text is enough to read its tokens: more makes no difference.
scan_from_enough :
    (n m : ℕ) (t : Text) → length t ≤ n → length t ≤ m → scan_from n t ≡ scan_from m t
unfolding scan_from
scan_from_enough n m [] h g = refl
scan_from_enough zero m (c ∷ cs) h g = ground arith
scan_from_enough (suc n) zero (c ∷ cs) h g = ground arith
scan_from_enough (suc n) (suc m) (c ∷ cs) h g =
    scan_on_congr n m (length cs) (parse_token (c ∷ cs)) (parse_token_lt c cs)
      (λ t k. scan_from_enough n m t (omega (arith, h, k)) (omega (arith, g, k)))

-- A round that goes on leaves a shorter text.
abbrev Shortens : ℕ → Round → Type 0
Shortens n (forces t) = length t < n
Shortens n (sets_mode b t) = length t < n
Shortens n (takes f v t) = length t < n
Shortens n _ = Unit {0}

taken-Shortens :
    (n : ℕ) (f : Field) (o : Option (Text × Text))
    → TailLe n o
    → (k : ℕ) → n < k
    → Shortens k (elim o [ none ↦ lacks f | some (v, rest) ↦ takes f v (trim_start rest) ])
taken-Shortens n f none h k g = tt
taken-Shortens n f (some (v, rest)) h k g =
    let shorter = length-trim_start rest in omega (arith, h, g, shorter)

abbrev OptionLt : ℕ → Option (Field × Text) → Type 0
OptionLt n none = Unit {0}
OptionLt n (some (f, after)) = length after < n

field_lt :
    (n : ℕ) (f : Field) (o : Option Text) (otherwise : Option (Field × Text))
    → LeftLt n o
    → OptionLt n otherwise
    → OptionLt n (elim o [ some after ↦ some (f, after) | none ↦ otherwise ])
field_lt n f none otherwise h g = g
field_lt n f (some after) otherwise h g = h

option_at_start_lt : (t : Text) → OptionLt (length t) (option_at_start t)
unfolding option_at_start
option_at_start_lt t =
    field_lt _ run_name (at_start (codes "--run-name") t) _ (at_start_lt b'-' (codes "-run-name") t)
      (field_lt _ workspace_dir (at_start (codes "--workspace-dir") t) _
        (at_start_lt b'-' (codes "-workspace-dir") t)
        (field_lt _ resume_from_run_id (at_start (codes "--resume") t) none
          (at_start_lt b'-' (codes "-resume") t) tt))

option-Shortens :
    (n : ℕ) (o : Option (Field × Text))
    → OptionLt n o
    → Shortens n (elim o [
      | none ↦ ends
      | some (field, after) ↦ elim (option_value after) [
        | none ↦ lacks field
        | some (value, tail) ↦ takes field value (trim_start tail)
      ]
    ])
option-Shortens n none h = tt
option-Shortens n (some (f, after)) h =
    taken-Shortens (length after) f (option_value after) (option_value_le after) n h

option_round-Shortens : (t : Text) → Shortens (length t) (option_round t)
unfolding option_round
option_round-Shortens t = option-Shortens (length t) (option_at_start t) (option_at_start_lt t)

flag-Shortens :
    (n : ℕ) (o : Option Text) (on : Text → Round) (otherwise : Round)
    → LeftLt n o
    → ((t : Text) → length t < n → Shortens n (on t))
    → Shortens n otherwise
    → Shortens n (elim o [ some after ↦ on after | none ↦ otherwise ])
flag-Shortens n none on otherwise h f g = g
flag-Shortens n (some after) on otherwise h f g = f after h

round-Shortens : (t : Text) → Shortens (length t) (round t)
unfolding round
round-Shortens t =
    flag-Shortens _ (at_start (codes "--output-dir") t) (λ _. obsolete) _
      (at_start_lt b'-' (codes "-output-dir") t) (λ _ _. tt)
      (flag-Shortens _ (at_start (codes "--force") t) forces _ (at_start_lt b'-' (codes "-force") t)
        (λ _ h. h)
        (flag-Shortens _ (at_start (codes "--no-operator") t) (sets_mode true) _
          (at_start_lt b'-' (codes "-no-operator") t) (λ _ h. h)
          (flag-Shortens _ (at_start (codes "--operator") t) (sets_mode false) (option_round t)
            (at_start_lt b'-' (codes "-operator") t) (λ _ h. h) (option_round-Shortens t))))

abbrev after_round : ℕ → Options → Text → Round → Ending
after_round fuel o rest obsolete = is_obsolete
after_round fuel o rest (forces after) = read_options fuel (record o { force = true }) after
after_round fuel o rest (sets_mode b after) =
    read_options fuel (record o { no_operator = some b }) after
after_round fuel o rest (takes field value after) =
    read_options fuel (set_field o field value) after
after_round fuel o rest (lacks field) = lacks_value o field
after_round fuel o rest ends = reads o rest

same_round :
    (n m : ℕ) (o : Options) (rest : Text) (r : Round)
    → Shortens (length rest) r
    → ((o : Options) (t : Text) → length t < length rest → read_options n o t ≡ read_options m o t)
    → after_round n o rest r ≡ after_round m o rest r
same_round n m o rest obsolete h f = refl
same_round n m o rest (forces t) h f = f _ t h
same_round n m o rest (sets_mode b t) h f = f _ t h
same_round n m o rest (takes k v t) h f = f _ t h
same_round n m o rest (lacks k) h f = refl
same_round n m o rest ends h f = refl

any_fuel :
    (n m : ℕ) (o : Options) (rest : Text)
    → length rest < n
    → length rest < m
    → read_options n o rest ≡ read_options m o rest
unfolding read_options
any_fuel zero m o rest h g = ground arith
any_fuel (suc n) zero o rest h g = ground arith
any_fuel (suc n) (suc m) o rest h g =
    same_round n m o rest (round rest) (round-Shortens rest)
      (λ o' t k. any_fuel n m o' t (omega (arith, h, k)) (omega (arith, g, k)))

-- The loop over the options ends: as many rounds as the text is long, and one more, are enough, and
-- more make no difference.
read_options_enough :
    (extra : ℕ) (o : Options) (rest : Text)
    → read_options (suc (length rest) + extra) o rest ≡ read_options (suc (length rest)) o rest
read_options_enough extra o rest =
    any_fuel (suc (length rest) + extra) (suc (length rest)) o rest (omega arith) (omega arith)
