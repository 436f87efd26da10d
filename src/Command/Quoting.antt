-- ===== src/Command/Quoting.antt =====
-- `JSON.stringify` and the scan of a quoted token in command-parser.ts are inverse.
use mathlib.Core.List.{append_assoc}
use locus_pi.Common.{
  ℕ, suc, ◌+◌, ◌*◌, ◌/◌, ◌%◌, ◌<◌, ◌≡◌, refl, sym, ap, ◌∙◌, inl, inr, Bool, true, false, ◌||◌, [],
  ◌∷◌, ◌++◌, some, ltb, ◌==◌, Bool-cases, if_intro, arith, ==_iff,
}
use locus_pi.Common.Text.{Text}
use locus_pi.Command.Strings.{
  is_high, is_lone, hex_digit, hex_value, unicode_escape, escape_unit, escape_units, plain, digits,
  put, scan,
}

hex_value-hex_digit : (d : ℕ) → d < 16 → hex_value (hex_digit d) ≡ some d
hex_value-hex_digit d h = ground arith

-- A surrogate is below 2 ^ 16.
lone_bound : (after_high : Bool) (c : ℕ) (cs : Text) → is_lone after_high c cs ≡ true → c < 0x10000
lone_bound after_high c cs h = ground arith

scan-digits :
    (left sofar d : ℕ) (t : Text)
    → d < 16
    → scan (digits (suc left) sofar) (hex_digit d ∷ t) ≡ scan (digits left (sofar * 16 + d)) t
unfolding scan
scan-digits left sofar d t h = rw (hex_value-hex_digit d h, scan) refl

scan-last_digit :
    (sofar d : ℕ) (t : Text)
    → d < 16
    → scan (digits 0 sofar) (hex_digit d ∷ t) ≡ put (sofar * 16 + d) (scan plain t)
unfolding scan
scan-last_digit sofar d t h = rw (hex_value-hex_digit d h, scan) refl

scan-unicode_escape :
    (c : ℕ) (t : Text) → c < 0x10000 → scan plain (unicode_escape c ++ t) ≡ put c (scan plain t)
unfolding scan
scan-unicode_escape c t h =
    let whole : ((((0 * 16 + c / 4096 % 16) * 16 + c / 256 % 16) * 16) + c / 16 % 16) * 16 + c % 16
        ≡ c =
      omega arith in
    scan-digits 2 0 (c / 4096 % 16) _ (omega arith)
    ∙ scan-digits 1 _ (c / 256 % 16) _ (omega arith)
    ∙ scan-digits 0 _ (c / 16 % 16) _ (omega arith)
    ∙ scan-last_digit _ (c % 16) t (omega arith)
    ∙ ap (λ n. put n (scan plain t)) whole

scan-escape_unit :
    (lone : Bool) (c : ℕ) (t : Text)
    → (lone ≡ true → c < 0x10000)
    → scan plain (escape_unit lone c ++ t) ≡ put c (scan plain t)
unfolding escape_unit scan
scan-escape_unit lone c t h =
    let short : (n : ℕ) → (c == n) ≡ true → put n (scan plain t) ≡ put c (scan plain t) =
      λ n e. ap (λ m. put m (scan plain t)) (sym ((==_iff c n).0 e)) in
    if_intro (λ x. scan plain (x ++ t) ≡ put c (scan plain t)) (c == 34) (short 34)
      (λ quote.
        if_intro (λ x. scan plain (x ++ t) ≡ put c (scan plain t)) (c == 92) (short 92)
          (λ slash.
            if_intro (λ x. scan plain (x ++ t) ≡ put c (scan plain t)) (c == 8) (short 8)
              (λ _.
                if_intro (λ x. scan plain (x ++ t) ≡ put c (scan plain t)) (c == 12) (short 12)
                  (λ _.
                    if_intro (λ x. scan plain (x ++ t) ≡ put c (scan plain t)) (c == 10) (short 10)
                      (λ _.
                        if_intro (λ x. scan plain (x ++ t) ≡ put c (scan plain t)) (c == 13)
                          (short 13)
                          (λ _.
                            if_intro (λ x. scan plain (x ++ t) ≡ put c (scan plain t)) (c == 9)
                              (short 9)
                              (λ _.
                                if_intro (λ x. scan plain (x ++ t) ≡ put c (scan plain t))
                                  (ltb c 32 || lone)
                                  (λ e.
                                    scan-unicode_escape c t (elim (Bool-cases lone) [
                                      | inl y ↦ h y
                                      | inr n ↦ ground arith
                                    ]))
                                  (λ e.
                                    let small : ltb c 32 ≡ false = ground arith in
                                    rw (quote, slash, small, scan) refl))))))))

pub scan-escape_units :
    (after_high : Bool) (value rest : Text)
    → scan plain (escape_units after_high value ++ 34 ∷ rest) ≡ some (value, rest)
unfolding escape_units
scan-escape_units after_high [] rest = unfold scan in refl
scan-escape_units after_high (c ∷ cs) rest =
    ap (scan plain) (
      append_assoc (escape_unit (is_lone after_high c cs) c) (escape_units (is_high c) cs)
        (34 ∷ rest))
    ∙ scan-escape_unit (is_lone after_high c cs) c (escape_units (is_high c) cs ++ 34 ∷ rest)
        (lone_bound after_high c cs)
    ∙ ap (put c) (scan-escape_units (is_high c) cs rest)
