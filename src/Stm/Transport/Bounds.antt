-- ===== src/Stm/Transport/Bounds.antt =====
-- What rewrite of bridge/internal/stm/transport.go may change, for any input.
use mathlib.Core.List.{append-nil, append_assoc}
use phcremote_control.Prelude.{
  ℕ, zero, suc, ◌+◌, ◌≤◌, ◌<◌, ◌≡◌, ◌≢◌, ◌⊎◌, refl, sym, ap, ◌∙◌, Bool, true, false, [], ◌++◌,
  length, length-append, arith, Bool-cases, inl, inr,
}
use phcremote_control.Text.{Text}
use phcremote_control.Stm.Errors.{ok, err, out_of_fuel, Result-cases}
use phcremote_control.Stm.Transport.{
  max_header_bytes, max_header_line, is_bare_date, trim_breaks, read_line, is_blank_line,
  starts_bare, Rewritten, header_loop, rewrite,
}
use phcremote_control.Stm.Transport.Lines.{
  IsLine, Line, IsHeader, blank-IsHeader, field-IsHeader, read_line-Line,
}

-- What a round does with a line.
abbrev Round : ℕ → Bool → Bool → ℕ → Text → Text → Text → Rewritten → Type 0
Round f first sanitized total out l rest answer =
    (total + length l ≤ max_header_bytes)
    × (((starts_bare first l ≡ true)
          × (header_loop f false true (total + length l) out rest ≡ answer))
        ⊎ ((starts_bare first l ≡ false)
            × (((is_blank_line l ≡ true) × (answer ≡ (ok (out ++ l, rest), sanitized)))
                ⊎ ((is_blank_line l ≡ false)
                    × (header_loop f false sanitized (total + length l) (out ++ l) rest
                        ≡ answer)))))

header_loop-Round :
    (f : ℕ) (first sanitized : Bool) (total : ℕ) (out input o r : Text) (s : Bool)
    → header_loop (suc f) first sanitized total out input ≡ (ok (o, r), s)
    → (l : Text) × (rest : Text) × Line input l rest
      × Round f first sanitized total out l rest (ok (o, r), s)
unfolding header_loop
header_loop-Round f first sanitized total out input o r s e =
    elim (Result-cases (read_line input)) [
      | inr (x, failed) ↦ absurd (ground (arith, failed))
      | inl ((l, rest), got) ↦
          let line = read_line-Line input l rest got in
          let fits : total + length l ≤ max_header_bytes = ground (arith, got) in
          elim (Bool-cases (starts_bare first l)) [
            | inl bare ↦ (l, rest, line, (fits, inl (bare, ground (arith, got, bare, fits))))
            | inr plain ↦ elim (Bool-cases (is_blank_line l)) [
              | inl blank ↦ (
                l,
                rest,
                line,
                (fits, inr (plain, inl (blank, ground (arith, got, plain, blank, fits)))),
              )
              | inr field ↦ (
                l,
                rest,
                line,
                (fits, inr (plain, inr (field, ground (arith, got, plain, field, fits)))),
              )
            ]
          ]
    ]

-- After the first line, what is read is served.
abbrev Kept : Bool → ℕ → Text → Text → Text → Text → Bool → Type 0
Kept sanitized total out input o r s =
    (header : Text) × (IsHeader header)
    × (input ≡ header ++ r)
    × (o ≡ out ++ header)
    × (s ≡ sanitized)
    × (total + length header ≤ max_header_bytes)

more-Kept :
    (sanitized : Bool) (total : ℕ) (out input l rest o r : Text) (s : Bool)
    → Line input l rest
    → is_blank_line l ≡ false
    → Kept sanitized (total + length l) (out ++ l) rest o r s
    → Kept sanitized total out input o r s
more-Kept sanitized total out input l rest o r s line full
      (header, lines, read, served, same, fits) =
    (
      l ++ header,
      field-IsHeader l header line.3 full lines,
      line.0 ∙ ap (λ t. l ++ t) read ∙ sym (append_assoc l header r),
      served ∙ append_assoc out l header,
      same,
      omega (arith, length-append l header, fits),
    )

loop-Kept :
    (f : ℕ) (sanitized : Bool) (total : ℕ) (out input o r : Text) (s : Bool)
    → header_loop f false sanitized total out input ≡ (ok (o, r), s)
    → Kept sanitized total out input o r s
loop-Kept zero sanitized total out input o r s e = unfold header_loop in (cc)
loop-Kept (suc f) sanitized total out input o r s e =
    let (l, rest, line, round) = header_loop-Round f false sanitized total out input o r s e in
    let later = loop-Kept f sanitized (total + length l) (out ++ l) rest o r s in
    elim round.1 [
      | inl (bare, _) ↦ absurd cc
      | inr (plain, inl (blank, last)) ↦ (
        l,
        blank-IsHeader l blank,
        ground (arith, line.0, last),
        ground (arith, last),
        ground (arith, last),
        round.0,
      )
      | inr (plain, inr (full, more)) ↦
          more-Kept sanitized total out input l rest o r s line full (later more)
    ]

-- What was served of the input, and what was dropped from it.
pub record Served (input o r : Text) (s : Bool) : Type 0 where
  pub status : Text
  pub dropped : Text
  pub header : Text
  pub status_line : IsLine status
  pub lines : IsHeader header
  pub read : input ≡ status ++ (dropped ++ (header ++ r))
  pub kept : o ≡ status ++ header
  pub small : length o ≤ max_header_bytes
  pub short : (length status ≤ max_header_line) × (length dropped ≤ max_header_line)
  pub report :
      ((s ≡ false)
        × (dropped ≡ [])
        × ((first : Text) × (rest : Text) × (header ≡ first ++ rest)
            × (IsLine first)
            × (is_bare_date (trim_breaks first) ≡ false)))
      ⊎ ((s ≡ true) × (IsLine dropped) × (is_bare_date (trim_breaks dropped) ≡ true))

first-Served :
    (f : ℕ) (status rest input o r : Text) (s : Bool)
    → Line input status rest
    → header_loop (suc f) true false (length status) status rest ≡ (ok (o, r), s)
    → Served input o r s
first-Served f status rest input o r s line e =
    let (l, rest', here, round) =
      header_loop-Round f true false (length status) status rest o r s e in
    let size = length-append status l in
    elim round.1 [
      | inl (bare, more) ↦
          let (header, lines, read, served, same, fits) =
            loop-Kept f true (length status + length l) status rest' o r s more in
          record {
            status = status;
            dropped = l;
            header = header;
            status_line = line.3;
            lines = lines;
            read = line.0 ∙ ap (λ t. status ++ t) (here.0 ∙ ap (λ t. l ++ t) read);
            kept = served;
            small = ground (arith, served, length-append status header, fits);
            short = (line.2, here.2);
            report = inr (same, here.3, bare);
          }
      | inr (plain, inl (blank, last)) ↦ record {
        status = status;
        dropped = [];
        header = l;
        status_line = line.3;
        lines = blank-IsHeader l blank;
        read = ground (arith, line.0, here.0, last);
        kept = ground (arith, last);
        small = ground (arith, last, size, round.0);
        short = (line.2, omega arith);
        report = inl (ground (arith, last), refl, (l, [], sym (append-nil l), here.3, plain));
      }
      | inr (plain, inr (full, more)) ↦
          let (header, lines, read, served, same, fits) =
            loop-Kept f false (length status + length l) (status ++ l) rest' o r s more in
          let whole : o ≡ status ++ (l ++ header) = served ∙ append_assoc status l header in
          record {
            status = status;
            dropped = [];
            header = l ++ header;
            status_line = line.3;
            lines = field-IsHeader l header here.3 full lines;
            read =
                line.0
                ∙ ap (λ t. status ++ t)
                    (here.0 ∙ ap (λ t. l ++ t) read ∙ sym (append_assoc l header r));
            kept = whole;
            small =
                ground
                  (arith, whole, length-append status (l ++ header), length-append l header, fits);
            short = (line.2, omega arith);
            report = inl (same, refl, (l, header, refl, here.3, plain));
          }
    ]

-- Whatever the input: if the header is accepted, the input is a status line, the lines of the header up
-- to the first blank one, and the rest. All of it is served, but for the line directly after the status
-- line exactly where that is a bare date; the report says whether it was left out, and the header that
-- is served has at most max_header_bytes bytes.
pub rewrite-Served :
    (input o r : Text) (s : Bool) → rewrite input ≡ (ok (o, r), s) → Served input o r s
unfolding rewrite
rewrite-Served input o r s e = elim (Result-cases (read_line input)) [
  | inr (x, failed) ↦ absurd (ground (arith, failed))
  | inl ((status, rest), got) ↦
      let line = read_line-Line input status rest got in
      let looped : header_loop (suc (length rest)) true false (length status) status rest
          ≡ (ok (o, r), s) =
        ground (arith, got) in
      first-Served (length rest) status rest input o r s line looped
]

loop-fuel :
    (f : ℕ) (first sanitized : Bool) (total : ℕ) (out input : Text)
    → length input < f
    → (header_loop f first sanitized total out input).0 ≢ err out_of_fuel
unfolding header_loop
loop-fuel zero first sanitized total out input h = absurd (omega arith)
loop-fuel (suc f) first sanitized total out input h = elim (Result-cases (read_line input)) [
  | inr (x, failed) ↦ ground (arith, failed)
  | inl ((l, rest), got) ↦
      let line = read_line-Line input l rest got in
      let size = ap length line.0 in
      let shorter : length rest < f = omega (arith, size, length-append l rest, line.1) in
      let dropped = loop-fuel f false true (total + length l) out rest shorter in
      let kept = loop-fuel f false sanitized (total + length l) (out ++ l) rest shorter in
      ground (arith, got, dropped, kept)
]

-- The rounds that rewrite is given are enough.
pub rewrite-fuel : (input : Text) → (rewrite input).0 ≢ err out_of_fuel
unfolding rewrite
rewrite-fuel input = elim (Result-cases (read_line input)) [
  | inr (x, failed) ↦ ground (arith, failed)
  | inl ((status, rest), got) ↦
      let looped =
        loop-fuel (suc (length rest)) true false (length status) status rest (omega arith) in
      ground (arith, got, looped)
]
