-- ===== src/Builder/Naming/RoundTrip.antt =====
-- ParseJobName of pkg/metadata/job_naming.go reads what JobName there writes.
use Prim.Native.String.{String, [], ◌∷◌, ◌++◌}
use Prim.Native.String.append
use text.Mathlib.TextLemmas.{nil-append, append-nil, append_assoc}
use controlled_job.Base.{
  ℕ, zero, suc, ◌/◌, ◌%◌, ◌^◌, ◌<◌, ◌≡◌, ◌∙◌, sym, ap, refl, true, none, some, ltb, ltb→lt, inl,
  inr, Bool-cases, arith,
}
use controlled_job.Base.Int.{pos}
use controlled_job.Base.Decimal.{digit_char, print_onto, print_ℕ, print_ℤ, is_digit}
use controlled_job.Base.Decimal.RoundTrip.{code-digit_char, print_ℕ-StartsWithDigit, atoi-print_ℕ}
use controlled_job.Kube.{Time}
use controlled_job.Builder.{unix, job_name}
use controlled_job.Builder.Naming.{
  split_last, all_digits, is_line, is_nonempty, find_submatch, parse_job_name,
}

digits_no_dash : (s : String) → all_digits s ≡ true → split_last s ≡ none
unfolding all_digits split_last is_digit
digits_no_dash [] h = refl
digits_no_dash (c ∷ s) h = ground (arith, digits_no_dash s, h)

split_at_dash :
    (front back : String)
    → split_last back ≡ none
    → split_last (front ++ ("-" ∷ back)) ≡ some (front, back)
unfolding split_last
split_at_dash [] back h = rw (nil-append ("-" ∷ back)) (rw h refl)
split_at_dash (c ∷ front) back h =
    rw (append.cons c front ("-" ∷ back)) (rw (split_at_dash front back h) refl)

digit_is_digit : (k : ℕ) → k < 10 → is_digit (digit_char k) ≡ true
unfolding is_digit
digit_is_digit k h = ground (arith, code-digit_char k h)

all_digits-print_onto :
    (fuel n : ℕ) (rest : String)
    → n < fuel
    → all_digits rest ≡ true
    → all_digits (print_onto fuel n rest) ≡ true
unfolding print_onto all_digits
all_digits-print_onto zero n rest h d = d
all_digits-print_onto (suc fuel) n rest h d = elim (Bool-cases (ltb n 10)) [
  | inl e ↦ rw e (rw (digit_is_digit n (ltb→lt n 10 e), d) refl)
  | inr e ↦ rw e (
      all_digits-print_onto fuel (n / 10) (digit_char (n % 10) ∷ rest) (ground arith)
        (rw (digit_is_digit (n % 10) (omega arith), d) refl))
]

all_digits-print_ℕ : (n : ℕ) → all_digits (print_ℕ n) ≡ true
unfolding print_ℕ all_digits
all_digits-print_ℕ n = all_digits-print_onto (suc n) n [] (omega arith) refl

print_ℕ_nonempty : (n : ℕ) → is_nonempty (print_ℕ n) ≡ true
print_ℕ_nonempty n = let (c, r, e, _) = print_ℕ-StartsWithDigit n in rw e refl

dash_on : (s : String) → "-" ++ s ≡ "-" ∷ s
dash_on s = append.cons "-" [] s ∙ ap (λ (r : String). "-" ∷ r) (nil-append s)

name_pieces :
    (name : String) (t : Time) (seconds run_id : ℕ)
    → unix t ≡ pos seconds
    → job_name name t (pos run_id) ≡ (name ++ ("-" ∷ print_ℕ seconds)) ++ ("-" ∷ print_ℕ run_id)
unfolding job_name
name_pieces name t seconds run_id e =
    rw (e, append-nil (print_ℤ (pos run_id)))
      (unfold print_ℤ in
        rw (dash_on (print_ℕ run_id), dash_on (print_ℕ seconds ++ ("-" ∷ print_ℕ run_id)))
          (sym (
            append_assoc name ("-" ∷ print_ℕ seconds) ("-" ∷ print_ℕ run_id)
            ∙ ap (λ (s : String). name ++ s)
                (append.cons "-" (print_ℕ seconds) ("-" ∷ print_ℕ run_id)))))

-- ParseJobName reads the name, time and run id off a job's name as JobName writes it, for a
-- ControlledJob whose name is not empty and has no newline, a time since 1970 and a run id that is
-- not negative. Of the time it reads the whole seconds.
pub parse-job_name :
    (name : String) (t : Time) (seconds run_id : ℕ)
    → is_nonempty name ≡ true
    → is_line name ≡ true
    → unix t ≡ pos seconds
    → seconds < 2 ^ 63
    → run_id < 2 ^ 63
    → parse_job_name (job_name name t (pos run_id)) ≡ record {
      controlled_job_name = name;
      scheduled_time = some (pos seconds);
      job_run_id = some (pos run_id);
      error = none;
    }
unfolding parse_job_name find_submatch
parse-job_name name t seconds run_id n l e a b = rw (name_pieces name t seconds run_id e) (
    rw
      (split_at_dash (name ++ ("-" ∷ print_ℕ seconds)) (print_ℕ run_id)
        (digits_no_dash (print_ℕ run_id) (all_digits-print_ℕ run_id)))
      (rw
        (split_at_dash name (print_ℕ seconds)
          (digits_no_dash (print_ℕ seconds) (all_digits-print_ℕ seconds)))
        (rw
          (
            n,
            l,
            print_ℕ_nonempty seconds,
            all_digits-print_ℕ seconds,
            print_ℕ_nonempty run_id,
            all_digits-print_ℕ run_id,
          )
          (rw (atoi-print_ℕ seconds a) (rw (atoi-print_ℕ run_id b) refl)))))
