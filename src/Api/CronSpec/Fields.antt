-- ===== src/Api/CronSpec/Fields.antt =====
-- The fields of what AsCronSpec of api/v1/controlledjob_types.go writes.
use Prim.Native.Char.{Char, code}
use Prim.Native.String.{String, [], ◌∷◌, ◌++◌}
use Prim.Native.String.append
use text.Mathlib.TextLemmas.{nil-append, append-nil}
use controlled_job.Base.{
  ℕ, zero, suc, ◌≡◌, refl, ap, ◌∙◌, Bool, true, false, not, some, List, ◌&&◌, ◌||◌, ◌==◌, eq_iff,
  if◌then◌else◌, arith, inl, inr, Bool-cases, Option-cases,
}
use text.Mathlib.TextEquality.{Char-path}
use controlled_job.Base.Text.{concat}
use controlled_job.Base.Decimal.{is_digit}
use controlled_job.Errors.{ok}
use controlled_job.Api.{EventSpec, FriendlyScheduleSpec}
use controlled_job.Api.CronSpec.{
  is_letter, time_of_day_parts, day_name, more_days, range_end, matches_days_of_week,
  friendly_cron_spec, as_cron_spec,
}

-- The pieces between the spaces of a text.
abbrev onto_first : Char → List String → List String
onto_first c List.[] = List.◌∷◌ (c ∷ []) List.[]
onto_first c (List.◌∷◌ w ws) = List.◌∷◌ (c ∷ w) ws

unfoldable pub words : String → List String
words [] = List.◌∷◌ [] List.[]
words (c ∷ s) = let rest = words s in if code c == b' ' then List.◌∷◌ [] rest else onto_first c rest

unfoldable pub has_no_space : String → Bool
has_no_space [] = true
has_no_space (c ∷ s) = not (code c == b' ') && has_no_space s

word_alone : (w : String) → has_no_space w ≡ true → words w ≡ List.◌∷◌ w List.[]
unfolding words has_no_space
word_alone [] h = refl
word_alone (c ∷ w) h = ground (arith, h, word_alone w)

word_first : (w s : String) → has_no_space w ≡ true → words (w ++ (" " ∷ s)) ≡ List.◌∷◌ w (words s)
unfolding words has_no_space
word_first [] s h = rw (nil-append (" " ∷ s)) refl
word_first (c ∷ w) s h = rw (append.cons c w (" " ∷ s)) (ground (arith, h, word_first w s))

-- Letters and digits are no spaces.
letter_no_space : (c : Char) → is_letter c ≡ true → (code c == b' ') ≡ false
unfolding is_letter
letter_no_space c h = ground (arith, h)

digit_no_space : (c : Char) → is_digit c ≡ true → (code c == b' ') ≡ false
unfolding is_digit
digit_no_space c h = ground (arith, h)

day_no_space :
    (s rest : String) → day_name s ≡ some rest → has_no_space rest ≡ true → has_no_space s ≡ true
unfolding day_name has_no_space
day_no_space (a ∷ b ∷ c ∷ s) rest h r =
    ground (arith, h, r, letter_no_space a, letter_no_space b, letter_no_space c)
day_no_space (a ∷ b ∷ []) rest h r = cc
day_no_space (a ∷ []) rest h r = cc
day_no_space [] rest h r = cc

days_no_space : (n : ℕ) (s : String) → more_days n s ≡ true → has_no_space s ≡ true
unfolding more_days has_no_space
days_no_space n [] h = refl
days_no_space zero (c ∷ s) h = cc
days_no_space (suc n) (c ∷ s) h = elim (Option-cases (day_name s)) [
  | inl e ↦ absurd (ground (arith, h, e))
  | inr (rest, e) ↦
      ground (arith, h, e, day_no_space s rest e (days_no_space n rest (ground (arith, h, e))))
]

end_no_space : (s : String) → range_end s ≡ true → has_no_space s ≡ true
unfolding range_end has_no_space
end_no_space [] h = cc
end_no_space (c ∷ s) h = elim (Option-cases (day_name s)) [
  | inl e ↦ absurd (ground (arith, h, e))
  | inr (rest, e) ↦
      let empty : rest ≡ "" = (eq_iff rest "").0 (ground (arith, h, e)) in
      ground (arith, h, e, day_no_space s rest e (rw empty refl))
]

days_of_week_no_space : (s : String) → matches_days_of_week s ≡ true → has_no_space s ≡ true
unfolding matches_days_of_week
days_of_week_no_space s h = elim (Option-cases (day_name s)) [
  | inl e ↦ absurd (ground (arith, h, e))
  | inr (rest, e) ↦ day_no_space s rest e (rest_no_space rest (ground (arith, h, e)))
]
  where
    rest_no_space :
        (rest : String) → (more_days 6 rest || range_end rest) ≡ true → has_no_space rest ≡ true
    rest_no_space rest t = elim (Bool-cases (more_days 6 rest)) [
      | inl m ↦ days_no_space 6 rest m
      | inr m ↦ end_no_space rest (ground (arith, t, m))
    ]

-- Two digits.
unfoldable pub is_two_digits : String → Bool
is_two_digits (a ∷ b ∷ []) = is_digit a && is_digit b
is_two_digits _ = false

two_digits_no_space : (s : String) → is_two_digits s ≡ true → has_no_space s ≡ true
unfolding is_two_digits has_no_space
two_digits_no_space (a ∷ b ∷ []) h = ground (arith, h, digit_no_space a, digit_no_space b)
two_digits_no_space (a ∷ b ∷ c ∷ s) h = cc
two_digits_no_space (a ∷ []) h = cc
two_digits_no_space [] h = cc

time_parts :
    (text hours minutes : String)
    → time_of_day_parts text ≡ some (hours, minutes)
    → (is_two_digits hours ≡ true)
      × (is_two_digits minutes ≡ true)
      × (text ≡ hours ++ (":" ∷ minutes))
unfolding time_of_day_parts is_two_digits
time_parts (a ∷ b ∷ c ∷ d ∷ e ∷ []) hours minutes h =
    elim (Bool-cases
      ((is_digit a && is_digit b) && (code c == b':' && (is_digit d && is_digit e)))) [
        | inr f ↦ absurd (ground (arith, h, f))
        | inl f ↦
            let hours_lem : hours ≡ a ∷ b ∷ [] = ground (arith, h, f) in
            let minutes_lem : minutes ≡ d ∷ e ∷ [] = ground (arith, h, f) in
            (
              rw hours_lem (ground (arith, f)),
              rw minutes_lem (ground (arith, f)),
              rw
                  (
                    hours_lem,
                    minutes_lem,
                    append.cons a (b ∷ []) (":" ∷ d ∷ e ∷ []),
                    append.cons b [] (":" ∷ d ∷ e ∷ []),
                    nil-append (":" ∷ d ∷ e ∷ []),
                  )
                  (ap (λ (x : Char). a ∷ b ∷ x ∷ d ∷ e ∷ []) (Char-path c ":" (ground (arith, f)))),
            )
      ]
time_parts _ hours minutes h = cc

stars_on : (s : String) → " * * " ++ s ≡ " " ∷ "*" ∷ " " ∷ "*" ∷ " " ∷ s
stars_on s =
    rw
      (
        append.cons " " "* * " s,
        append.cons "*" " * " s,
        append.cons " " "* " s,
        append.cons "*" " " s,
        append.cons " " [] s,
        nil-append s,
      )
      refl

five_words :
    (minutes hours days : String)
    → has_no_space minutes ≡ true
    → has_no_space hours ≡ true
    → has_no_space days ≡ true
    → words (
        concat (
          List.◌∷◌ minutes
            (List.◌∷◌ " " (List.◌∷◌ hours (List.◌∷◌ " * * " (List.◌∷◌ days List.[]))))))
      ≡ List.◌∷◌ minutes (List.◌∷◌ hours (List.◌∷◌ "*" (List.◌∷◌ "*" (List.◌∷◌ days List.[]))))
unfolding words
five_words minutes hours days m h d =
    rw
      (
        append-nil days,
        stars_on days,
        append.cons " " [] (hours ++ (" " ∷ "*" ∷ " " ∷ "*" ∷ " " ∷ days)),
        nil-append (hours ++ (" " ∷ "*" ∷ " " ∷ "*" ∷ " " ∷ days)),
        word_first minutes (hours ++ (" " ∷ "*" ∷ " " ∷ "*" ∷ " " ∷ days)) m,
        word_first hours ("*" ∷ " " ∷ "*" ∷ " " ∷ days) h,
        word_alone days d,
      )
      refl

-- A friendly schedule that is accepted has both parts in their format.
accepted_parts :
    (s : FriendlyScheduleSpec) (text : String)
    → friendly_cron_spec s ≡ ok text
    → (hours minutes : String) × (time_of_day_parts s.time_of_day ≡ some (hours, minutes))
      × (matches_days_of_week s.days_of_week ≡ true)
      × (text
          ≡ concat (
              List.◌∷◌ minutes (
                List.◌∷◌ " "
                  (List.◌∷◌ hours (List.◌∷◌ " * * " (List.◌∷◌ s.days_of_week List.[]))))))
unfolding friendly_cron_spec
accepted_parts s text h = elim (Option-cases (time_of_day_parts s.time_of_day)) [
  | inl e ↦ absurd (ground (arith, h, e))
  | inr ((hours, minutes), e) ↦ elim (Bool-cases (matches_days_of_week s.days_of_week)) [
    | inl f ↦ (hours, minutes, e, f, ground (arith, h, e, f))
    | inr f ↦ absurd (ground (arith, h, e, f))
  ]
]

-- A schedule by days and time of day, without a cron text, is written as five fields with single
-- spaces between them: the minutes and the hours of the time of day, two digits each, two stars, and
-- the days as they are given.
pub as_cron_spec_fields :
    (e : EventSpec) (s : FriendlyScheduleSpec) (text : String)
    → e.cron_schedule ≡ ""
    → e.schedule ≡ some s
    → as_cron_spec e ≡ some (ok text)
    → (hours minutes : String) × (is_two_digits hours ≡ true)
      × (is_two_digits minutes ≡ true)
      × (s.time_of_day ≡ hours ++ (":" ∷ minutes))
      × (words text
          ≡ List.◌∷◌ minutes
              (List.◌∷◌ hours (List.◌∷◌ "*" (List.◌∷◌ "*" (List.◌∷◌ s.days_of_week List.[])))))
unfolding as_cron_spec
as_cron_spec_fields e s text none_given given written =
    let (hours, minutes, parts, days, shape) =
      accepted_parts s text
        (ground (arith, (eq_iff e.cron_schedule "").1 none_given, given, written)) in
    let (h, m, time) = time_parts s.time_of_day hours minutes parts in
    (
      hours,
      minutes,
      h,
      m,
      time,
      ap words shape
          ∙ five_words minutes hours s.days_of_week (two_digits_no_space minutes m)
              (two_digits_no_space hours h) (days_of_week_no_space s.days_of_week days),
    )
