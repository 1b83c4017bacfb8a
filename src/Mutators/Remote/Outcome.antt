-- ===== src/Mutators/Remote/Outcome.antt =====
-- What comes of asking the webhook of pkg/mutators/remote_mutator.go: when the job is changed, and
-- when the operator panics.
use controlled_job.Base.{
  ℕ, ◌<◌, ◌≡◌, ◌≢◌, ◌↔◌, refl, String, true, false, Option, none, some, [], ◌∷◌, str_eq, ltb, arith,
  ◌⊎◌, inl, inr, Bool-cases, Option-cases,
}
use controlled_job.Errors.{Error, then_run, wrap, Result, ok, err, Run, Result-cases}
use controlled_job.Base.Text.{concat}
use controlled_job.Kube.{Job}
use controlled_job.Mutators.Remote.{
  Web, HttpResponse, AdmissionReview, AdmissionResponse, Status, build_admission_review,
  webhook_request, refused, send_request, response_of, read_response, make_webhook_request, denied,
  apply_patch, act_on_response, remote_apply,
}

module _ (web : Web) (url : String) (job : Job) where
  -- The webhook answers the review of the job with a status below 300 and this review.
  abbrev pub Answers : Option AdmissionReview → Type 0
  Answers review =
      (response : HttpResponse) × (text : String) × (web.url_error url ≡ none)
      × (web.send (webhook_request web url (build_admission_review web job)) ≡ ok response)
      × (response.status_code < 300)
      × (response.body ≡ ok text)
      × (web.decode_review text ≡ ok review)

  -- An answer that the code cannot read: no review, no response in it, or a refusal with no status.
  abbrev pub IsUnreadable : Option AdmissionReview → Type 0
  IsUnreadable none = Unit {0}
  IsUnreadable (some review) =
      (review.response ≡ none)
      ⊎ ((response : AdmissionResponse) × (review.response ≡ some response)
          × (response.allowed ≡ false)
          × (response.result ≡ none))

  -- What is answered decides what is read.
  pub Answers-response :
      (review : Option AdmissionReview)
      → Answers review
      → make_webhook_request web url (build_admission_review web job) ≡ response_of review
  unfolding make_webhook_request send_request read_response
  Answers-response review (h, text, valid, sent, early, read, decoded) =
      rw (valid, sent) (rw (ltb_true h.status_code 300 early, read, decoded) refl)
    where
      ltb_true : (m n : ℕ) → m < n → ltb m n ≡ true
      ltb_true m n k = ground (arith, k)

  abbrev IsRead : HttpResponse → Type 0
  IsRead h =
      (text : String) × (review : Option AdmissionReview) × (h.status_code < 300)
      × (h.body ≡ ok text)
      × (web.decode_review text ≡ ok review)

  -- A response is read, or the request fails.
  response_cases :
      (h : HttpResponse) → ((e : Error) × (read_response web h ≡ some (err e))) ⊎ IsRead h
  unfolding read_response
  response_cases h = by_status (Bool-cases (ltb h.status_code 300)) (Result-cases h.body)
    where
      by_review :
          (text : String)
          → ltb h.status_code 300 ≡ true
          → h.body ≡ ok text
          → ((r : Option AdmissionReview) × (web.decode_review text ≡ ok r))
            ⊎ ((e : Error) × (web.decode_review text ≡ err e))
          → ((e : Error) × (read_response web h ≡ some (err e))) ⊎ IsRead h
      by_review text early read (inl (review, decoded)) =
          inr (text, review, ground (arith, early), read, decoded)
      by_review text early read (inr (e, failed)) = inl (
        wrap e "failed to read response as AdmissionReview resource",
        rw (early, read, failed) refl,
      )

      by_status :
          (ltb h.status_code 300 ≡ true) ⊎ (ltb h.status_code 300 ≡ false)
          → ((text : String) × (h.body ≡ ok text)) ⊎ ((e : Error) × (h.body ≡ err e))
          → ((e : Error) × (read_response web h ≡ some (err e))) ⊎ IsRead h
      by_status (inr late) body = inl (refused h.status_code h.body, rw late refl)
      by_status (inl early) (inr (e, unread)) =
          inl
            (wrap e "failed to read response as AdmissionReview resource", rw (early, unread) refl)
      by_status (inl early) (inl (text, read)) =
          by_review text early read (Result-cases (web.decode_review text))

  abbrev Fails : Type 0
  Fails =
      (e : Error) × (make_webhook_request web url (build_admission_review web job) ≡ some (err e))

  -- The webhook answers, or the request fails.
  ask_cases : Fails ⊎ ((review : Option AdmissionReview) × Answers review)
  unfolding make_webhook_request send_request
  ask_cases =
      by_url (Option-cases (web.url_error url))
        (Result-cases (web.send (webhook_request web url (build_admission_review web job))))
    where
      by_response :
          (h : HttpResponse)
          → web.url_error url ≡ none
          → web.send (webhook_request web url (build_admission_review web job)) ≡ ok h
          → ((e : Error) × (read_response web h ≡ some (err e))) ⊎ IsRead h
          → Fails ⊎ ((review : Option AdmissionReview) × Answers review)
      by_response h valid sent (inl (e, failed)) = inl (e, rw (valid, sent) failed)
      by_response h valid sent (inr (text, review, early, read, decoded)) =
          inr (review, (h, text, valid, sent, early, read, decoded))

      by_url :
          (web.url_error url ≡ none) ⊎ ((e : Error) × (web.url_error url ≡ some e))
          → ((h : HttpResponse) × (web.send
                  (webhook_request web url (build_admission_review web job))
                ≡ ok h))
            ⊎ ((e : Error) × (web.send (webhook_request web url (build_admission_review web job))
                  ≡ err e))
          → Fails ⊎ ((review : Option AdmissionReview) × Answers review)
      by_url (inr (e, bad)) sent =
          inl (wrap e (concat ("failed to build webhook request to " ∷ url ∷ [])), rw bad refl)
      by_url (inl valid) (inr (e, unsent)) = inl (
        wrap e (concat ("failed to send webhook request to " ∷ url ∷ [])),
        rw (valid, unsent) refl,
      )
      by_url (inl valid) (inl (h, sent)) = by_response h valid sent (response_cases h)

  -- What a review makes of the job.
  abbrev pub reviewed : Option AdmissionReview → Run Job
  reviewed review = then_run (response_of review) (act_on_response web job)

  pub remote_cases :
      ((e : Error) × (remote_apply web url job ≡ some (err e)))
      ⊎ ((review : Option AdmissionReview) × Answers review
          × (remote_apply web url job ≡ reviewed review))
  unfolding remote_apply
  remote_cases = elim ask_cases [
    | inl (e, failed) ↦ inl (e, rw failed refl)
    | inr (review, answer) ↦ inr (review, answer, rw (Answers-response review answer) refl)
  ]

  reviewed-unreadable :
      (review : Option AdmissionReview) → IsUnreadable review → reviewed review ≡ none
  unfolding response_of act_on_response denied
  reviewed-unreadable none h = refl
  reviewed-unreadable (some review) (inl missing) = rw missing refl
  reviewed-unreadable (some review) (inr (response, there, refusal, silent)) =
      rw there (rw (refusal, silent) refl)

  apply_patch_returns : (text : String) → apply_patch web job text ≢ none
  unfolding apply_patch
  apply_patch_returns text h = by_patch (Result-cases (web.decode_patch text))
    where
      by_patched :
          (patch : String → Result String)
          → web.decode_patch text ≡ ok patch
          → ((patched : String) × (patch (web.encode_job job) ≡ ok patched))
            ⊎ ((e : Error) × (patch (web.encode_job job) ≡ err e))
          → ⊥
      by_patched patch decoded (inr (e, failed)) = ground (arith, decoded, failed, h)
      by_patched patch decoded (inl (patched, applied)) =
          elim (Result-cases (web.unmarshal_into job patched)) [
            | inr (e, failed) ↦ ground (arith, decoded, applied, failed, h)
            | inl (changed, read) ↦ ground (arith, decoded, applied, read, h)
          ]

      by_patch :
          ((patch : String → Result String) × (web.decode_patch text ≡ ok patch))
            ⊎ ((e : Error) × (web.decode_patch text ≡ err e))
          → ⊥
      by_patch (inr (e, failed)) = ground (arith, failed, h)
      by_patch (inl (patch, decoded)) =
          by_patched patch decoded (Result-cases (patch (web.encode_job job)))

  denied-none : (o : Option Status) → denied o ≡ none → o ≡ none
  unfolding denied
  denied-none none h = refl
  denied-none (some status) h = absurd (cc)

  act_on_response-IsUnreadable :
      (review : AdmissionReview) (o : Option AdmissionResponse)
      → review.response ≡ o
      → act_on_response web job o ≡ none
      → IsUnreadable (some review)
  unfolding act_on_response
  act_on_response-IsUnreadable review none e h = inl e
  act_on_response-IsUnreadable review (some response) e h = elim (Bool-cases response.allowed) [
    | inr refusal ↦
        inr (response, e, refusal, denied-none response.result (ground (arith, refusal, h)))
    | inl allowed ↦ elim (Bool-cases (str_eq response.patch "")) [
      | inl empty ↦ absurd (ground (arith, allowed, empty, h))
      | inr patched ↦
          absurd (apply_patch_returns response.patch (ground (arith, allowed, patched, h)))
    ]
  ]

  reviewed-IsUnreadable :
      (review : Option AdmissionReview) → reviewed review ≡ none → IsUnreadable review
  unfolding response_of
  reviewed-IsUnreadable none h = tt
  reviewed-IsUnreadable (some review) h = act_on_response-IsUnreadable review review.response refl h

  -- The operator panics exactly if the webhook answers with a status below 300 and with a review
  -- that is null, that has no response, or whose response refuses the job without a result.
  pub remote_apply_panics :
      (remote_apply web url job ≡ none)
      ↔ ((review : Option AdmissionReview) × Answers review × IsUnreadable review)
  remote_apply_panics = (there, back)
    where
      there :
          remote_apply web url job ≡ none
          → (review : Option AdmissionReview) × Answers review × IsUnreadable review
      there h = elim remote_cases [
        | inl (e, failed) ↦ absurd (cc)
        | inr (review, answer, same) ↦ (review, answer, reviewed-IsUnreadable review (cc))
      ]

      back :
          (review : Option AdmissionReview) × Answers review × IsUnreadable review
          → remote_apply web url job ≡ none
      back (review, answer, unreadable) =
          unfold remote_apply in
          rw (Answers-response review answer) (reviewed-unreadable review unreadable)
