-- ===== src/Mutators/Remote/Success.antt =====
-- When asking the webhook of pkg/mutators/remote_mutator.go succeeds, and what the job then is.
use controlled_job.Base.{
  ◌≡◌, ◌≢◌, ◌↔◌, ◌∙◌, sym, refl, String, true, false, Option, none, some, str_eq, arith, ◌⊎◌, inl,
  inr, Bool-cases, eq_iff,
}
use controlled_job.Errors.{Error, Result, ok, err, Result-cases}
use controlled_job.Kube.{Job}
use controlled_job.Mutators.Remote.{
  Web, AdmissionReview, AdmissionResponse, Status, response_of, denied, apply_patch,
  act_on_response, remote_apply,
}
use controlled_job.Mutators.Remote.Outcome.{Answers, Answers-response, remote_cases, reviewed}

module _ (web : Web) (url : String) (job changed : Job) where
  -- The response allows the job as it is, or with a patch of its JSON, which is read into the job.
  abbrev pub IsGranted : AdmissionResponse → Type 0
  IsGranted response =
      (response.allowed ≡ true)
      × (((response.patch ≡ "") × (changed ≡ job))
          ⊎ ((response.patch ≢ "")
              × (patch : String → Result String) × (patched : String) × (web.decode_patch
                    response.patch
                  ≡ ok patch)
              × (patch (web.encode_job job) ≡ ok patched)
              × (web.unmarshal_into job patched ≡ ok changed)))

  abbrev IsPatched : String → Type 0
  IsPatched text =
      (patch : String → Result String) × (patched : String) × (web.decode_patch text ≡ ok patch)
      × (patch (web.encode_job job) ≡ ok patched)
      × (web.unmarshal_into job patched ≡ ok changed)

  apply_patch-IsPatched :
      (text : String) → apply_patch web job text ≡ some (ok changed) → IsPatched text
  unfolding apply_patch
  apply_patch-IsPatched text h = by_patch (Result-cases (web.decode_patch text))
    where
      by_patched :
          (patch : String → Result String)
          → web.decode_patch text ≡ ok patch
          → ((patched : String) × (patch (web.encode_job job) ≡ ok patched))
            ⊎ ((e : Error) × (patch (web.encode_job job) ≡ err e))
          → IsPatched text
      by_patched patch decoded (inr (e, failed)) = absurd (ground (arith, decoded, failed, h))
      by_patched patch decoded (inl (patched, applied)) =
          elim (Result-cases (web.unmarshal_into job patched)) [
            | inr (e, failed) ↦ absurd (ground (arith, decoded, applied, failed, h))
            | inl (read, unmarshalled) ↦ (
              patch,
              patched,
              decoded,
              applied,
              ground (arith, decoded, applied, unmarshalled, h),
            )
          ]

      by_patch :
          ((patch : String → Result String) × (web.decode_patch text ≡ ok patch))
            ⊎ ((e : Error) × (web.decode_patch text ≡ err e))
          → IsPatched text
      by_patch (inr (e, failed)) = absurd (ground (arith, failed, h))
      by_patch (inl (patch, decoded)) =
          by_patched patch decoded (Result-cases (patch (web.encode_job job)))

  denied_fails : (o : Option Status) → denied o ≢ some (ok changed)
  unfolding denied
  denied_fails none h = cc
  denied_fails (some status) h = cc

  text_of : (s t : String) → str_eq s t ≡ true → s ≡ t
  text_of s t h = ground (arith, eq_iff s t, h)

  text_not : (s t : String) → str_eq s t ≡ false → s ≢ t
  text_not s t h e = ground (arith, eq_iff s t, h, e)

  act_on_response-IsGranted :
      (o : Option AdmissionResponse)
      → act_on_response web job o ≡ some (ok changed)
      → (response : AdmissionResponse) × (o ≡ some response) × IsGranted response
  unfolding act_on_response
  act_on_response-IsGranted none h = absurd (cc)
  act_on_response-IsGranted (some response) h = elim (Bool-cases response.allowed) [
    | inr refusal ↦ absurd (denied_fails response.result (ground (arith, refusal, h)))
    | inl allowed ↦ elim (Bool-cases (str_eq response.patch "")) [
      | inl empty ↦ (
        response,
        refl,
        (allowed, inl (text_of response.patch "" empty, ground (arith, allowed, empty, h))),
      )
      | inr there ↦
          let (patch, patched, decoded, applied, read) =
            apply_patch-IsPatched response.patch (ground (arith, allowed, there, h)) in
          (
            response,
            refl,
            (
              allowed,
              inr (text_not response.patch "" there, patch, patched, decoded, applied, read),
            ),
          )
    ]
  ]

  granted :
      (response : AdmissionResponse)
      → IsGranted response
      → act_on_response web job (some response) ≡ some (ok changed)
  unfolding act_on_response apply_patch
  granted response (allowed, inl (empty, same)) =
      ground (arith, eq_iff response.patch "", allowed, empty, same)
  granted response (allowed, inr (there, patch, patched, decoded, applied, read)) =
      ground (arith, eq_iff response.patch "", allowed, there, decoded, applied, read)

  by_review :
      (review : Option AdmissionReview)
      → Answers web url job review
      → reviewed web url job review ≡ some (ok changed)
      → (response : AdmissionResponse) × Answers web url job
          (some (record { response = some response }))
        × IsGranted response
  unfolding response_of
  by_review none answer e = absurd (cc)
  by_review (some review) answer e =
      let (response, there, grant) = act_on_response-IsGranted review.response e in
      (response, rw (← there) answer, grant)

  -- Asking the webhook succeeds exactly if it answers with a status below 300 and with a response
  -- that allows the job. The job then is as before where the response has no patch, and otherwise
  -- what the JSON of the job, patched, reads as into the job.
  pub remote_apply_succeeds : (remote_apply web url job ≡ some (ok changed)) ↔ (
      (response : AdmissionResponse) × Answers web url job
        (some (record { response = some response }))
      × IsGranted response)
  remote_apply_succeeds = (there, back)
    where
      there :
          remote_apply web url job ≡ some (ok changed)
          → (response : AdmissionResponse) × Answers web url job
              (some (record { response = some response }))
            × IsGranted response
      there h = elim (remote_cases web url job) [
        | inl (e, failed) ↦ absurd (cc)
        | inr (review, answer, same) ↦ by_review review answer (sym same ∙ h)
      ]

      back :
          (response : AdmissionResponse) × Answers web url job
              (some (record { response = some response }))
            × IsGranted response
          → remote_apply web url job ≡ some (ok changed)
      back (response, answer, grant) =
          unfold remote_apply response_of in
          rw (Answers-response web url job (some (record { response = some response })) answer)
            (granted response grant)
