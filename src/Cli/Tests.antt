-- ===== src/Cli/Tests.antt =====
-- A run of generate-job of cli/util/generate_job.go with a webhook that patches the job.
use controlled_job.Base.{◌≡◌, refl, String, true, false, none, some, [], ◌∷◌, str_append}
use controlled_job.Base.Int.{pos}
use controlled_job.Errors.{ok}
use controlled_job.Samples.{sample_env, sample_controlled_job}
use controlled_job.Samples.Run.{made}
use controlled_job.Mutators.{register, registered}
use controlled_job.Mutators.Remote.{
  Web, remote_apply, remote_mutator, enable_remote_mutator, make_webhook_request, send_request,
  read_response, response_of, act_on_response, apply_patch,
}
use controlled_job.Cli.{Flags, Console, enabled_mutators, do_generate_job}

abbrev patching_web : Web
patching_web = record {
  new_uuid = "1";
  url_error = λ url. none;
  send = λ request. ok (record { status_code = 200; body = ok "review" });
  encode_request = λ request. request.name;
  decode_review = λ text. ok (
      some (record {
        response = some (record { allowed = true; result = none; patch = "+sidecar" });
      }));
  encode_job = λ job. job.spec.body;
  unmarshal_into = λ job text. ok (record job { spec = record job.spec { body = text } });
  decode_patch = λ text. ok (λ body. ok (str_append body text));
}

-- The ControlledJob read asks for mutations; what is printed is the job's body.
abbrev body_console : Console
body_console = record {
  stdin = ok "cj";
  unmarshal = λ text. ok (record sample_controlled_job {
    annotations = ("batch.gresearch.co.uk/apply-mutations", "true") ∷ [];
  });
  marshal_indent = λ job. ok job.spec.body;
}

abbrev flags_for : String → Flags
flags_for url = record {
  scheduled_at = 100;
  job_run_id = pos 0;
  manually_scheduled = false;
  start_suspended = false;
  job_admission_webhook_url = url;
}

patched :
    do_generate_job sample_env patching_web 1 body_console (flags_for "http://webhook")
    ≡ some "spec+sidecar"
unfolding made do_generate_job enabled_mutators enable_remote_mutator register registered
    remote_mutator remote_apply make_webhook_request send_request read_response response_of
    act_on_response apply_patch
patched = refl

unpatched : do_generate_job sample_env patching_web 1 body_console (flags_for "") ≡ some "spec"
unfolding made do_generate_job enabled_mutators
unpatched = refl
