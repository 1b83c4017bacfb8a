-- ===== src/Operator/Tests.antt =====
-- A start of main.go that is refused, and one that is not.
use controlled_job.Base.{◌≡◌, refl, none, some, []}
use controlled_job.Errors.{message, ok, err}
use controlled_job.Operator.{
  add_readyz_check, Runtime, default_flags, main, start_operator, set_up_controller,
  setup_with_manager, run_manager,
}
use controlled_job.Operator.Startup.{started_with, main_startup}
use controlled_job.Mutators.Remote.{Web}

-- A webhook that is never asked.
abbrev sample_web : Web
sample_web = record {
  new_uuid = "1";
  url_error = λ url. none;
  send = λ request. err (message "no");
  encode_request = λ request. request.name;
  decode_review = λ text. err (message "no");
  encode_job = λ job. job.name;
  unmarshal_into = λ job text. ok job;
  decode_patch = λ text. err (message "no");
}

abbrev no_ready_check : Runtime
no_ready_check before (add_readyz_check name) = some (message "no")
no_ready_check before _ = none

abbrev all_well : Runtime
all_well before step = none

returns : (web : Web) → (main all_well web 0 [] default_flags).exits_with ≡ none
unfolding main start_operator set_up_controller setup_with_manager run_manager
returns web = refl

main_startup_example :
    main no_ready_check sample_web 0 [] default_flags
    ≡ started_with no_ready_check default_flags [] (ok [])
main_startup_example = main_startup no_ready_check default_flags sample_web 0 [] (ok []) refl
