-- ===== src/Scenarios/Refreshes.antt =====
-- A refresh of a node that runs while another one is asked for.
use frond.Shared.{◌≡◌, refl, List, [], ◌∷◌}
use frond.Commands.Refresh.{
  make_refresh_admission_controller, cell_found, started_task, refresh_joined, admission_key,
  submit, submitted, returned, done, AdmissionEvent, admission_step,
}
use frond.Commands.Refresh.Open.{IsOpen}
use frond.Commands.Refresh.Admitted.{run, joined-IsOpen}

abbrev events : List AdmissionEvent
events =
    submitted (cell_found "todo:1")
    ∷ returned 0
    ∷ submitted (cell_found "todo:1")
    ∷ submitted (cell_found "todo:2")
    ∷ done 0
    ∷ submitted (cell_found "todo:1")
    ∷ returned 2
    ∷ []

joined_refresh :
    (submit (run make_refresh_admission_controller events) (cell_found "todo:1")).1
    ≡ refresh_joined "todo:1" (started_task 2)
unfolding run admission_step submit
joined_refresh = refl

joined-IsOpen_example :
    IsOpen
      (run make_refresh_admission_controller events).registrations
      (admission_key "todo:1")
      (started_task 2)
joined-IsOpen_example = joined-IsOpen events "todo:1" (started_task 2) joined_refresh
