-- ===== src/Upload/Tests.antt =====
-- A queue of files, and the theorems at it.
use zhici_photo_upload_platf.Api.{upload}
use zhici_photo_upload_platf.Media.{call}
use zhici_photo_upload_platf.Prelude.{
  All, List, Stamped, [], arith, codes, false, find, if◌then◌else◌, length, none, refl, some, true,
  ℕ, ◌++◌, ◌==◌, ◌∷◌, ◌≡◌, ◌≢◌, ◌≤◌,
}
use zhici_photo_upload_platf.Upload.{
  FileEntry, Run, State, add_files, answered, make_entry, remove, start_upload, update,
}
use zhici_photo_upload_platf.Upload.Completion.{
  Answers, IsSettled, settle, upload_completes, waiting_of,
}
use zhici_photo_upload_platf.Upload.Offered.{removed_is_uploaded}
use zhici_photo_upload_platf.Upload.Queue.{add_files_lem, Taken}
use zhici_photo_upload_platf.Upload.Safety.{IsSafe, Safe, update-Safe}
use zhici_photo_upload_platf.Auth.Tests.{ann}
use zhici_photo_upload_platf.Http.InTurn.{Holds}
use zhici_photo_upload_platf.Http.Tests.{net, world, net_promises, world-Holds, net, world}
use zhici_photo_upload_platf.Upload.Sending.{uploads_go_through, settle_over, IsTold}

abbrev png : ℕ → Stamped
png n = record {
  file = record { file_name = codes "a.png"; mime = codes "image/png"; size = n };
  id = n;
  preview = n;
}

-- Two files that wait; the second has the number 2 and 2 bytes.
abbrev queue : List FileEntry
queue = make_entry (png 1) ∷ make_entry (png 2) ∷ []

abbrev waiting_page : State
waiting_page = record {
  files = queue;
  dragging = false;
  tags = [];
  uploading = false;
  done_count = 0;
  run = none;
}

waiting_page-IsSafe : IsSafe waiting_page
unfolding make_entry
waiting_page-IsSafe = record {
  entries = (
    record { waiting = λ e. refl; progress = omega arith },
    (record { waiting = λ e. refl; progress = omega arith }, tt),
  );
  running = tt;
  flag = refl;
}

started-Safe : Safe (update start_upload waiting_page)
started-Safe = update-Safe start_upload waiting_page tt waiting_page-IsSafe

-- The first upload goes well, and the second does not.
abbrev answers : Answers
answers id = if id == 1 then none else some (some (codes "full"))

waiting_page-length : length (waiting_of queue) ≤ 2
unfolding make_entry
waiting_page-length = omega arith

waiting_page-some : waiting_of queue ≢ []
unfolding make_entry
waiting_page-some e = absurd (cc)

two_uploads_complete :
    IsSettled answers
      (waiting_of queue)
      0
      waiting_page
      (settle 2 answers (update start_upload waiting_page).0)
unfolding make_entry
two_uploads_complete =
    upload_completes answers 2 waiting_page waiting_page-length (refl, (refl, tt)) waiting_page-some

-- The first file is uploaded, and the second is next.
abbrev first_run : Run
first_run = record {
  current = make_entry (png 1);
  rest = make_entry (png 2) ∷ [];
  done_so_far = 0;
  tags = [];
}

abbrev running_page : State
running_page = record waiting_page { uploading = true; run = some first_run }

second_uploaded_though_removed :
    let t = (update (remove 2) running_page).0 in
    (find (λ (x : FileEntry). x.id == 2) t.files ≡ none)
    × ((update (answered true none) t).1 ≡ call (upload 2 []) ∷ [])
unfolding make_entry
second_uploaded_though_removed =
    removed_is_uploaded running_page first_run (make_entry (png 2)) [] true none refl refl

two_added :
    (new : List FileEntry) × (add_files (png 1 ∷ png 3 ∷ []) queue ≡ queue ++ new)
    × Taken queue (png 1 ∷ png 3 ∷ []) new
two_added = add_files_lem (png 1 ∷ png 3 ∷ []) queue

-- The network of Http/Tests answers every request but the first with 200.
two_files_uploaded :
    let r = settle_over 2 net (λ status. none) (update start_upload waiting_page).0 world in
    (given : Answers) × IsSettled given (waiting_of waiting_page.files) 0 waiting_page r.0
    × All
        (λ (e : FileEntry). IsTold net (λ status. none) [] (given e.id) e)
        (waiting_of waiting_page.files)
    × Holds net net_promises ann r.1
    × (r.1.location ≡ world.location)
unfolding make_entry
two_files_uploaded =
    uploads_go_through net net_promises ann (λ status. none) 2 waiting_page world world-Holds
      waiting_page-length (refl, (refl, tt)) waiting_page-some
