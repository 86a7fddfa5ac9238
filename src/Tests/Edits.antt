-- ===== src/Tests/Edits.antt =====
-- Files: the theorems on edits and patches at work.
use atoms_platform.Common.{◌≡◌, refl, some, [], ◌∷◌}
use atoms_platform.Store.{File, Db, ok, latest, version_or_zero, create_file, has_version}
use atoms_platform.Common.{List, none}
use atoms_platform.Store.{RunStatus, Payload}
use atoms_platform.Worker.Patches.{GeneratedFile}
use atoms_platform.Tests.{run_in}
use atoms_platform.Control.Runs.{is_member}
use atoms_platform.Control.Files.{
  FileContentInput, stored, version_conflict, put_project_file, put_in, put_checked,
}
use atoms_platform.Control.Files.Edits.{put_project_file-Edited}
use atoms_platform.Tests.{running_shop, home}

abbrev second : FileContentInput
second = record { file_path = "src/app.ts"; content = "two"; expected_version = 1 }

abbrev second_row : File
second_row = record { project_id = 9; file_path = "src/app.ts"; content = "two"; version = 2 }

abbrev second_shop : Db
second_shop = record running_shop { files = second_row ∷ home ∷ [] }

put_second : put_project_file 7 9 second running_shop ≡ ok (stored second_row, second_shop)
unfolding put_project_file put_in put_checked latest create_file has_version is_member
put_second = refl

-- The same edit again is refused.
put_again : put_project_file 7 9 second second_shop ≡ ok (version_conflict (some 2), second_shop)
unfolding put_project_file put_in put_checked latest create_file has_version is_member
put_again = refl

put_project_file-Edited_example :
    (second_row ≡ second_row)
    × (version_or_zero (latest 9 "src/app.ts" running_shop.files) ≡ 1)
    × (second_shop ≡ record running_shop { files = second_row ∷ running_shop.files })
put_project_file-Edited_example =
    put_project_file-Edited 7 9 second running_shop second_shop (stored second_row) put_second

abbrev patch : List GeneratedFile
patch = record { path = "src/app.ts"; content = "two"; expected_version = 1 } ∷ []

abbrev patched_shop : Db
patched_shop = record second_shop {
  runs = (1, record (run_in RunStatus.running 1 2) { last_heartbeat_at = some 30 }) ∷ [];
  events =
      record {
        run_id = 1;
        sequence = 2;
        payload = Payload.code_generated none ("src/app.ts" ∷ []) 1;
      }
      ∷ running_shop.events;
}
