-- ===== src/Tests/Samples.antt =====
-- A small server: one user, a storage below /data, and an upload of user 1 with the id 5.
use personal_space.Prelude.{
  ℕ, ◌≡◌, refl, true, false, List, [], ◌∷◌, Text, codes, none, some, ok, trim_space, trim_left,
  is_space, is_empty, text_eq, has_prefix,
}
use personal_space.Database.Rows.{Database, UserRow, UploadSession, UploadStatus, custom}
use personal_space.Storage.Path.{
  CleanPath, resolve, resolve_trimmed, clean, clean_parts, clean_from, clean_step, step_up, join,
  inside, render, split_on,
}
use personal_space.Storage.Files.{Bytes, Files, Stream, no_faults, path_of, put}
use personal_space.Settings.Upload.{UploadSettings, get_upload_settings, normalize, unlimited}
use personal_space.Settings.Table.{setting}
use personal_space.Settings.UploadRoundtrip
use personal_space.Server.World.{World}
use personal_space.Uploads.Init.{Keys}
use personal_space.Uploads.Complete.{CompleteFaults}

abbrev pub root : CleanPath
root = record { rooted = true; parts = codes "data" ∷ [] }

abbrev pub temp_key : Text
temp_key = codes "tmp/a.part"

abbrev pub final_key : Text
final_key = codes "files/a.bin"

abbrev pub keys : Keys
keys = record { temp = λ owner id. temp_key; final = λ owner now object. final_key }

abbrev pub temp : Text
temp = codes "/data/tmp/a.part"

abbrev pub final : Text
final = codes "/data/files/a.bin"

pub temp_path : path_of root temp_key ≡ ok temp
unfolding resolve resolve_trimmed clean clean_parts clean_from clean_step step_up join inside render
    split_on trim_space trim_left is_space is_empty text_eq has_prefix
temp_path = refl

pub final_path : path_of root final_key ≡ ok final
unfolding resolve resolve_trimmed clean clean_parts clean_from clean_step step_up join inside render
    split_on trim_space trim_left is_space is_empty text_eq has_prefix
final_path = refl

pub apart : text_eq temp final ≡ false
unfolding text_eq
apart = refl

abbrev pub alice : UserRow
alice = record {
  id = 1;
  username = codes "alice";
  role = codes "user";
  password_hash = codes "x";
  is_active = true;
  quota = some 100;
  used = 10;
}

abbrev pub session : UploadStatus → ℕ → UploadSession
session status uploaded = record {
  id = 5;
  owner = 1;
  folder = none;
  file = none;
  protocol = custom;
  original_name = codes "a.txt";
  target_name = codes "a.txt";
  total_size = some 4;
  uploaded_bytes = uploaded;
  temp_key = temp_key;
  status = status;
  error_message = none;
  expires_at = some 700;
}

abbrev pub database : List UploadSession → Database
database uploads = record {
  users = alice ∷ [];
  sessions = [];
  folders = [];
  files = [];
  uploads = uploads;
  settings = [];
  previews = [];
  jobs = [];
  shares = [];
}

abbrev pub no_files : Files
no_files = λ p. none

abbrev pub world : UploadSession → Bytes → World
world s bytes = record {
  db = database (s ∷ []);
  disk = put temp bytes no_files;
  audit = [];
  uploaded_total = 0;
}

abbrev pub policy : UploadSettings
policy = record { mode = unlimited; max_bytes = none }

pub no_policy_row : get_upload_settings UploadRoundtrip.no_faults [] ≡ some policy
unfolding get_upload_settings setting normalize text_eq
no_policy_row = refl

abbrev pub calm : CompleteFaults
calm = record {
  begin = false;
  load = false;
  disk = no_faults;
  undo = no_faults;
  insert = false;
  usage = false;
  quota = false;
  save = false;
  commit = false;
  audit = false;
}

abbrev pub body : Bytes → Stream
body bytes = record { bytes = bytes; fails = false }
