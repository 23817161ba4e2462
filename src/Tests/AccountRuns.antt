-- ===== src/Tests/AccountRuns.antt =====
-- Accounts at work: alice changes her password, an administrator deactivates itself, a login, a
-- request from another site, and a round of the clean-up.
use personal_space.Prelude.{
  ◌≡◌, ◌≢◌, ◌↔◌, ◌⊎◌, refl, true, false, [], ◌∷◌, Text, codes, none, some, ok, arith, text_eq,
  trim_space, trim_left, is_space, is_empty, find, any, update_where, has_prefix, if◌then◌else◌,
  ◌||◌,
}
use personal_space.Database.Rows.{UserRow, SessionRow, user_of}
use personal_space.Storage.Files.{no_faults}
use personal_space.Server.World.{World, serve}
use personal_space.Uploads.Cancel.{is_overdue}
use personal_space.Accounts.Sessions.{
  LoginFaults, PasswordFaults, active_user, by_name, require_auth, login, change_own_password,
}
use personal_space.Accounts.Admin.{
  Spelling, AdminFaults, PatchUserRequest, admin_delete_user, admin_patch_user, fetch_user_by_id,
  patched_name, patched_role, patch_row,
}
use personal_space.Accounts.Csrf.{
  UrlParser, CsrfRequest, is_safe_method, new_csrf_middleware, origin_or_referer, csrf_handler,
}
use personal_space.Accounts.Closed.{IsLockedOut, change_own_password-effect}
use personal_space.Accounts.Deactivated.{admin_patch_user-itself}
use personal_space.Accounts.Login.{login-require_auth, entered}
use personal_space.Accounts.Origins.{IsNamed, csrf_handler-IsNamed}
use personal_space.Accounts.Usage.{
  AreCharged, admin_storage_recalculate, admin_storage_recalculate-AreCharged,
}
use personal_space.Accounts.Cleanup.{is_expired, run_once, run_once-cleaned}
use personal_space.Tests.Samples.{root, alice, database, session, no_files}
use personal_space.Database.Rows
use personal_space.Tests.BrowseRuns.{plain}

abbrev signed_in : SessionRow
signed_in = record { user = 1; token_hash = codes "#old"; expires_at = 650 }

abbrev site : World
site = record {
  db = record (database (session Rows.UploadStatus.uploading 2 ∷ [])) {
    users = record alice { password_hash = codes "$secret" } ∷ [];
    sessions = signed_in ∷ [];
  };
  disk = no_files;
  audit = [];
  uploaded_total = 0;
}

abbrev password_calm : PasswordFaults
password_calm = record { load = false; update = false; sessions = false; audit = false }

change_own_password-effect_example :
    let (answer, after) =
      serve
        (change_own_password plain password_calm
          (some 1)
          (some (codes "secret", codes "new secret")))
        site in
    ((answer.code ≡ 200)
      × ((u : UserRow) × (hash : Text) × (find (active_user 1) site.db.users ≡ some u)
          × (plain.verify_password u.password_hash (trim_space (codes "secret")) ≡ true)
          × (plain.hash_password (trim_space (codes "new secret")) ≡ some hash)
          × (after.db.users
              ≡ update_where (user_of 1) (λ u. record u { password_hash = hash }) site.db.users))
      × IsLockedOut plain 1 after)
    ⊎ (answer.code ≢ 200) × (after ≡ site)
change_own_password-effect_example =
    change_own_password-effect plain password_calm 1 (codes "secret") (codes "new secret") site refl

abbrev calm : AdminFaults
calm = record { load = false; write = false; sessions = false; audit = false; reload = false }

abbrev sessions_stay : AdminFaults
sessions_stay = record calm { sessions = true }

abbrev off : PatchUserRequest
off = record {
  username = none;
  role = none;
  is_active = some false;
  quota = none;
  clear_quota = none;
}

patch_ok : (serve (admin_patch_user sessions_stay (some 1) (some 1) (some off)) site).0.code ≡ 200
unfolding admin_patch_user fetch_user_by_id patched_name patched_role patch_row
patch_ok = ground arith

-- Ids as a letter of either case before a digit, the lower one in the database.
abbrev ids : Spelling
ids = record {
  parse = λ t. if text_eq t (codes "a1") || text_eq t (codes "A1") then some 1 else none;
  spell = λ n. codes "a1";
}

reads : (ids.parse (ids.spell 1) ≡ some 1) × (ids.parse (codes "A1") ≡ some 1)
unfolding text_eq
reads = (refl, refl)

differs : codes "A1" ≢ codes "a1"
differs e = absurd (ground (arith, e))

admin_patch_user-itself_example :
    ((serve (admin_delete_user ids calm (some 1) (codes "a1")) site).0.code ≡ 400)
    × ((serve (admin_delete_user ids calm (some 1) (codes "a1")) site).1 ≡ site)
    × IsLockedOut plain 1
        (serve (admin_patch_user sessions_stay (some 1) (some 1) (some off)) site).1
    × ((serve (admin_delete_user ids calm (some 1) (codes "A1")) site).0.code ≡ 200)
    × IsLockedOut plain 1 (serve (admin_delete_user ids calm (some 1) (codes "A1")) site).1
admin_patch_user-itself_example =
    admin_patch_user-itself ids plain sessions_stay calm 1 (codes "A1") off site reads.0 reads.1
      differs refl refl patch_ok

abbrev login_calm : LoginFaults
login_calm = record { load = false; store = false; audit = false }

login_ok :
    (serve
      (login plain login_calm 600 100 (some (codes "tok")) (some (codes "alice", codes "secret")))
      site).0.code
    ≡ 200
unfolding login trim_space trim_left is_space is_empty text_eq
login_ok = refl

login-require_auth_example :
    (u : UserRow) × (find (by_name (trim_space (codes "alice"))) site.db.users ≡ some u)
    × (plain.verify_password u.password_hash (codes "secret") ≡ true)
    × ((v : UserRow) × ((require_auth plain false 650 (some (codes "tok")) (
            entered plain login_calm 600 100 (codes "tok") (codes "alice") (codes "secret") site)).0
          ≡ ok v)
        × (v.id ≡ u.id)
        × (v.is_active ≡ true))
unfolding is_empty
login-require_auth_example =
    login-require_auth plain login_calm 600 100 (codes "tok") (codes "alice") (codes "secret") site
      650 (omega arith) refl login_ok

abbrev parse : UrlParser
parse url = some (codes "https", url)

abbrev request : CsrfRequest
request = record {
  method = codes "POST";
  path = codes "/api/files/upload";
  cookie = some (codes "tok");
  origin = codes "other.example";
  referer = [];
}

csrf_handler-IsNamed_example :
    (csrf_handler parse (new_csrf_middleware parse false (codes "space.example") []) request
      ≡ ok tt)
    ↔ IsNamed parse (origin_or_referer parse request) (codes "space.example" ∷ [])
unfolding is_safe_method has_prefix trim_space trim_left is_space is_empty text_eq
csrf_handler-IsNamed_example =
    csrf_handler-IsNamed parse (codes "space.example") [] request refl refl refl

run_once-cleaned_example :
    (any (is_overdue 710) (run_once root false false false no_faults 710 site).db.uploads ≡ false)
    × (any (is_expired 710) (run_once root false false false no_faults 710 site).db.sessions
        ≡ false)
    × ((require_auth plain false 720
          (some (codes "old"))
          (run_once root true false false no_faults 710 site)).0
        ≡ (require_auth plain false 720 (some (codes "old")) site).0)
run_once-cleaned_example =
    run_once-cleaned root no_faults 710 720 site plain true false false false (some (codes "old"))
      (omega arith)

admin_storage_recalculate-AreCharged_example :
    let after = (serve (admin_storage_recalculate false false) site).1 in
    AreCharged site.db.files site.db.users after.db.users × (after.db.files ≡ site.db.files)
admin_storage_recalculate-AreCharged_example = admin_storage_recalculate-AreCharged site
