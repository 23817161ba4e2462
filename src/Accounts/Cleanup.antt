-- ===== src/Accounts/Cleanup.antt =====
-- runOnce of backend/internal/maintenance/cleanup.go: sessions and uploads that have expired.
use personal_space.Prelude.{
  ℕ, ◌≤◌, ◌≡◌, refl, Bool, true, false, Text, Option, List, [], ◌∷◌, any, ltb, arith,
}
use personal_space.Database.Rows.{UserRow, SessionRow, UploadSession}
use personal_space.Storage.Path.{CleanPath}
use personal_space.Storage.Files.{DiskFaults}
use personal_space.Server.World.{World}
use personal_space.Uploads.Cancel.{is_overdue, filter, expire, expire_all, expire_overdue}
use personal_space.Uploads.Expiry.{expire_overdue-none_left}
use personal_space.Shares.Access.{Crypto}
use personal_space.Accounts.Sessions.{
  session_user, require_auth, without_sessions, drop_sessions, value_of,
}

-- WHERE expires_at < now()
abbrev pub is_expired : ℕ → SessionRow → Bool
is_expired now s = ltb s.expires_at now

-- Runner.runOnce; `sessions` is a failure of the deletion, `query` one of the query for uploads, and
-- `fault` one of their updates.
unfoldable pub run_once : CleanPath → Bool → Bool → Bool → DiskFaults → ℕ → World → World
run_once root sessions query fault disk now w =
    expire_overdue root query fault disk now (drop_sessions sessions (is_expired now) w)

without-any : (p : SessionRow → Bool) (ss : List SessionRow) → any p (without_sessions p ss) ≡ false
unfolding without_sessions
without-any p [] = refl
without-any p (s ∷ ss) = ground (arith, without-any p ss)

session_user-kept :
    (hash : Text) (now later : ℕ) (us : List UserRow) (ss : List SessionRow)
    → now ≤ later
    → session_user hash later us (without_sessions (is_expired now) ss)
      ≡ session_user hash later us ss
unfolding session_user without_sessions
session_user-kept hash now later us [] h = refl
session_user-kept hash now later us (s ∷ ss) h =
    ground (arith, h, session_user-kept hash now later us ss h)

expire_all-users :
    (root : CleanPath) (fault : Bool) (disk : DiskFaults) (us : List UploadSession) (w : World)
    → ((expire_all root fault disk us w).db.users ≡ w.db.users)
      × ((expire_all root fault disk us w).db.sessions ≡ w.db.sessions)
unfolding expire_all expire
expire_all-users root fault disk [] w = (refl, refl)
expire_all-users root fault disk (s ∷ us) w =
    ground (arith, expire_all-users root fault disk us (expire root fault disk s w))

expire_overdue-users :
    (root : CleanPath) (query fault : Bool) (disk : DiskFaults) (now : ℕ) (w : World)
    → ((expire_overdue root query fault disk now w).db.users ≡ w.db.users)
      × ((expire_overdue root query fault disk now w).db.sessions ≡ w.db.sessions)
unfolding expire_overdue
expire_overdue-users root true fault disk now w = (refl, refl)
expire_overdue-users root false fault disk now w =
    expire_all-users root fault disk (filter (is_overdue now) w.db.uploads) w

-- The query of RequireAuth finds the same user.
run_once-session_user :
    (root : CleanPath) (sessions query fault : Bool) (disk : DiskFaults) (now later : ℕ)
    (hash : Text) (w : World)
    → now ≤ later
    → let after = run_once root sessions query fault disk now w in
      session_user hash later after.db.users after.db.sessions
      ≡ session_user hash later w.db.users w.db.sessions
unfolding run_once
run_once-session_user root true query fault disk now later hash w h =
    let (users, kept) = expire_overdue-users root query fault disk now w in rw (users, kept) refl
run_once-session_user root false query fault disk now later hash w h =
    let dropped = drop_sessions false (is_expired now) w in
    let (users, kept) = expire_overdue-users root query fault disk now dropped in
    rw (users, kept) (session_user-kept hash now later w.db.users w.db.sessions h)

same-require_auth :
    (crypto : Crypto) (gate : Bool) (later : ℕ) (cookie : Option Text) (v w : World)
    → ((hash : Text)
        → session_user hash later v.db.users v.db.sessions
          ≡ session_user hash later w.db.users w.db.sessions)
    → (require_auth crypto gate later cookie v).0 ≡ (require_auth crypto gate later cookie w).0
unfolding require_auth
same-require_auth crypto gate later cookie v w same =
    ground (arith, same (crypto.hash_token (value_of cookie)))

-- A round of the clean-up whose queries do not fail leaves no upload that is overdue and no session
-- that has expired, and whatever fails, it takes no cookie from anybody that it would still let in.
pub run_once-cleaned :
    (root : CleanPath) (disk : DiskFaults) (now later : ℕ) (w : World) (crypto : Crypto)
    (sessions query fault gate : Bool) (cookie : Option Text)
    → now ≤ later
    → (any (is_overdue now) (run_once root false false false disk now w).db.uploads ≡ false)
      × (any (is_expired now) (run_once root false false false disk now w).db.sessions ≡ false)
      × ((require_auth crypto gate later cookie (run_once root sessions query fault disk now w)).0
          ≡ (require_auth crypto gate later cookie w).0)
unfolding run_once
run_once-cleaned root disk now later w crypto sessions query fault gate cookie h = (
  expire_overdue-none_left root disk now _,
  rw ((expire_overdue-users root false false disk now (drop_sessions false (is_expired now) w)).1)
      (without-any (is_expired now) w.db.sessions),
  same-require_auth crypto gate later cookie _ w
      (λ hash. run_once-session_user root sessions query fault disk now later hash w h),
)
