-- ===== src/Database/Rows.antt =====
-- Rows of the tables in backend/migrations/0001_init.sql, and their unique indexes.
use personal_space.Prelude.{
  ℕ, Bool, true, false, ◌&&◌, List, ◌∷◌, Option, none, some, String, Text, text_eq, ◌==◌, any,
  if◌then◌else◌, ℤ,
}

pub record UserRow : Type 0 where
  pub id : ℕ
  pub username : Text
  pub role : Text
  pub password_hash : Text
  pub is_active : Bool
  pub quota : Option ℕ
  pub used : ℕ

-- sessions
pub record SessionRow : Type 0 where
  pub user : ℕ
  pub token_hash : Text
  pub expires_at : ℕ

pub record FolderRow : Type 0 where
  pub id : ℕ
  pub owner : ℕ
  pub parent : Option ℕ
  pub name : Text
  pub updated_at : ℕ
  pub deleted_at : Option ℕ

pub record FileRow : Type 0 where
  pub id : ℕ
  pub owner : ℕ
  pub folder : Option ℕ
  pub name : Text
  pub original_name : Text
  pub storage_key : Text
  pub size : ℕ
  pub mime : Option Text
  pub extension : Option Text
  pub updated_at : ℕ
  pub deleted_at : Option ℕ

-- upload_sessions.status
pub data UploadStatus : Type 0 where
  initialized uploading paused completed canceled failed expired : UploadStatus

-- upload_sessions.upload_protocol
pub data Protocol : Type 0 where
  custom tus : Protocol

pub record UploadSession : Type 0 where
  pub id : ℕ
  pub owner : ℕ
  pub folder : Option ℕ
  pub file : Option ℕ
  pub protocol : Protocol
  pub original_name : Text
  pub target_name : Text
  pub total_size : Option ℕ
  pub uploaded_bytes : ℕ
  pub temp_key : Text
  pub status : UploadStatus
  pub error_message : Option String
  pub expires_at : Option ℕ

-- A JSON value of system_settings.value; `other` is an array, an object or a number that is no int64.
pub data Json : Type 0 where
  null other : Json
  bool : Bool → Json
  number : ℤ → Json
  string : Text → Json

pub record SettingRow : Type 0 where
  pub key : String
  pub value : Json

-- file_previews
pub record PreviewRow : Type 0 where
  pub id : ℕ
  pub file : ℕ
  pub kind : Text
  pub storage_key : Option Text
  pub mime : Option Text
  pub status : Text
  pub updated_at : ℕ

-- preview_jobs
pub record JobRow : Type 0 where
  pub id : ℕ
  pub file : ℕ
  pub kind : Text
  pub status : Text
  pub attempts : ℕ
  pub output : Option Text
  pub error_message : Option Text
  pub created_at : ℕ

-- share_links.target_type
pub data TargetType : Type 0 where
  file folder : TargetType

pub record ShareRow : Type 0 where
  pub id : ℕ
  pub owner : ℕ
  pub target_type : TargetType
  pub target : ℕ
  pub token_hash : Text
  pub password_hash : Option Text
  pub expires_at : Option ℕ
  pub allow_preview : Bool
  pub allow_download : Bool
  pub allow_folder_browse : Bool
  pub max_downloads : Option ℕ
  pub download_count : ℕ
  pub is_revoked : Bool

pub record Database : Type 0 where
  pub users : List UserRow
  pub sessions : List SessionRow
  pub folders : List FolderRow
  pub files : List FileRow
  pub uploads : List UploadSession
  pub settings : List SettingRow
  pub previews : List PreviewRow
  pub jobs : List JobRow
  pub shares : List ShareRow

-- What an Exec reports: it ran, it met a unique index (SQLSTATE 23505), or it failed otherwise.
pub data Executed : Type 0 where
  done : Database → Executed
  unique_violation broken : Executed

abbrev pub same_id : Option ℕ → Option ℕ → Bool
same_id (some a) (some b) = a == b
same_id _ _ = false

abbrev pub is_live : Option ℕ → Bool
is_live none = true
is_live (some t) = false

-- uq_files_owner_folder_name_active: a NULL folder is never equal to another one.
abbrev pub file_clash : FileRow → FileRow → Bool
file_clash new old =
    new.owner == old.owner
    && same_id new.folder old.folder
    && text_eq new.name old.name
    && is_live old.deleted_at

-- INSERT INTO files
unfoldable pub insert_file : Bool → FileRow → Database → Executed
insert_file fault row db =
    if fault
    then broken
    else if any (file_clash row) db.files
    then unique_violation
    else done (record db { files = row ∷ db.files })

-- SELECT … FROM upload_sessions WHERE id=$1 AND owner_id=$2
abbrev pub session_of : ℕ → ℕ → UploadSession → Bool
session_of upload owner s = s.id == upload && s.owner == owner

abbrev pub user_of : ℕ → UserRow → Bool
user_of user u = u.id == user

-- SELECT EXISTS(SELECT 1 FROM folders WHERE id=$1 AND owner_id=$2 AND deleted_at IS NULL)
abbrev pub live_folder_of : ℕ → ℕ → FolderRow → Bool
live_folder_of id owner f = f.id == id && f.owner == owner && is_live f.deleted_at
